-- ===== src/Interaction/Coordinator/Replay.antt =====
-- Idempotency of the in-memory coordinator: receipts are kept for ever, and a call that finds one
-- answers from it. Two interactions can have one receipt key.
use career_coordination_mcp.Prelude.{
  ◌≡◌, ap, Str, str_eq_refl, false, some, List, [], ◌∷◌, append_assoc, inl, inr, is_none,
  Option-cases,
}
use career_coordination_mcp.Prelude.StringMap.{
  find, find-assign, find-assign_free, is_none-find-assign,
}
use career_coordination_mcp.Domain.Interaction.{InteractionEvent}
use career_coordination_mcp.Interaction.Coordinator.{
  applied, already_applied, TransitionResult, IdempotencyReceipt, Coordinator, idem_key,
  already_applied_result, apply_transition, create_interaction, Call, applies, creates, step, run,
}
use career_coordination_mcp.Interaction.Coordinator.Laws.{
  Ending, missing, replayed, refused, commits, ending,
}

-- `key` has a receipt, and `id` exists.
pub record Holds (c : Coordinator) (id key : Str) (receipt : IdempotencyReceipt) : Type 0 where
  pub kept : find c.idempotency_receipts key ≡ some receipt
  pub present : is_none (find c.interactions id) ≡ false

apply-Holds :
    (c : Coordinator) (id key : Str) (receipt : IdempotencyReceipt) (j : Str) (e : InteractionEvent)
    (k : Str)
    → Ending c j e k (apply_transition c j e k)
    → Holds c id key receipt
    → Holds (apply_transition c j e k).0 id key receipt
apply-Holds c id key receipt j e k (missing _ o) h = rw o h
apply-Holds c id key receipt j e k (replayed _ _ _ _ o) h = rw o h
apply-Holds c id key receipt j e k (refused _ _ _ _ o) h = rw o h
apply-Holds c id key receipt j e k (commits r f g a o) h = rw o (record {
  kept = find-assign_free c.idempotency_receipts (idem_key j k) key _ receipt g h.kept;
  present = is_none-find-assign c.interactions j id _ h.present;
})

create-Holds :
    (c : Coordinator) (id key : Str) (receipt : IdempotencyReceipt) (j contact opportunity : Str)
    → Holds c id key receipt
    → Holds (create_interaction c j contact opportunity).0 id key receipt
unfolding create_interaction
create-Holds c id key receipt j contact opportunity h =
    elim (Option-cases (find c.interactions j)) [
      | inr (r, f) ↦ rw (f, create_interaction) h
      | inl f ↦
          rw (f, create_interaction)
            (record {
              kept = h.kept;
              present = is_none-find-assign c.interactions j id _ h.present;
            })
    ]

step-Holds :
    (c : Coordinator) (call : Call) (id key : Str) (receipt : IdempotencyReceipt)
    → Holds c id key receipt
    → Holds (step c call) id key receipt
unfolding step
step-Holds c (applies j e k) id key receipt h =
    apply-Holds c id key receipt j e k (ending c j e k) h
step-Holds c (creates j contact opportunity) id key receipt h =
    create-Holds c id key receipt j contact opportunity h

run-Holds :
    (c : Coordinator) (calls : List Call) (id key : Str) (receipt : IdempotencyReceipt)
    → Holds c id key receipt
    → Holds (run c calls) id key receipt
unfolding run
run-Holds c [] id key receipt h = h
run-Holds c (call ∷ calls) id key receipt h =
    run-Holds (step c call) calls id key receipt (step-Holds c call id key receipt h)

-- The receipt that an applied call leaves.
abbrev receipt_of : TransitionResult → InteractionEvent → IdempotencyReceipt
receipt_of result e = record {
  after_state = result.after_state;
  transition_index = result.transition_index;
  applied_event = e;
}

applied-Holds :
    (c : Coordinator) (id : Str) (e : InteractionEvent) (key : Str)
    → Ending c id e key (apply_transition c id e key)
    → (apply_transition c id e key).1.outcome ≡ applied
    → Holds
        (apply_transition c id e key).0
        id
        (idem_key id key)
        (receipt_of (apply_transition c id e key).1 e)
unfolding apply_transition
applied-Holds c id e key (missing _ o) h = cc (o, h)
applied-Holds c id e key (replayed _ _ _ _ o) h = cc (o, h)
applied-Holds c id e key (refused _ _ _ _ o) h = cc (o, h)
applied-Holds c id e key (commits r f g a o) h =
    rw o
      (record { kept = rw find-assign (rw str_eq_refl); present = rw find-assign (rw str_eq_refl) })

-- A call that finds its receipt answers from it and changes nothing.
Holds-answer :
    (c : Coordinator) (id key : Str) (e : InteractionEvent) (receipt : IdempotencyReceipt)
    → Holds c id (idem_key id key) receipt
    → apply_transition c id e key ≡ (c, already_applied_result receipt)
unfolding apply_transition
Holds-answer c id key e receipt h = elim (Option-cases (find c.interactions id)) [
  | inl f ↦ cc (ap is_none f, h.present)
  | inr (r, f) ↦ rw (f, h.kept, apply_transition)
]

-- After a call was applied, and after any calls that follow it, a call with the same interaction and
-- idempotency key, whatever its event, is answered `already_applied` with the state and the index
-- that the first call reported, and changes nothing.
pub replay_idempotent :
    (c : Coordinator) (id : Str) (e : InteractionEvent) (key : Str) (calls : List Call)
    (again : InteractionEvent)
    → (apply_transition c id e key).1.outcome ≡ applied
    → let result = (apply_transition c id e key).1 in
      let later = run (apply_transition c id e key).0 calls in
      apply_transition later id again key ≡ (
        later,
        record {
          outcome = already_applied;
          before_state = result.after_state;
          after_state = result.after_state;
          transition_index = result.transition_index;
          error_message = [];
        },
      )
replay_idempotent c id e key calls again h =
    Holds-answer _ id key again _
      (run-Holds _ calls id (idem_key id key) _ (applied-Holds c id e key (ending c id e key) h))

idem_key_shift : (id k key : Str) → idem_key (idem_key id k) key ≡ idem_key id (idem_key k key)
idem_key_shift id k key = simp append_assoc

-- Two interactions share a receipt where the identifier of one extends the other's by a colon and a
-- text `k`: once an event was applied to `id` under the key `k:key`, the first call that ever names
-- the interaction `id:k` with the key `key` is answered `already_applied`, with the state and the
-- index of the other interaction, and its own event is not applied.
pub receipts_collide :
    (c : Coordinator) (id k key : Str) (e other : InteractionEvent)
    → (apply_transition c id e (idem_key k key)).1.outcome ≡ applied
    → is_none (find (apply_transition c id e (idem_key k key)).0.interactions (idem_key id k))
      ≡ false
    → let result = (apply_transition c id e (idem_key k key)).1 in
      let after = (apply_transition c id e (idem_key k key)).0 in
      apply_transition after (idem_key id k) other key
      ≡ (after, already_applied_result (receipt_of result e))
receipts_collide c id k key e other h x =
    let held = applied-Holds c id e (idem_key k key) (ending c id e (idem_key k key)) h in
    Holds-answer _ (idem_key id k) key other
      (receipt_of (apply_transition c id e (idem_key k key)).1 e)
      (record { kept = rw idem_key_shift held.kept; present = x })
