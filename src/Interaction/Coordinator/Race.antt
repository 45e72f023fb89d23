-- ===== src/Interaction/Coordinator/Race.antt =====
-- Calls that compete for one interaction, and calls on different ones. The mutex makes of two
-- competing calls a sequence, the one that comes first and the one that comes second.
use career_coordination_mcp.Prelude.{
  ◌+◌, ◌≡◌, ◌≢◌, ◌∙◌, ap, Str, lit, str_eq, str_eq_iff, str_eq_refl, Bool, false, none, some, ◌++◌,
  arith, if◌then◌else◌, append_cancel_left,
}
use career_coordination_mcp.Prelude.StringMap.{find, find-assign}
use career_coordination_mcp.Domain.Interaction.{InteractionState, InteractionEvent, allowed, target}
use career_coordination_mcp.Domain.Interaction.Machine.{allowed-target}
use career_coordination_mcp.Interaction.Coordinator.{
  TransitionOutcome, applied, invalid_transition, Coordinator, InteractionRecord, idem_key,
  apply_transition, get_state,
}
use career_coordination_mcp.Interaction.Coordinator.Laws.{
  Ending, missing, replayed, refused, commits, ending, get_state-committed,
}

-- A call that does not report `applied` leaves the coordinator as it was.
pub not_applied_keeps :
    (c : Coordinator) (id : Str) (e : InteractionEvent) (key : Str)
    → (apply_transition c id e key).1.outcome ≢ applied
    → (apply_transition c id e key).0 ≡ c
not_applied_keeps c id e key h = go (ending c id e key)
  where
    go : Ending c id e key (apply_transition c id e key) → (apply_transition c id e key).0 ≡ c
    go (missing _ o) = rw o
    go (replayed _ _ _ _ o) = rw o
    go (refused _ _ _ _ o) = rw o
    go (commits r f g a o) = absurd (h (rw o))

-- A call on one interaction does not show on another.
pub apply_transition_elsewhere :
    (c : Coordinator) (id j : Str) (e : InteractionEvent) (key : Str)
    → id ≢ j
    → get_state (apply_transition c id e key).0 j ≡ get_state c j
apply_transition_elsewhere c id j e key h = go (ending c id e key)
  where
    go :
        Ending c id e key (apply_transition c id e key)
        → get_state (apply_transition c id e key).0 j ≡ get_state c j
    go (missing _ o) = rw o
    go (replayed _ _ _ _ o) = rw o
    go (refused _ _ _ _ o) = rw o
    go (commits r f g a o) =
        rw o (get_state-committed c id key e r j ∙ ground (arith, str_eq_iff id j))

keys_differ : (id k j : Str) → k ≢ j → str_eq (idem_key id k) (idem_key id j) ≡ false
keys_differ id k j ne =
    ground
      (arith, str_eq_iff (idem_key id k) (idem_key id j), append_cancel_left (id ++ lit ":") k j)

-- The outcome that a call has where its receipt key is free: by the state alone.
abbrev pub fresh_outcome : Bool → TransitionOutcome
fresh_outcome ok = if ok then applied else invalid_transition

abbrev pub after_event : InteractionState → InteractionEvent → InteractionState
after_event s e = if allowed s e then target e else s

-- A call on an interaction in state `s` whose receipt key is free.
pub record Fresh (c : Coordinator) (id key : Str) (s : InteractionState) : Type 0 where
  pub r : InteractionRecord
  pub found : find c.interactions id ≡ some r
  pub in_state : r.interaction.state ≡ s
  pub free : find c.idempotency_receipts (idem_key id key) ≡ none

module _ (c : Coordinator) (id : Str) (e : InteractionEvent) (key : Str) where
  Fresh-call :
      (s : InteractionState)
      → Fresh c id key s
      → (apply_transition c id e key).1.outcome ≡ fresh_outcome (allowed s e)
  Fresh-call s w = go (ending c id e key)
    where
      go :
          Ending c id e key (apply_transition c id e key)
          → (apply_transition c id e key).1.outcome ≡ fresh_outcome (allowed s e)
      go (missing f o) = cc (f, w.found)
      go (replayed r rc f g o) = cc (g, w.free)
      go (refused r f g a o) = ground (arith, w.found, w.in_state)
      go (commits r f g a o) = ground (arith, w.found, w.in_state)

  -- Another key of the same interaction stays free, and the state is the one that the event gives.
  Fresh-after :
      (other : Str) (s : InteractionState)
      → key ≢ other
      → Fresh c id key s
      → Fresh c id other s
      → Fresh (apply_transition c id e key).0 id other (after_event s e)
  Fresh-after other s ne w v = go (ending c id e key)
    where
      go :
          Ending c id e key (apply_transition c id e key)
          → Fresh (apply_transition c id e key).0 id other (after_event s e)
      go (missing f o) = cc (f, w.found)
      go (replayed r rc f g o) = cc (g, w.free)
      go (refused r f g a o) =
          let same : r.interaction.state ≡ s = ground (arith, w.found, w.in_state) in
          rw o (record {
            r = w.r;
            found = w.found;
            in_state = w.in_state ∙ ground (arith, same);
            free = v.free;
          })
      go (commits r f g a o) =
          let same : r.interaction.state ≡ s = ground (arith, w.found, w.in_state) in
          rw o (record {
            r = record {
              interaction = record (r.interaction) { state = target e };
              transition_index = r.transition_index + 1;
            };
            found = rw find-assign (rw str_eq_refl);
            in_state = ground (arith, same);
            free = rw find-assign (rw (keys_differ id key other ne) (v.free));
          })

-- Of two calls with different fresh keys that compete for one interaction, the first has the outcome
-- that the state allows, and the second the outcome that the state after the first allows.
pub race_outcomes :
    (c : Coordinator) (id : Str) (e₁ e₂ : InteractionEvent) (k₁ k₂ : Str) (s : InteractionState)
    → k₁ ≢ k₂
    → Fresh c id k₁ s
    → Fresh c id k₂ s
    → let c₁ = (apply_transition c id e₁ k₁).0 in
      ((apply_transition c id e₁ k₁).1.outcome ≡ fresh_outcome (allowed s e₁))
      × ((apply_transition c₁ id e₂ k₂).1.outcome ≡ fresh_outcome (allowed (after_event s e₁) e₂))
race_outcomes c id e₁ e₂ k₁ k₂ s ne w v = (
  Fresh-call c id e₁ k₁ s w,
  Fresh-call _ id e₂ k₂ (after_event s e₁) (Fresh-after c id e₁ k₁ k₂ s ne w v),
)

after_event-refuses :
    (s : InteractionState) (e : InteractionEvent) → allowed (after_event s e) e ≡ false
after_event-refuses s e = ground (arith, allowed-target e)

-- Two workers that send one event to one interaction under different fresh keys never both succeed:
-- whatever the first outcome, the second is `invalid_transition` and changes nothing.
pub race_same_event :
    (c : Coordinator) (id : Str) (e : InteractionEvent) (k₁ k₂ : Str) (s : InteractionState)
    → k₁ ≢ k₂
    → Fresh c id k₁ s
    → Fresh c id k₂ s
    → let c₁ = (apply_transition c id e k₁).0 in
      ((apply_transition c₁ id e k₂).1.outcome ≡ invalid_transition)
      × ((apply_transition c₁ id e k₂).0 ≡ c₁)
race_same_event c id e k₁ k₂ s ne w v =
    let second =
      (race_outcomes c id e e k₁ k₂ s ne w v).1 ∙ ap fresh_outcome (after_event-refuses s e) in
    (second, not_applied_keeps _ id e k₂ (λ h. cc (second, h)))
