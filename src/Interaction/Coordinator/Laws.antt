-- ===== src/Interaction/Coordinator/Laws.antt =====
-- What one call of the in-memory coordinator does, on every branch.
use career_coordination_mcp.Prelude.{
  ◌+◌, ◌≡◌, inl, inr, Str, lit, str_eq, true, false, ◌&&◌, if◌then◌else◌, is_none, none, some, [],
  arith, Bool-cases, Option-cases,
}
use career_coordination_mcp.Prelude.StringMap.{find, assign, find-assign}
use career_coordination_mcp.Domain.Interaction.{
  draft, InteractionEvent, allowed, target, can_transition, apply,
}
use career_coordination_mcp.Interaction.Coordinator.{
  applied, TransitionResult, InteractionRecord, IdempotencyReceipt, Coordinator, idem_key,
  not_found_result, already_applied_result, invalid_result, transition, apply_transition, StateInfo,
  get_state, create_interaction,
}

-- The coordinator after an applied event, and the result that the caller gets.
abbrev pub committed : Coordinator → Str → Str → InteractionEvent → InteractionRecord → Coordinator
committed c id key e r = record {
  interactions = assign c.interactions id (record {
    interaction = record (r.interaction) { state = target e };
    transition_index = r.transition_index + 1;
  });
  idempotency_receipts = assign c.idempotency_receipts (idem_key id key) (record {
    after_state = target e;
    transition_index = r.transition_index + 1;
    applied_event = e;
  });
}

abbrev pub applied_result : InteractionEvent → InteractionRecord → TransitionResult
applied_result e r = record {
  outcome = applied;
  before_state = r.interaction.state;
  after_state = target e;
  transition_index = r.transition_index + 1;
  error_message = [];
}

-- The four ways in which a call of `apply_transition` ends.
pub data Ending (c : Coordinator) (id : Str) (e : InteractionEvent) (key : Str)
    (out : Coordinator × TransitionResult) : Type 0 where
  missing : find c.interactions id ≡ none → out ≡ (c, not_found_result id) → Ending c id e key out
  replayed :
      (r : InteractionRecord) (receipt : IdempotencyReceipt)
      → find c.interactions id ≡ some r
      → find c.idempotency_receipts (idem_key id key) ≡ some receipt
      → out ≡ (c, already_applied_result receipt)
      → Ending c id e key out
  refused :
      (r : InteractionRecord)
      → find c.interactions id ≡ some r
      → find c.idempotency_receipts (idem_key id key) ≡ none
      → allowed r.interaction.state e ≡ false
      → out ≡ (c, invalid_result r (lit "Invalid transition from current state"))
      → Ending c id e key out
  commits :
      (r : InteractionRecord)
      → find c.interactions id ≡ some r
      → find c.idempotency_receipts (idem_key id key) ≡ none
      → allowed r.interaction.state e ≡ true
      → out ≡ (committed c id key e r, applied_result e r)
      → Ending c id e key out

module _ (c : Coordinator) (id : Str) (e : InteractionEvent) (key : Str) where
  found-Ending :
      (r : InteractionRecord)
      → find c.interactions id ≡ some r
      → Ending c id e key (apply_transition c id e key)
  unfolding apply_transition can_transition apply
  found-Ending r f = elim (Option-cases (find c.idempotency_receipts (idem_key id key))) [
    | inr (receipt, g) ↦ replayed r receipt f g (rw (f, g, apply_transition))
    | inl g ↦ elim (Bool-cases (allowed r.interaction.state e)) [
      | inl h ↦ commits r f g h (rw (f, g, h, apply_transition, transition, can_transition, apply))
      | inr h ↦ refused r f g h (rw (f, g, h, apply_transition, transition, can_transition))
    ]
  ]

  -- Every call ends in one of the four ways.
  pub ending : Ending c id e key (apply_transition c id e key)
  unfolding apply_transition
  ending = elim (Option-cases (find c.interactions id)) [
    | inl f ↦ missing f (rw (f, apply_transition))
    | inr (r, f) ↦ found-Ending r f
  ]

abbrev pub info : InteractionRecord → StateInfo
info r = record { state = r.interaction.state; transition_index = r.transition_index }

abbrev pub fresh : StateInfo
fresh = record { state = draft; transition_index = 0 }

pub get_state-eq_some :
    (c : Coordinator) (id : Str) (r : InteractionRecord)
    → find c.interactions id ≡ some r
    → get_state c id ≡ some (info r)
unfolding get_state
get_state-eq_some c id r f = rw (f, get_state)

pub get_state-eq_none :
    (c : Coordinator) (id : Str) → find c.interactions id ≡ none → get_state c id ≡ none
unfolding get_state
get_state-eq_none c id f = rw (f, get_state)

pub get_state→find :
    (c : Coordinator) (id : Str) (s : StateInfo)
    → get_state c id ≡ some s
    → (r : InteractionRecord) × (find c.interactions id ≡ some r) × (info r ≡ s)
unfolding get_state
get_state→find c id s h = elim (Option-cases (find c.interactions id)) [
  | inl f ↦ cc (get_state-eq_none c id f)
  | inr (r, f) ↦ (r, f, cc (get_state-eq_some c id r f))
]

-- An applied event shows on its own interaction and on no other.
pub get_state-committed :
    (c : Coordinator) (id key : Str) (e : InteractionEvent) (r : InteractionRecord) (j : Str)
    → get_state (committed c id key e r) j ≡ (
        if str_eq id j
        then some (record { state = target e; transition_index = r.transition_index + 1 })
        else get_state c j)
unfolding get_state
get_state-committed c id key e r j = ground (
  arith,
  find-assign c.interactions id j (record {
    interaction = record (r.interaction) { state = target e };
    transition_index = r.transition_index + 1;
  }),
)

-- `create_interaction` makes a draft of an identifier that is not taken, says whether it did, and
-- changes no other interaction.
pub create_interaction_lem :
    (c : Coordinator) (id contact opportunity j : Str)
    → ((create_interaction c id contact opportunity).1 ≡ is_none (get_state c id))
      × (get_state (create_interaction c id contact opportunity).0 j
          ≡ (if str_eq id j && is_none (get_state c id) then some fresh else get_state c j))
unfolding create_interaction get_state
create_interaction_lem c id contact opportunity j = ground (
  arith,
  find-assign c.interactions id j (record {
    interaction = record {
      interaction_id = id;
      contact_id = contact;
      opportunity_id = opportunity;
      state = draft;
    };
    transition_index = 0;
  }),
)
