-- ===== src/Interaction/Coordinator.antt =====
-- The in-memory coordinator (include/ccmcp/interaction/interaction_coordinator.h,
-- inmemory_interaction_coordinator.h and src/interaction/inmemory_interaction_coordinator.cpp).
-- Each method holds the mutex from its first line to its last, so that the calls of any threads
-- are one sequence. `transition_index` is an `int64_t`; `Coordinator.Reachable` bounds it.
pub mod Laws
pub mod Reachable
pub mod Replay
pub mod Race
use career_coordination_mcp.Prelude.{
  ℕ, ◌+◌, Str, lit, Bool, true, false, Option, none, some, List, [], ◌∷◌, ◌++◌, if◌then◌else◌,
}
use career_coordination_mcp.Prelude.StringMap.{StringMap, find, assign}
use career_coordination_mcp.Domain.Interaction.{
  InteractionState, draft, InteractionEvent, Interaction, can_transition, apply,
}

pub data TransitionOutcome : Type 0 where
  applied already_applied conflict not_found invalid_transition backend_error : TransitionOutcome

pub record TransitionResult : Type 0 where
  pub outcome : TransitionOutcome
  pub before_state : InteractionState
  pub after_state : InteractionState
  pub transition_index : ℕ
  pub error_message : Str

pub record StateInfo : Type 0 where
  pub state : InteractionState
  pub transition_index : ℕ

pub record InteractionRecord : Type 0 where
  pub interaction : Interaction
  pub transition_index : ℕ

pub record IdempotencyReceipt : Type 0 where
  pub after_state : InteractionState
  pub transition_index : ℕ
  pub applied_event : InteractionEvent

pub record Coordinator : Type 0 where
  pub interactions : StringMap InteractionRecord
  pub idempotency_receipts : StringMap IdempotencyReceipt

abbrev pub empty : Coordinator
empty = record { interactions = []; idempotency_receipts = [] }

-- The key of a receipt: `int_key + ":" + idempotency_key`
abbrev pub idem_key : Str → Str → Str
idem_key interaction_id idempotency_key = interaction_id ++ lit ":" ++ idempotency_key

abbrev not_found_result : Str → TransitionResult
not_found_result int_key = record {
  outcome = not_found;
  before_state = draft;
  after_state = draft;
  transition_index = 0;
  error_message = lit "Interaction not found: " ++ int_key;
}

abbrev already_applied_result : IdempotencyReceipt → TransitionResult
already_applied_result receipt = record {
  outcome = already_applied;
  before_state = receipt.after_state;
  after_state = receipt.after_state;
  transition_index = receipt.transition_index;
  error_message = [];
}

abbrev invalid_result : InteractionRecord → Str → TransitionResult
invalid_result r message = record {
  outcome = invalid_transition;
  before_state = r.interaction.state;
  after_state = r.interaction.state;
  transition_index = r.transition_index;
  error_message = message;
}

-- The writes after a successful `apply`, and the result that reports them
commit :
    Coordinator
    → Str
    → Str
    → InteractionEvent
    → InteractionRecord
    → Interaction
    → Coordinator × TransitionResult
commit c int_key key event r moved =
    let index = r.transition_index + 1 in
    (
      record {
        interactions =
            assign c.interactions int_key
              (record { interaction = moved; transition_index = index });
        idempotency_receipts =
            assign c.idempotency_receipts key (record {
              after_state = moved.state;
              transition_index = index;
              applied_event = event;
            });
      },
      record {
        outcome = applied;
        before_state = r.interaction.state;
        after_state = moved.state;
        transition_index = index;
        error_message = [];
      },
    )

-- From the check of the transition on
transition :
    Coordinator → Str → Str → InteractionEvent → InteractionRecord → Coordinator × TransitionResult
unfolding apply can_transition commit
transition c int_key key event r =
    if can_transition r.interaction event
    then (let (moved, done) = apply r.interaction event in
        if done
        then commit c int_key key event r moved
        else (c, invalid_result r (lit "Failed to apply transition (domain logic rejected)")))
    else (c, invalid_result r (lit "Invalid transition from current state"))

unfoldable pub apply_transition :
    Coordinator → Str → InteractionEvent → Str → Coordinator × TransitionResult
unfolding transition
apply_transition c interaction_id event idempotency_key =
    let key = idem_key interaction_id idempotency_key in
    elim (find c.interactions interaction_id) [
      | none ↦ (c, not_found_result interaction_id)
      | some r ↦ elim (find c.idempotency_receipts key) [
        | some receipt ↦ (c, already_applied_result receipt)
        | none ↦ transition c interaction_id key event r
      ]
    ]

unfoldable pub get_state : Coordinator → Str → Option StateInfo
get_state c interaction_id = elim (find c.interactions interaction_id) [
  | none ↦ none
  | some r ↦ some (record { state = r.interaction.state; transition_index = r.transition_index })
]

unfoldable pub create_interaction : Coordinator → Str → Str → Str → Coordinator × Bool
create_interaction c interaction_id contact_id opportunity_id =
    elim (find c.interactions interaction_id) [
      | some r ↦ (c, false)
      | none ↦ (
        record c {
          interactions = assign c.interactions interaction_id (record {
            interaction = record {
              interaction_id = interaction_id;
              contact_id = contact_id;
              opportunity_id = opportunity_id;
              state = draft;
            };
            transition_index = 0;
          });
        },
        true,
      )
    ]

-- The calls that change the state, and a sequence of them
pub data Call : Type 0 where
  applies : Str → InteractionEvent → Str → Call
  creates : Str → Str → Str → Call

unfoldable pub step : Coordinator → Call → Coordinator
unfolding apply_transition create_interaction
step c (applies id event key) = (apply_transition c id event key).0
step c (creates id contact opportunity) = (create_interaction c id contact opportunity).0

unfoldable pub run : Coordinator → List Call → Coordinator
unfolding step
run c [] = c
run c (call ∷ calls) = run (step c call) calls
