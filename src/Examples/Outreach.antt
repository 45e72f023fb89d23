-- ===== src/Examples/Outreach.antt =====
-- The outreach state machine and its coordinator on one or two interactions.
use career_coordination_mcp.Prelude.{
  ◌≤◌, ◌≡◌, ◌≢◌, refl, Str, lit, str_eq, str_lt, str_eq_iff, none, List, [], ◌∷◌,
}
use career_coordination_mcp.Prelude.StringMap.{find, assign}
use career_coordination_mcp.Domain.Interaction.{draft, ready, prepare, send, close}
use career_coordination_mcp.Domain.Interaction.Machine.{Run}
use career_coordination_mcp.Interaction.Coordinator.{
  Coordinator, empty, already_applied, invalid_transition, idem_key, apply_transition, get_state,
  create_interaction, Call, applies, creates, step, run,
}
use career_coordination_mcp.Interaction.Coordinator.Reachable.{Move, step-Move, index_counts_steps}
use career_coordination_mcp.Interaction.Coordinator.Replay.{replay_idempotent, receipts_collide}
use career_coordination_mcp.Interaction.Coordinator.Race.{Fresh, race_same_event}

abbrev a : Str
a = lit "a"

abbrev ab : Str
ab = lit "a:b"

abbrev k : Str
k = lit "k"

abbrev calls : List Call
calls = creates a (lit "ct") (lit "op") ∷ creates ab (lit "ct") (lit "op") ∷ []

abbrev two : Coordinator
two = run empty calls

abbrev later_calls : List Call
later_calls = applies a send (lit "k2") ∷ applies ab close k ∷ []

replay_idempotent_example :
    apply_transition (run (apply_transition two a prepare k).0 later_calls) a close k ≡ (
      run (apply_transition two a prepare k).0 later_calls,
      record {
        outcome = already_applied;
        before_state = ready;
        after_state = ready;
        transition_index = 1;
        error_message = [];
      },
    )
unfolding apply_transition run find assign str_eq str_lt create_interaction step
replay_idempotent_example = replay_idempotent two a prepare k later_calls close refl

receipts_collide_example :
    apply_transition (apply_transition two a prepare (idem_key (lit "b") k)).0 ab close k ≡ (
      (apply_transition two a prepare (idem_key (lit "b") k)).0,
      record {
        outcome = already_applied;
        before_state = ready;
        after_state = ready;
        transition_index = 1;
        error_message = [];
      },
    )
unfolding apply_transition run find assign str_eq str_lt create_interaction step
receipts_collide_example = receipts_collide two a (lit "b") k prepare close refl refl

index_counts_steps_example : Run draft 1 ready × (1 ≤ 4)
unfolding run get_state find assign str_eq str_lt apply_transition create_interaction step
index_counts_steps_example =
    index_counts_steps (creates a (lit "ct") (lit "op") ∷ applies a prepare k ∷ []) a
      (record { state = ready; transition_index = 1 }) refl

step-Move_example : Move (get_state two a) (get_state (step two (applies a prepare k)) a)
step-Move_example = step-Move two (applies a prepare k) a

keys_ne : k ≢ lit "k2"
unfolding str_eq
keys_ne h = cc ((str_eq_iff k (lit "k2")).1 h)

Fresh-a :
    (key : Str) → find two.idempotency_receipts (idem_key a key) ≡ none → Fresh two a key draft
unfolding run find assign str_eq str_lt apply_transition create_interaction step
Fresh-a key h = record {
  r = record {
    interaction = record {
      interaction_id = a;
      contact_id = lit "ct";
      opportunity_id = lit "op";
      state = draft;
    };
    transition_index = 0;
  };
  found = refl;
  in_state = refl;
  free = h;
}

race_same_event_example :
    ((apply_transition (apply_transition two a prepare k).0 a prepare (lit "k2")).1.outcome
      ≡ invalid_transition)
    × ((apply_transition (apply_transition two a prepare k).0 a prepare (lit "k2")).0
        ≡ (apply_transition two a prepare k).0)
unfolding run find assign str_eq str_lt apply_transition create_interaction step
race_same_event_example =
    race_same_event two a prepare k (lit "k2") draft keys_ne (Fresh-a k refl)
      (Fresh-a (lit "k2") refl)
