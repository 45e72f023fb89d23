-- ===== src/App/Transition.antt =====
-- `run_interaction_transition` (src/app/app_service.cpp), over the in-memory coordinator.
pub mod Trail
use career_coordination_mcp.Prelude.{
  Str, lit, Bool, true, false, Option, none, some, List, [], ◌∷◌, ◌++◌, if◌then◌else◌, to_string,
}
use career_coordination_mcp.Domain.Interaction.{
  InteractionEvent, prepare, send, receive_reply, close,
}
use career_coordination_mcp.Interaction.Coordinator.{
  TransitionOutcome, applied, already_applied, conflict, not_found, invalid_transition,
  backend_error, TransitionResult, Coordinator, apply_transition,
}
use career_coordination_mcp.Storage.Audit.{EventJson}
use career_coordination_mcp.App.Services.{IdGenerator, Clock, Services, emit}

pub record InteractionTransitionRequest : Type 0 where
  pub interaction_id : Str
  pub event : InteractionEvent
  pub idempotency_key : Str
  pub trace_id : Option Str

abbrev event_name : InteractionEvent → Str
event_name prepare = lit "Prepare"
event_name send = lit "Send"
event_name receive_reply = lit "ReceiveReply"
event_name close = lit "Close"

abbrev outcome_str : TransitionOutcome → Str
outcome_str applied = lit "applied"
outcome_str already_applied = lit "already_applied"
outcome_str conflict = lit "conflict"
outcome_str not_found = lit "not_found"
outcome_str invalid_transition = lit "invalid_transition"
outcome_str backend_error = lit "backend_error"

abbrev pub is_success : TransitionOutcome → Bool
is_success applied = true
is_success already_applied = true
is_success _ = false

abbrev attempted_payload : InteractionTransitionRequest → Str
attempted_payload req =
    lit "{\"interaction_id\":\""
    ++ req.interaction_id
    ++ lit "\",\"event\":\""
    ++ event_name req.event
    ++ lit "\",\"idempotency_key\":\""
    ++ req.idempotency_key
    ++ lit "\"}"

abbrev result_payload : TransitionResult → Str
result_payload result =
    lit "{\"outcome\":\""
    ++ outcome_str result.outcome
    ++ lit "\",\"transition_index\":"
    ++ to_string result.transition_index
    ++ lit "}"

-- `req.trace_id.value_or(...)`
abbrev pub trace_or : Option Str → Str → Str
trace_or none fresh = fresh
trace_or (some trace_id) fresh = trace_id

abbrev pub done_type : Bool → Str
done_type success =
    if success then lit "InteractionTransitionCompleted" else lit "InteractionTransitionRejected"

module _ (dump : EventJson → Str) {Ids Time : Type 0} (id_gen : IdGenerator Ids)
    (clock : Clock Time) where
  -- The trace, the result, the coordinator and the services afterwards; an identifier is drawn for the
  -- trace even where the request names one
  unfoldable pub run_interaction_transition :
      InteractionTransitionRequest
      → Coordinator
      → Services Ids Time
      → Str × TransitionResult × Coordinator × Services Ids Time
  unfolding apply_transition emit
  run_interaction_transition req coordinator services =
      let (fresh, ids) = id_gen.next services.ids (lit "trace") in
      let trace_id = trace_or req.trace_id fresh in
      let attempted =
        emit dump id_gen clock (record services { ids = ids }) trace_id
          (lit "InteractionTransitionAttempted") (attempted_payload req)
          (req.interaction_id ∷ []) in
      let (moved, result) =
        apply_transition coordinator req.interaction_id req.event req.idempotency_key in
      let done =
        emit dump id_gen clock attempted trace_id (done_type (is_success result.outcome))
          (result_payload result) (req.interaction_id ∷ []) in
      (trace_id, result, moved, done)
