-- ===== src/App/Transition/Trail.antt =====
-- What a run of the transition pipeline leaves in the audit trail and in the coordinator.
use career_coordination_mcp.Prelude.{
  Option, none, some, ◌≡◌, ◌≢◌, refl, sym, Str, lit, [], ◌∷◌, ◌++◌, if◌then◌else◌, str_eq,
}
use career_coordination_mcp.Storage.Audit.{EventJson}
use career_coordination_mcp.Interaction.Coordinator.{
  TransitionOutcome, applied, already_applied, conflict, not_found, invalid_transition,
  backend_error, Coordinator, apply_transition,
}
use career_coordination_mcp.Interaction.Coordinator.Race.{not_applied_keeps}
use career_coordination_mcp.App.Services.{IdGenerator, Clock, Services}
use career_coordination_mcp.App.Services.Events.{event_types, event_types-emit_twice}
use career_coordination_mcp.App.Transition.{
  InteractionTransitionRequest, is_success, done_type, trace_or, run_interaction_transition,
}

-- The trace that a request names, or else the one that is drawn for it.
abbrev pub named_or : Option Str → Str → Str
named_or (some trace_id) drawn = trace_id
named_or none drawn = drawn

pub trace_or_lem : (named : Option Str) (drawn : Str) → trace_or named drawn ≡ named_or named drawn
trace_or_lem none drawn = refl
trace_or_lem (some trace_id) drawn = refl

-- The second event of a run, by what the coordinator answered.
abbrev pub second_event : TransitionOutcome → Str
second_event applied = lit "InteractionTransitionCompleted"
second_event already_applied = lit "InteractionTransitionCompleted"
second_event conflict = lit "InteractionTransitionRejected"
second_event not_found = lit "InteractionTransitionRejected"
second_event invalid_transition = lit "InteractionTransitionRejected"
second_event backend_error = lit "InteractionTransitionRejected"

done_type_lem :
    (outcome : TransitionOutcome) → done_type (is_success outcome) ≡ second_event outcome
done_type_lem applied = refl
done_type_lem already_applied = refl
done_type_lem conflict = refl
done_type_lem not_found = refl
done_type_lem invalid_transition = refl
done_type_lem backend_error = refl

module _ (dump : EventJson → Str) {Ids Time : Type 0} (id_gen : IdGenerator Ids)
    (clock : Clock Time) where
  -- A run returns what the coordinator answers and leaves the coordinator as that call does, as it was
  -- where the answer is not `applied`. Its trace is the one that the request names, or else one that
  -- is drawn. It adds two events to its own trace, `InteractionTransitionAttempted` and then
  -- `InteractionTransitionCompleted` for `applied` and `already_applied` or else
  -- `InteractionTransitionRejected`, and none to any other trace.
  pub transition_trail :
      (req : InteractionTransitionRequest) (coordinator : Coordinator)
      (services : Services Ids Time) (t : Str)
      → let (trace_id, result, moved, done) =
          run_interaction_transition dump id_gen clock req coordinator services in
        (trace_id ≡ named_or req.trace_id (id_gen.next services.ids (lit "trace")).0)
        × (apply_transition coordinator req.interaction_id req.event req.idempotency_key
            ≡ (moved, result))
        × (result.outcome ≢ applied → moved ≡ coordinator)
        × (event_types done.audit_log t ≡ (
            if str_eq trace_id t
            then event_types services.audit_log t
              ++ lit "InteractionTransitionAttempted" ∷ second_event result.outcome ∷ []
            else event_types services.audit_log t))
  unfolding run_interaction_transition
  transition_trail req coordinator services t =
      let (fresh, ids) = id_gen.next services.ids (lit "trace") in
      let trace_id = trace_or req.trace_id fresh in
      let start : Services Ids Time = record services { ids = ids } in
      (
        trace_or_lem req.trace_id fresh,
        refl,
        not_applied_keeps coordinator req.interaction_id req.event req.idempotency_key,
        rw
            (sym (
              done_type_lem
                (apply_transition coordinator req.interaction_id req.event
                  req.idempotency_key).1.outcome))
            (event_types-emit_twice dump id_gen clock start trace_id _ _ _ _ _ _ t),
      )
