-- ===== src/App/Services/Events.antt =====
-- The types of the events of a trace, and what an emitted event adds.
use career_coordination_mcp.Prelude.{
  ◌≡◌, refl, ◌∙◌, Str, true, false, List, [], ◌∷◌, ◌++◌, map, if◌then◌else◌, str_eq, arith,
  append_assoc, Bool,
}
use career_coordination_mcp.Storage.Audit.{AuditEvent, AuditLog, EventJson, select, append}
use career_coordination_mcp.App.Services.{IdGenerator, Clock, Services, emit}

-- The types of the events of a trace, in order.
abbrev pub event_types : AuditLog → Str → List Str
event_types log trace_id = map (λ event. event.event_type) (select trace_id log.events)

pub types-append :
    (t : Str) (events : List AuditEvent) (event : AuditEvent)
    → map (λ e. e.event_type) (select t (events ++ event ∷ [])) ≡ (
        if str_eq event.trace_id t
        then map (λ e. e.event_type) (select t events) ++ event.event_type ∷ []
        else map (λ e. e.event_type) (select t events))
unfolding select
types-append t [] event = ground arith
types-append t (e ∷ events) event = ground (arith, types-append t events event)

two_events :
    (same : Bool) (before : List Str) (first second : Str)
    → (if same
        then (if same then before ++ first ∷ [] else before) ++ second ∷ []
        else if same
        then before ++ first ∷ []
        else before)
      ≡ (if same then before ++ first ∷ second ∷ [] else before)
two_events true before first second = append_assoc before (first ∷ []) (second ∷ [])
two_events false before first second = refl

module _ (dump : EventJson → Str) {Ids Time : Type 0} (id_gen : IdGenerator Ids)
    (clock : Clock Time) where
  pub event_types-emit :
      (services : Services Ids Time) (trace_id event_type payload : Str) (refs : List Str) (t : Str)
      → event_types (emit dump id_gen clock services trace_id event_type payload refs).audit_log t
        ≡ (if str_eq trace_id t
            then event_types services.audit_log t ++ event_type ∷ []
            else event_types services.audit_log t)
  unfolding emit append
  event_types-emit services trace_id event_type payload refs t =
      types-append t services.audit_log.events _

  pub event_types-emit_twice :
      (services : Services Ids Time) (trace_id first first_payload : Str) (first_refs : List Str)
      (second second_payload : Str) (second_refs : List Str) (t : Str)
      → event_types
          (emit dump id_gen clock
            (emit dump id_gen clock services trace_id first first_payload first_refs)
            trace_id
            second
            second_payload
            second_refs).audit_log
          t
        ≡ (if str_eq trace_id t
            then event_types services.audit_log t ++ first ∷ second ∷ []
            else event_types services.audit_log t)
  event_types-emit_twice services trace_id first first_payload first_refs second second_payload
        second_refs t =
      event_types-emit (emit dump id_gen clock services trace_id first first_payload first_refs)
        trace_id second second_payload second_refs t
      ∙ rw (event_types-emit services trace_id first first_payload first_refs t)
          (two_events (str_eq trace_id t) (event_types services.audit_log t) first second)
