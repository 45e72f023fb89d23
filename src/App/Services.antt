-- ===== src/App/Services.antt =====
-- What the pipelines of the application service write to: the audit log, and the two generators that
-- they draw identifiers and times from (include/ccmcp/core/id_generator.h and clock.h).
pub mod Events
use career_coordination_mcp.Prelude.{Str, lit, List, []}
use career_coordination_mcp.Storage.Audit.{AuditLog, AuditEvent, EventJson, append, query}

pub record IdGenerator (Ids : Type 0) : Type 0 where
  pub next : Ids → Str → Str × Ids

pub record Clock (Time : Type 0) : Type 0 where
  pub now_iso8601 : Time → Str × Time

pub record Services (Ids Time : Type 0) : Type 0 where
  pub audit_log : AuditLog
  pub ids : Ids
  pub time : Time

unfoldable pub fetch_audit_trace : {Ids Time : Type 0} → Str → Services Ids Time → List AuditEvent
unfolding query
fetch_audit_trace trace_id services = query services.audit_log trace_id

module _ (dump : EventJson → Str) {Ids Time : Type 0} (id_gen : IdGenerator Ids)
    (clock : Clock Time) where
  -- `audit_log.append({id_gen.next("evt"), trace_id, event_type, payload, clock.now_iso8601(), refs})`
  unfoldable pub emit : Services Ids Time → Str → Str → Str → List Str → Services Ids Time
  unfolding append
  emit services trace_id event_type payload refs =
      let (event_id, ids) = id_gen.next services.ids (lit "evt") in
      let (created_at, time) = clock.now_iso8601 services.time in
      record {
        audit_log = append dump services.audit_log (record {
          event_id = event_id;
          trace_id = trace_id;
          event_type = event_type;
          payload = payload;
          created_at = created_at;
          refs = refs;
          previous_hash = [];
          event_hash = [];
        });
        ids = ids;
        time = time;
      }
