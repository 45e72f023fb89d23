-- ===== src/Storage/Audit.antt =====
-- The audit trail (include/ccmcp/storage/audit_event.h, audit_log.h and audit_chain.h,
-- src/storage/audit_chain.cpp and audit_log.cpp). The JSON library is not part of the repository: its
-- serialization of the six fields that are hashed is the parameter `dump`, which throws on no text: the
-- texts are taken to be valid UTF-8.
pub mod Chain
pub mod Log
pub mod Tamper
use career_coordination_mcp.Prelude.{
  ℕ, zero, suc, ◌+◌, Str, lit, Bool, true, false, not, Option, none, some, List, [], ◌∷◌, ◌++◌, map,
  if◌then◌else◌, is_empty, length, str_eq, to_string,
}
use career_coordination_mcp.Prelude.StringMap.{StringMap, find, assign}
use career_coordination_mcp.Core.Sha256.{sha256_hex}

pub record AuditEvent : Type 0 where
  pub event_id : Str
  pub trace_id : Str
  pub event_type : Str
  pub payload : Str
  pub created_at : Str
  pub refs : List Str
  pub previous_hash : Str
  pub event_hash : Str

-- The object that is serialized: its fields in the order of their keys
pub record EventJson : Type 0 where
  pub created_at : Str
  pub event_id : Str
  pub event_type : Str
  pub payload : Str
  pub refs : List Str
  pub trace_id : Str

abbrev pub genesis_hash : Str
genesis_hash = lit "0000000000000000000000000000000000000000000000000000000000000000"

pub record ChainVerification : Type 0 where
  pub valid : Bool
  pub first_invalid_index : ℕ
  pub error : Str

pub record AuditLog : Type 0 where
  pub events : List AuditEvent
  pub last_hash : StringMap Str

abbrev pub empty : AuditLog
empty = record { events = []; last_hash = [] }

-- The loop of `query`
unfoldable pub select : Str → List AuditEvent → List AuditEvent
select trace_id [] = []
select trace_id (event ∷ events) =
    let rest = select trace_id events in
    if str_eq event.trace_id trace_id then event ∷ rest else rest

-- `query`: all events where no trace is named
unfoldable pub query : AuditLog → Str → List AuditEvent
unfolding select
query log trace_id = if is_empty trace_id then log.events else select trace_id log.events

-- `list_trace_ids`: the keys of `last_hash_`
unfoldable pub list_trace_ids : AuditLog → List Str
list_trace_ids log = map (λ entry. entry.0) log.last_hash

abbrev pub event_json : AuditEvent → EventJson
event_json event = record {
  created_at = event.created_at;
  event_id = event.event_id;
  event_type = event.event_type;
  payload = event.payload;
  refs = event.refs;
  trace_id = event.trace_id;
}

-- The hash that the next event of a trace will name: the first two lines of `append`
abbrev pub head_hash : AuditLog → Str → Str
head_hash log trace_id = elim (find log.last_hash trace_id) [
  | some hash ↦ hash
  | none ↦ genesis_hash
]

module _ (dump : EventJson → Str) where
  unfoldable pub compute_event_hash : AuditEvent → Str → Str
  compute_event_hash event previous_hash = sha256_hex (dump (event_json event) ++ previous_hash)

  -- The loop of `verify_audit_chain`, from the index `i` on
  unfoldable pub verify_from : List AuditEvent → ℕ → Str → ChainVerification
  unfolding compute_event_hash
  verify_from [] i expected_previous = record { valid = true; first_invalid_index = i; error = [] }
  verify_from (event ∷ events) i expected_previous =
      let rest = verify_from events (i + 1) event.event_hash in
      if not (str_eq event.previous_hash expected_previous)
      then (record {
        valid = false;
        first_invalid_index = i;
        error = lit "previous_hash mismatch at index " ++ to_string i;
      })
      else if not (str_eq event.event_hash (compute_event_hash event event.previous_hash))
      then (record {
        valid = false;
        first_invalid_index = i;
        error = lit "event_hash mismatch at index " ++ to_string i;
      })
      else rest

  unfoldable pub verify_audit_chain : List AuditEvent → ChainVerification
  unfolding verify_from
  verify_audit_chain [] = record { valid = true; first_invalid_index = 0; error = [] }
  verify_audit_chain (event ∷ events) = verify_from (event ∷ events) 0 genesis_hash

  -- The event that is stored: `event` with its two hashes
  abbrev pub sealed_event : AuditEvent → Str → AuditEvent
  sealed_event event prev = record event {
    previous_hash = prev;
    event_hash = compute_event_hash event prev;
  }

  -- `InMemoryAuditLog::append`
  unfoldable pub append : AuditLog → AuditEvent → AuditLog
  append log event =
      let stored = sealed_event event (head_hash log event.trace_id) in
      record {
        events = log.events ++ stored ∷ [];
        last_hash = assign log.last_hash event.trace_id stored.event_hash;
      }

  unfoldable pub append_all : AuditLog → List AuditEvent → AuditLog
  unfolding append
  append_all log [] = log
  append_all log (event ∷ events) = append_all (append log event) events
