-- ===== src/Examples/Trail.antt =====
-- The audit trail on three events of two traces.
use career_coordination_mcp.Prelude.{
  ◌≡◌, ◌↔◌, ◌⊎◌, refl, Str, lit, str_eq, str_lt, true, List, [], ◌∷◌, ◌++◌,
}
use career_coordination_mcp.Prelude.StringMap.{find, assign}
use career_coordination_mcp.Storage.Audit.{
  AuditEvent, EventJson, genesis_hash, empty, select, query, verify_audit_chain, sealed_event,
  append_all,
}
use career_coordination_mcp.Storage.Audit.Chain.{Chained, verify_audit_chain_iff}
use career_coordination_mcp.Storage.Audit.Log.{append_all_verifies}
use career_coordination_mcp.Storage.Audit.Tamper.{contents, Collides, chain_is_sealed}

abbrev dump : EventJson → Str
dump json = json.event_id ++ lit "," ++ json.trace_id ++ lit "," ++ json.payload

abbrev event : Str → Str → AuditEvent
event id trace = record {
  event_id = id;
  trace_id = trace;
  event_type = lit "StateTransition";
  payload = lit "{}";
  created_at = lit "2026-01-01T00:00:00Z";
  refs = [];
  previous_hash = [];
  event_hash = [];
}

abbrev t : Str
t = lit "t"

abbrev first : AuditEvent
first = event (lit "1") t

abbrev other : AuditEvent
other = event (lit "2") (lit "u")

abbrev second : AuditEvent
second = event (lit "3") t

abbrev interleaved : List AuditEvent
interleaved = first ∷ other ∷ second ∷ []

abbrev in_turn : List AuditEvent
in_turn = other ∷ first ∷ second ∷ []

append_all_verifies_example :
    (verify_audit_chain dump (query (append_all dump empty interleaved) t)).valid ≡ true
append_all_verifies_example = append_all_verifies dump interleaved t refl

chain_is_sealed_example :
    (contents dump (query (append_all dump empty interleaved) t)
      ≡ contents dump (query (append_all dump empty in_turn) t))
    ⊎ Collides dump
        (query (append_all dump empty interleaved) t)
        (query (append_all dump empty in_turn) t)
unfolding append_all query select str_eq str_lt find assign
chain_is_sealed_example =
    chain_is_sealed dump (query (append_all dump empty interleaved) t)
      (query (append_all dump empty in_turn) t) (append_all_verifies dump interleaved t refl)
      (append_all_verifies dump in_turn t refl) refl refl

verify_audit_chain_iff_example :
    (((verify_audit_chain dump (first ∷ [])).valid ≡ true) ↔ Chained dump genesis_hash (first ∷ []))
    × ((verify_audit_chain dump (first ∷ [])).valid ≡ true
        → (verify_audit_chain dump (first ∷ [])).first_invalid_index ≡ 1)
verify_audit_chain_iff_example = verify_audit_chain_iff dump (first ∷ [])

abbrev sealed_first : AuditEvent
sealed_first = sealed_event dump first genesis_hash
