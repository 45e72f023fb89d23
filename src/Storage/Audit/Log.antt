-- ===== src/Storage/Audit/Log.antt =====
-- The in-memory log keeps one hash chain for each trace.
use career_coordination_mcp.Prelude.{
  ◌≡◌, refl, sym, ap, ◌∙◌, subst, inl, inr, Str, true, false, List, [], ◌∷◌, ◌++◌, map, is_empty,
  if◌then◌else◌, str_eq, str_eq→eq, Bool-cases, append-nil, append_assoc, arith,
}
use mathlib.Core.List.{map-append}
use career_coordination_mcp.Prelude.StringMap.{find, find-assign}
use career_coordination_mcp.Storage.Audit.{
  AuditEvent, EventJson, event_json, genesis_hash, AuditLog, empty, select, query, head_hash,
  sealed_event, compute_event_hash, verify_audit_chain, append, append_all,
}
use career_coordination_mcp.Storage.Audit.Chain.{Follows, Chained, last_of, verify_audit_chain_iff}

select-append :
    (t : Str) (xs ys : List AuditEvent) → select t (xs ++ ys) ≡ select t xs ++ select t ys
unfolding select
select-append t [] ys = refl
select-append t (x ∷ xs) ys = ground (arith, select-append t xs ys)

select-cons :
    (t : Str) (event : AuditEvent) (events : List AuditEvent)
    → select t (event ∷ events)
      ≡ (if str_eq event.trace_id t then event ∷ select t events else select t events)
unfolding select
select-cons t event events = refl

module _ (dump : EventJson → Str) where
  Chained-snoc :
      (previous : Str) (xs : List AuditEvent) (event : AuditEvent)
      → Chained dump previous xs
      → Follows dump (last_of previous xs) event
      → Chained dump previous (xs ++ event ∷ [])
  Chained-snoc previous [] event c f = (f, tt)
  Chained-snoc previous (x ∷ xs) event c f = (c.0, Chained-snoc x.event_hash xs event c.1 f)

  last_of-snoc :
      (previous : Str) (xs : List AuditEvent) (event : AuditEvent)
      → last_of previous (xs ++ event ∷ []) ≡ event.event_hash
  last_of-snoc previous [] event = refl
  last_of-snoc previous (x ∷ xs) event = last_of-snoc x.event_hash xs event

  -- The events of the trace are a chain, and `last_hash` has its end.
  pub record IsChained (log : AuditLog) (t : Str) : Type 0 where
    pub chained : Chained dump genesis_hash (select t log.events)
    pub ends : head_hash log t ≡ last_of genesis_hash (select t log.events)

  module _ (log : AuditLog) (event : AuditEvent) (t : Str) where
    abbrev stored : AuditEvent
    stored = sealed_event dump event (head_hash log event.trace_id)

    -- An appended event comes last in its own trace and shows in no other.
    select-append-event : select t (append dump log event).events ≡ (
        if str_eq event.trace_id t then select t log.events ++ stored ∷ [] else select t log.events)
    unfolding append select
    select-append-event =
        select-append t log.events (stored ∷ []) ∙ elim (Bool-cases (str_eq event.trace_id t)) [
          | inl same ↦ rw same
          | inr other ↦ rw other (append-nil (select t log.events))
        ]

    head_hash-append :
        head_hash (append dump log event) t
        ≡ (if str_eq event.trace_id t then stored.event_hash else head_hash log t)
    unfolding append
    head_hash-append = ground (arith, find-assign log.last_hash event.trace_id t stored.event_hash)

    append_own :
        str_eq event.trace_id t ≡ true → IsChained log t → IsChained (append dump log event) t
    unfolding compute_event_hash
    append_own same h =
        let events : select t (append dump log event).events ≡ select t log.events ++ stored ∷ [] =
          select-append-event ∙ rw same in
        let follows : Follows dump (last_of genesis_hash (select t log.events)) stored = record {
          linked = ap (head_hash log) (str_eq→eq event.trace_id t same) ∙ h.ends;
          sealed = refl;
        } in
        record {
          chained =
              subst (Chained dump genesis_hash) (sym events)
                (Chained-snoc genesis_hash (select t log.events) stored h.chained follows);
          ends =
              head_hash-append
              ∙ rw same (
                  sym (last_of-snoc genesis_hash (select t log.events) stored)
                  ∙ ap (last_of genesis_hash) (sym events));
        }

    append_other :
        str_eq event.trace_id t ≡ false → IsChained log t → IsChained (append dump log event) t
    append_other other h =
        let events : select t (append dump log event).events ≡ select t log.events =
          select-append-event ∙ rw other in
        record {
          chained = subst (Chained dump genesis_hash) (sym events) h.chained;
          ends = head_hash-append ∙ rw other (h.ends ∙ ap (last_of genesis_hash) (sym events));
        }

    pub append-IsChained : IsChained log t → IsChained (append dump log event) t
    append-IsChained h = elim (Bool-cases (str_eq event.trace_id t)) [
      | inl same ↦ append_own same h
      | inr other ↦ append_other other h
    ]

  append_all-IsChained :
      (log : AuditLog) (events : List AuditEvent) (t : Str)
      → IsChained log t
      → IsChained (append_all dump log events) t
  unfolding append_all
  append_all-IsChained log [] t h = h
  append_all-IsChained log (event ∷ events) t h =
      append_all-IsChained (append dump log event) events t (append-IsChained log event t h)

  empty-IsChained : (t : Str) → IsChained empty t
  unfolding select find
  empty-IsChained t = record { chained = tt; ends = refl }

  -- Whatever is appended to an empty log, in whatever order the traces interleave, the events of each
  -- named trace verify as a chain.
  pub append_all_verifies :
      (events : List AuditEvent) (t : Str)
      → is_empty t ≡ false
      → (verify_audit_chain dump (query (append_all dump empty events) t)).valid ≡ true
  unfolding query
  append_all_verifies events t h = rw h (
      (verify_audit_chain_iff dump (select t (append_all dump empty events).events)).0.1
        (append_all-IsChained empty events t (empty-IsChained t)).chained)

  contents_of :
      (t : Str) (log : AuditLog) (events : List AuditEvent)
      → map event_json (select t (append_all dump log events).events)
        ≡ map event_json (select t log.events) ++ map event_json (select t events)
  unfolding append_all
  contents_of t log [] = unfold select in sym (append-nil _)
  contents_of t log (event ∷ events) =
      contents_of t (append dump log event) events ∙ elim (Bool-cases (str_eq event.trace_id t)) [
        | inl same ↦
            rw (select-append-event, select-cons, same, map-append)
              (append_assoc (map event_json (select t log.events))
                (map event_json (sealed_event dump event (head_hash log event.trace_id) ∷ []))
                (map event_json (select t events)))
        | inr other ↦ rw (select-append-event, select-cons, other)
      ]

  -- Nothing is lost and nothing is reordered: what a named trace holds is what was appended to it, in
  -- the order of the calls.
  pub query-append_all :
      (events : List AuditEvent) (t : Str)
      → is_empty t ≡ false
      → map event_json (query (append_all dump empty events) t) ≡ map event_json (select t events)
  unfolding query
  query-append_all events t h = rw h (contents_of t empty events)
