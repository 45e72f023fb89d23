-- ===== src/Storage/Audit/Chain.antt =====
-- What `verify_audit_chain` accepts, and where it stops.
use career_coordination_mcp.Prelude.{
  ℕ, ◌+◌, ◌≡◌, refl, ◌↔◌, inl, inr, Str, true, false, List, [], ◌∷◌, ◌++◌, length, str_eq,
  str_eq_iff, arith, Bool-cases,
}
use career_coordination_mcp.Storage.Audit.{
  AuditEvent, EventJson, genesis_hash, compute_event_hash, verify_from, verify_audit_chain,
}

-- The hash that the next event has to name.
abbrev pub last_of : Str → List AuditEvent → Str
last_of previous [] = previous
last_of previous (event ∷ events) = last_of event.event_hash events

module _ (dump : EventJson → Str) where
  -- `event` follows the hash `previous`, and carries the hash of its own content.
  pub record Follows (previous : Str) (event : AuditEvent) : Type 0 where
    pub linked : event.previous_hash ≡ previous
    pub sealed : event.event_hash ≡ compute_event_hash dump event event.previous_hash

  -- Each event follows the one before it, and the first follows `previous`.
  abbrev pub Chained : Str → List AuditEvent → Type 0
  Chained previous [] = Unit
  Chained previous (event ∷ events) = Follows previous event × Chained event.event_hash events

  Follows-cases : (previous : Str) (event : AuditEvent) → Dec (Follows previous event)
  Follows-cases previous event =
      let links = str_eq_iff event.previous_hash previous in
      let seals = str_eq_iff event.event_hash (compute_event_hash dump event event.previous_hash) in
      elim (Bool-cases (str_eq event.previous_hash previous)) [
        | inr p ↦ no (λ f. cc (p, links.1 f.linked))
        | inl p ↦
            elim (Bool-cases
              (str_eq event.event_hash (compute_event_hash dump event event.previous_hash))) [
                | inr q ↦ no (λ f. cc (q, seals.1 f.sealed))
                | inl q ↦ yes (record { linked = links.0 p; sealed = seals.0 q })
              ]
      ]

  module _ (event : AuditEvent) (events : List AuditEvent) (i : ℕ) (previous : Str) where
    goes_on :
        Follows previous event
        → verify_from dump (event ∷ events) i previous
          ≡ verify_from dump events (i + 1) event.event_hash
    unfolding verify_from
    goes_on f = rw (
      (str_eq_iff event.previous_hash previous).1 f.linked,
      (str_eq_iff event.event_hash (compute_event_hash dump event event.previous_hash)).1 f.sealed,
    )

    stops :
        ¬ Follows previous event
        → ((verify_from dump (event ∷ events) i previous).valid ≡ false)
          × ((verify_from dump (event ∷ events) i previous).first_invalid_index ≡ i)
    unfolding verify_from
    stops n =
        let links = str_eq_iff event.previous_hash previous in
        let seals =
          str_eq_iff event.event_hash (compute_event_hash dump event event.previous_hash) in
        elim (Bool-cases (str_eq event.previous_hash previous)) [
          | inr p ↦ rw p (refl, refl)
          | inl p ↦
              elim (Bool-cases
                (str_eq event.event_hash (compute_event_hash dump event event.previous_hash))) [
                  | inr q ↦ rw (p, q) (refl, refl)
                  | inl q ↦ absurd (n (record { linked = links.0 p; sealed = seals.0 q }))
                ]
        ]

  -- What the loop says of the events from an index on.
  verify_from_lem :
      (events : List AuditEvent) (i : ℕ) (previous : Str)
      → (((verify_from dump events i previous).valid ≡ true) ↔ Chained previous events)
        × ((verify_from dump events i previous).valid ≡ true
            → (verify_from dump events i previous).first_invalid_index ≡ i + length events)
  unfolding verify_from
  verify_from_lem [] i previous = (((λ _. tt), λ _. refl), λ _. omega arith)
  verify_from_lem (event ∷ events) i previous = elim (Follows-cases previous event) [
    | yes f ↦
        let (rest, index) = verify_from_lem events (i + 1) event.event_hash in
        rw (goes_on event events i previous f)
          (((λ h. (f, rest.0 h)), λ c. rest.1 c.1), λ h. omega (arith, index h))
    | no n ↦
        let stop = (stops event events i previous n).0 in
        (((λ h. cc (stop, h)), λ c. absurd (n c.0)), λ h. cc (stop, h))
  ]

  verify_audit_chain-verify_from :
      (events : List AuditEvent)
      → verify_audit_chain dump events ≡ verify_from dump events 0 genesis_hash
  unfolding verify_audit_chain
  verify_audit_chain-verify_from [] = refl
  verify_audit_chain-verify_from (event ∷ events) = refl

  -- `verify_audit_chain` accepts exactly the lists in which each event names the hash of the one
  -- before it, the first the genesis hash, and carries the hash of its own content; the index that it
  -- returns for such a list is the number of events.
  pub verify_audit_chain_iff :
      (events : List AuditEvent)
      → (((verify_audit_chain dump events).valid ≡ true) ↔ Chained genesis_hash events)
        × ((verify_audit_chain dump events).valid ≡ true
            → (verify_audit_chain dump events).first_invalid_index ≡ length events)
  verify_audit_chain_iff events =
      rw verify_audit_chain-verify_from
        (let (v, index) = verify_from_lem events 0 genesis_hash in (v, λ h. omega (arith, index h)))

  locates :
      (good : List AuditEvent) (bad : AuditEvent) (rest : List AuditEvent) (i : ℕ) (previous : Str)
      → Chained previous good
      → ¬ Follows (last_of previous good) bad
      → ((verify_from dump (good ++ bad ∷ rest) i previous).valid ≡ false)
        × ((verify_from dump (good ++ bad ∷ rest) i previous).first_invalid_index ≡ i + length good)
  unfolding verify_from
  locates [] bad rest i previous c n =
      let stop = stops bad rest i previous n in (stop.0, omega (arith, stop.1))
  locates (event ∷ good) bad rest i previous c n =
      rw (goes_on event (good ++ bad ∷ rest) i previous c.0) (
        let found = locates good bad rest (i + 1) event.event_hash c.1 n in
        (found.0, omega (arith, found.1)))

  -- The index that is reported for a list that is refused is that of its first bad event: behind a
  -- good chain, an event that does not follow it is found at the length of that chain, whatever
  -- comes after it.
  pub verify_audit_chain_locates :
      (good : List AuditEvent) (bad : AuditEvent) (rest : List AuditEvent)
      → Chained genesis_hash good
      → ¬ Follows (last_of genesis_hash good) bad
      → ((verify_audit_chain dump (good ++ bad ∷ rest)).valid ≡ false)
        × ((verify_audit_chain dump (good ++ bad ∷ rest)).first_invalid_index ≡ length good)
  verify_audit_chain_locates good bad rest c n =
      rw verify_audit_chain-verify_from
        (let found = locates good bad rest 0 genesis_hash c n in (found.0, omega (arith, found.1)))
