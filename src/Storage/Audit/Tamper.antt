-- ===== src/Storage/Audit/Tamper.antt =====
-- A chain is sealed by the hash of its last event, up to a collision of SHA-256.
use career_coordination_mcp.Prelude.{
  ◌≡◌, ◌≢◌, refl, sym, ap, ap₂, ◌∙◌, ◌⊎◌, inl, inr, Str, List, [], ◌∷◌, ◌++◌, map, length,
  append_split, str_eq, str_eq_iff, Bool-cases, true, arith,
}
use career_coordination_mcp.Core.Sha256.{sha256_hex}
use career_coordination_mcp.Core.Sha256.Digest.{length-sha256_hex}
use career_coordination_mcp.Storage.Audit.{
  AuditEvent, EventJson, genesis_hash, compute_event_hash, verify_audit_chain,
}
use career_coordination_mcp.Storage.Audit.Chain.{Follows, Chained, last_of, verify_audit_chain_iff}

-- Two different texts with one digest.
abbrev pub Collision : Str → Str → Type 0
Collision a b = (a ≢ b) × (sha256_hex a ≡ sha256_hex b)

same_message : (a b : Str) → sha256_hex a ≡ sha256_hex b → (a ≡ b) ⊎ Collision a b
same_message a b h = elim (Bool-cases (str_eq a b)) [
  | inl e ↦ inl ((str_eq_iff a b).0 e)
  | inr e ↦ inr ((λ p. cc (e, (str_eq_iff a b).1 p)), h)
]

-- What is serialized of an event: all but the two hashes.
abbrev pub hashed : AuditEvent → EventJson
hashed event = record {
  event_id = event.event_id;
  trace_id = event.trace_id;
  event_type = event.event_type;
  payload = event.payload;
  created_at = event.created_at;
  refs = event.refs;
}

module _ (dump : EventJson → Str) where
  -- The serialized events.
  abbrev pub contents : List AuditEvent → List Str
  contents events = map (λ event. dump (hashed event)) events

  -- What is hashed of an event: its serialized content and the hash that it names.
  abbrev pub message : AuditEvent → Str
  message event = dump (hashed event) ++ event.previous_hash

  -- At some place of the two lists, what is hashed of the one event differs from what is hashed of the
  -- other, and has the same digest.
  abbrev pub Collides : List AuditEvent → List AuditEvent → Type 0
  Collides (x ∷ xs) (y ∷ ys) = Collision (message x) (message y) ⊎ Collides xs ys
  Collides [] ys = ⊥
  Collides (x ∷ xs) [] = ⊥

  length-event_hash :
      (previous : Str) (event : AuditEvent)
      → Follows dump previous event
      → length event.event_hash ≡ 64
  unfolding compute_event_hash
  length-event_hash previous event f = ap length f.sealed ∙ length-sha256_hex _

  step_back :
      (p q : Str) (x y : AuditEvent)
      → Follows dump p x
      → Follows dump q y
      → length p ≡ length q
      → x.event_hash ≡ y.event_hash
      → ((p ≡ q) × (dump (hashed x) ≡ dump (hashed y))) ⊎ Collision (message x) (message y)
  unfolding compute_event_hash
  step_back p q x y f g l h =
      let digests : sha256_hex (message x) ≡ sha256_hex (message y) = sym f.sealed ∙ h ∙ g.sealed in
      elim (same_message (message x) (message y) digests) [
        | inr collision ↦ inr collision
        | inl e ↦
            let lengths : length x.previous_hash ≡ length y.previous_hash =
              ap length f.linked ∙ l ∙ sym (ap length g.linked) in
            let parts =
              append_split (dump (hashed x)) x.previous_hash (dump (hashed y)) y.previous_hash e
                lengths in
            inl (sym f.linked ∙ parts.1 ∙ g.linked, parts.0)
      ]

  agree :
      (p q : Str) (xs ys : List AuditEvent)
      → Chained dump p xs
      → Chained dump q ys
      → length p ≡ length q
      → length xs ≡ length ys
      → last_of p xs ≡ last_of q ys
      → ((p ≡ q) × (contents xs ≡ contents ys)) ⊎ Collides xs ys
  agree p q [] [] c d l n h = inl (h, refl)
  agree p q [] (y ∷ ys) c d l n h = absurd (omega arith)
  agree p q (x ∷ xs) [] c d l n h = absurd (omega arith)
  agree p q (x ∷ xs) (y ∷ ys) c d l n h =
      elim (agree x.event_hash y.event_hash xs ys c.1 d.1
        (length-event_hash p x c.0 ∙ sym (length-event_hash q y d.0)) (omega arith) h) [
          | inr later ↦ inr (inr later)
          | inl (e, rest) ↦ elim (step_back p q x y c.0 d.0 l e) [
            | inr collision ↦ inr (inl collision)
            | inl (same, first) ↦ inl (same, ap₂ ◌∷◌ first rest)
          ]
        ]

  -- The trail is tamper-evident: two lists of equally many events that `verify_audit_chain` accepts
  -- and that end in the same hash have the same serialized contents (all fields but the hashes), event
  -- by event, or at some place the two events differ in what is hashed of them and yet have the same
  -- SHA-256 digest.
  pub chain_is_sealed :
      (xs ys : List AuditEvent)
      → (verify_audit_chain dump xs).valid ≡ true
      → (verify_audit_chain dump ys).valid ≡ true
      → length xs ≡ length ys
      → last_of genesis_hash xs ≡ last_of genesis_hash ys
      → (contents xs ≡ contents ys) ⊎ Collides xs ys
  chain_is_sealed xs ys v w n h =
      elim (agree genesis_hash genesis_hash xs ys ((verify_audit_chain_iff dump xs).0.0 v)
        ((verify_audit_chain_iff dump ys).0.0 w) refl n h) [
          | inr collision ↦ inr collision
          | inl (_, same) ↦ inl same
        ]
