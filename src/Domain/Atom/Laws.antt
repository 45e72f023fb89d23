-- ===== src/Domain/Atom/Laws.antt =====
-- Which atoms are valid, and that normalization makes atoms valid and does so at once.
use career_coordination_mcp.Prelude.{
  ℕ, ◌≡◌, refl, sym, ap, ap₂, ◌∙◌, ◌↔◌, Str, true, false, ◌&&◌, List, [], ◌∷◌, is_empty, All,
  str_eq_iff, strs_eq_iff, arith, Bool-cases, inl, inr,
}
use career_coordination_mcp.Core.Result.{ok}
use career_coordination_mcp.Core.Normalization.{
  is_upper, lower_byte, normalize_ascii_lower, normalize_tags, trim, is_space,
}
use career_coordination_mcp.Core.Normalization.Tags.{
  IsNormalized, normalize_tags-IsNormalized, normalize_tags_of_IsNormalized, normalize_tags_lem,
}
use career_coordination_mcp.Core.Normalization.Trim.{
  FrontTrimmed, BackTrimmed, trim-IsTrimmed, trim_of_IsTrimmed, trim-trim,
}
use career_coordination_mcp.Domain.Atom.{ExperienceAtom, validate, trim_refs, normalize_atom}

-- No upper case letter.
abbrev pub IsLower : Str → Type 0
IsLower s = All (λ (c : ℕ). is_upper c ≡ false) s

lower_byte_lem : (c : ℕ) → (lower_byte c ≡ c) ↔ (is_upper c ≡ false)
unfolding lower_byte
lower_byte_lem c = ((λ h. ground arith), λ h. ground arith)

normalize_ascii_lower_lem : (s : Str) → (normalize_ascii_lower s ≡ s) ↔ IsLower s
unfolding normalize_ascii_lower
normalize_ascii_lower_lem [] = ((λ _. tt), λ _. refl)
normalize_ascii_lower_lem (c ∷ s) = (
  (λ h. ((lower_byte_lem c).0 (cc h), (normalize_ascii_lower_lem s).0 (cc h))),
  λ h. cc ((lower_byte_lem c).1 h.0, (normalize_ascii_lower_lem s).1 h.1),
)

lower_byte-lower : (c : ℕ) → is_upper (lower_byte c) ≡ false
unfolding lower_byte
lower_byte-lower c = ground arith

normalize_ascii_lower-IsLower : (s : Str) → IsLower (normalize_ascii_lower s)
unfolding normalize_ascii_lower
normalize_ascii_lower-IsLower [] = tt
normalize_ascii_lower-IsLower (c ∷ s) = (lower_byte-lower c, normalize_ascii_lower-IsLower s)

-- What `validate` asks of an atom.
pub record IsValid (atom : ExperienceAtom) : Type 0 where
  pub named : is_empty atom.atom_id ≡ false
  pub claims : is_empty atom.claim ≡ false
  pub normalized : IsNormalized atom.tags
  pub lower : IsLower atom.domain

validate_tests :
    (atom : ExperienceAtom)
    → (validate atom ≡ ok true) ↔ (
        (is_empty atom.atom_id ≡ false)
        × (is_empty atom.claim ≡ false)
        × (atom.tags ≡ normalize_tags atom.tags)
        × (atom.domain ≡ normalize_ascii_lower atom.domain))
unfolding validate
validate_tests atom =
    let t = strs_eq_iff atom.tags (normalize_tags atom.tags) in
    let d = str_eq_iff atom.domain (normalize_ascii_lower atom.domain) in
    ((λ h. ground (arith, t, d)), λ h. ground (arith, t, d))

-- An atom passes `validate` exactly when it has an identifier and a claim, its tags are normalized
-- and its domain has no upper case letter.
pub validate_iff : (atom : ExperienceAtom) → (validate atom ≡ ok true) ↔ IsValid atom
validate_iff atom = (
  (λ h.
      let t = (validate_tests atom).0 h in
      record {
        named = t.0;
        claims = t.1;
        normalized = (normalize_tags_lem atom.tags).1.0 (sym t.2);
        lower = (normalize_ascii_lower_lem atom.domain).0 (sym t.3);
      }),
  λ v. (validate_tests atom).1 (
    v.named,
    v.claims,
    sym (normalize_tags_of_IsNormalized atom.tags v.normalized),
    sym ((normalize_ascii_lower_lem atom.domain).1 v.lower),
  ),
)

-- A normalized atom is valid exactly when it has an identifier and a claim that is not blank.
pub validate-normalize_atom :
    (atom : ExperienceAtom)
    → (validate (normalize_atom atom) ≡ ok true)
      ↔ ((is_empty atom.atom_id ≡ false) × (is_empty (trim atom.claim) ≡ false))
unfolding normalize_atom
validate-normalize_atom atom = (
  (λ h. let v = (validate_iff (normalize_atom atom)).0 h in (v.named, v.claims)),
  λ h. (validate_iff (normalize_atom atom)).1 (record {
    named = h.0;
    claims = h.1;
    normalized = normalize_tags-IsNormalized atom.tags;
    lower = normalize_ascii_lower-IsLower (trim atom.domain);
  }),
)

trim_refs-trim_refs : (refs : List Str) → trim_refs (trim_refs refs) ≡ trim_refs refs
unfolding trim_refs
trim_refs-trim_refs [] = refl
trim_refs-trim_refs (ref ∷ refs) = elim (Bool-cases (is_empty (trim ref))) [
  | inl p ↦ rw (p, trim_refs) (trim_refs-trim_refs refs)
  | inr p ↦ rw (p, trim_refs) (rw (trim-trim, p) (ap (◌∷◌ (trim ref)) (trim_refs-trim_refs refs)))
]

is_space-lower_byte : (c : ℕ) → is_space (lower_byte c) ≡ is_space c
unfolding lower_byte
is_space-lower_byte c = ground arith

is_empty-lower : (s : Str) → is_empty (normalize_ascii_lower s) ≡ is_empty s
unfolding normalize_ascii_lower
is_empty-lower [] = refl
is_empty-lower (c ∷ s) = refl

lower-FrontTrimmed : (s : Str) → FrontTrimmed s → FrontTrimmed (normalize_ascii_lower s)
unfolding normalize_ascii_lower
lower-FrontTrimmed [] h = tt
lower-FrontTrimmed (c ∷ s) h = rw is_space-lower_byte h

lower-BackTrimmed : (s : Str) → BackTrimmed s → BackTrimmed (normalize_ascii_lower s)
unfolding normalize_ascii_lower
lower-BackTrimmed [] h = tt
lower-BackTrimmed (c ∷ s) h =
    (ap₂ ◌&&◌ (is_empty-lower s) (is_space-lower_byte c) ∙ h.0, lower-BackTrimmed s h.1)

lower-lower : (s : Str) → normalize_ascii_lower (normalize_ascii_lower s) ≡ normalize_ascii_lower s
lower-lower s =
    (normalize_ascii_lower_lem (normalize_ascii_lower s)).1 (normalize_ascii_lower-IsLower s)

domain_stable :
    (s : Str)
    → normalize_ascii_lower (trim (normalize_ascii_lower (trim s))) ≡ normalize_ascii_lower (trim s)
domain_stable s =
    let t = trim-IsTrimmed s in
    ap normalize_ascii_lower (
      trim_of_IsTrimmed (normalize_ascii_lower (trim s)) (record {
        front = lower-FrontTrimmed (trim s) t.front;
        back = lower-BackTrimmed (trim s) t.back;
      }))
    ∙ lower-lower (trim s)

-- Normalizing an atom twice is normalizing it once; the identifier and the flag stay as they are.
pub normalize_atom_idempotent :
    (atom : ExperienceAtom)
    → (normalize_atom (normalize_atom atom) ≡ normalize_atom atom)
      × ((normalize_atom atom).atom_id ≡ atom.atom_id)
      × ((normalize_atom atom).verified ≡ atom.verified)
unfolding normalize_atom
normalize_atom_idempotent atom = (
  cc (
    domain_stable atom.domain,
    trim-trim atom.title,
    trim-trim atom.claim,
    normalize_tags_of_IsNormalized (normalize_tags atom.tags)
        (normalize_tags-IsNormalized atom.tags),
    trim_refs-trim_refs atom.evidence_refs,
  ),
  refl,
  refl,
)
