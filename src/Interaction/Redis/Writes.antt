-- ===== src/Interaction/Redis/Writes.antt =====
-- What the writes of the script leave at its two keys.
use career_coordination_mcp.Prelude.{
  ℕ, ◌≡◌, [], ◌∷◌, refl, ◌∙◌, Str, lit, true, false, ◌||◌, ◌&&◌, some, ◌++◌, if◌then◌else◌, str_eq,
  str_eq_iff, str_eq_refl, to_string, arith,
}
use career_coordination_mcp.Prelude.Decimal.{stoi-to_string}
use career_coordination_mcp.Interaction.Redis.{
  Redis, number, write_transition, state_key, receipt_key,
}

pub str_eq-append : (p s t : Str) → str_eq (p ++ s) (p ++ t) ≡ str_eq s t
unfolding str_eq
str_eq-append [] s t = refl
str_eq-append (x ∷ p) s t = ground (arith, str_eq-append p s t)

-- The state of an interaction and its receipts have different keys.
pub keys_apart : (id k : Str) → str_eq (state_key id) (receipt_key id k) ≡ false
unfolding str_eq
keys_apart id k =
    str_eq-append (lit "ccmcp:interaction:") (id ++ lit ":state") (id ++ (lit ":idem:" ++ k))
    ∙ str_eq-append id (lit ":state") (lit ":idem:" ++ k)
    ∙ differ k
  where
    differ : (k : Str) → str_eq (lit ":state") (lit ":idem:" ++ k) ≡ false
    differ k = refl

pub str_eq_sym : (s t : Str) → str_eq s t ≡ false → str_eq t s ≡ false
str_eq_sym s t h = ground (arith, str_eq_iff s t, str_eq_iff t s)

module _ (redis : Redis) (what : Str) where
  open redis use {Store, exists, hget, hset, exists-hset, hget-hset}

  -- A write keeps every key.
  pub exists_kept :
      (store : Store) (key field value j : Str)
      → exists store j ≡ true
      → exists (hset store key field value) j ≡ true
  exists_kept store key field value j h = exists-hset store key field value j ∙ ground (arith, h)

  pub number-hset :
      (store : Store) (key field : Str) (n : ℕ) (j f : Str)
      → number redis what (hset store key field (to_string n)) j f
        ≡ (if str_eq key j && str_eq field f then some n else number redis what store j f)
  unfolding number
  number-hset store key field n j f =
      ground (arith, hget-hset store key field (to_string n) j f, stoi-to_string n)

  module _ (store : Store) (sk ik : Str) (event n i : ℕ) (apart : str_eq sk ik ≡ false) where
    abbrev written : Store
    written = write_transition redis what store sk ik event n i

    pub written-state :
        (number redis what written sk (lit "state") ≡ some n)
        × (number redis what written sk (lit "transition_index") ≡ some i)
        × (number redis what written ik (lit "after_state") ≡ some n)
        × (number redis what written ik (lit "transition_index") ≡ some i)
    unfolding write_transition str_eq
    written-state =
        let other = str_eq_sym sk ik apart in
        simp (number-hset, str_eq_refl, other) (refl, refl, refl, refl)

  -- Both keys are there afterwards, and no key is lost.
  pub written_exists :
      (store : Store) (sk ik : Str) (event n i : ℕ) (j : Str)
      → exists (write_transition redis what store sk ik event n i) j
        ≡ (str_eq ik j || (str_eq sk j || exists store j))
  unfolding write_transition
  written_exists store sk ik event n i j = simp exists-hset (ground arith)

  -- The writes that create an interaction, at its key.
  module _ (base : Store) (key : Str) (n i : ℕ) (contact opportunity : Str) where
    abbrev pub created : Store
    created =
        hset
          (hset
            (hset (hset base key (lit "state") (to_string n)) key (lit "transition_index")
              (to_string i))
            key (lit "contact_id") contact)
          key (lit "opportunity_id") opportunity

    pub created_holds :
        (exists created key ≡ true)
        × (number redis what created key (lit "state") ≡ some n)
        × (number redis what created key (lit "transition_index") ≡ some i)
    unfolding number str_eq
    created_holds = simp (exists-hset, hget-hset, str_eq_refl, stoi-to_string) (refl, refl, refl)
