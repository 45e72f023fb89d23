-- ===== src/Tokenization/Inference/Partition.antt =====
-- Which tokens the stub of the inference tokenizer puts where.
use career_coordination_mcp.Prelude.{
  ◌≡◌, refl, ◌∙◌, ap, Str, Bool, true, false, not, List, [], ◌∷◌, ◌||◌, ◌&&◌, if◌then◌else◌, str_eq,
  str_eq_iff, arith, Bool-cases, inl, inr,
}
use career_coordination_mcp.Prelude.StringSet.{contains, insert, contains-insert}
use career_coordination_mcp.Core.Normalization.{tokenize_ascii}
use career_coordination_mcp.Tokenization.Known.{known_skills, known_domains, known_roles}
use career_coordination_mcp.Tokenization.Inference.{
  is_likely_skill, is_likely_domain, is_likely_role, Categories, classify, classify_all, categories,
}

abbrev pub is_skill : Str → Bool
is_skill z = contains known_skills z

abbrev pub is_domain : Str → Bool
is_domain z = not (contains known_skills z) && contains known_domains z

abbrev pub is_role : Str → Bool
is_role z =
    not (contains known_skills z) && (not (contains known_domains z) && contains known_roles z)

abbrev pub is_entity : Str → Bool
is_entity z =
    not (contains known_skills z)
    && (not (contains known_domains z) && not (contains known_roles z))

equal_texts :
    (belongs : Str → Bool) (t z : Str) → (str_eq t z && belongs t) ≡ (str_eq t z && belongs z)
equal_texts belongs t z = elim (Bool-cases (str_eq t z)) [
  | inl same ↦ rw same (ap belongs ((str_eq_iff t z).0 same))
  | inr differ ↦ rw differ refl
]

-- A text that goes into a set under a test.
inserted :
    (s : List Str) (t z : Str) (test : Bool)
    → contains (if test then insert s t else s) z ≡ (contains s z || (str_eq t z && test))
inserted s t z true = contains-insert s t z ∙ ground arith
inserted s t z false = ground arith

-- A text that goes into a set under a test of itself.
inserted_by :
    (s : List Str) (t z : Str) (belongs : Str → Bool)
    → contains (if belongs t then insert s t else s) z ≡ (contains s z || (str_eq t z && belongs z))
inserted_by s t z belongs =
    inserted s t z (belongs t) ∙ ap (λ b. contains s z || b) (equal_texts belongs t z)

-- A token goes to the first set whose test it passes.
sets_by :
    (skill domain role : Bool) (sets : Categories) (t : Str)
    → let after : Categories =
        if skill
        then record sets { skills = insert sets.skills t }
        else if domain
        then record sets { domains = insert sets.domains t }
        else if role
        then record sets { roles = insert sets.roles t }
        else record sets { entities = insert sets.entities t } in
      (after.skills ≡ (if skill then insert sets.skills t else sets.skills))
      × (after.domains ≡ (if not skill && domain then insert sets.domains t else sets.domains))
      × (after.roles
          ≡ (if not skill && (not domain && role) then insert sets.roles t else sets.roles))
      × (after.entities ≡ (
          if not skill && (not domain && not role) then insert sets.entities t else sets.entities))
sets_by true domain role sets t = (refl, refl, refl, refl)
sets_by false true role sets t = (refl, refl, refl, refl)
sets_by false false true sets t = (refl, refl, refl, refl)
sets_by false false false sets t = (refl, refl, refl, refl)

-- A set that takes the tokens with a property.
abbrev Takes : (Categories → List Str) → (Str → Bool) → Type 0
Takes field belongs =
    (sets : Categories) (t z : Str)
    → contains (field (classify sets t)) z ≡ (contains (field sets) z || (str_eq t z && belongs z))

Takes-skills : Takes (λ sets. sets.skills) is_skill
unfolding classify is_likely_skill is_likely_domain is_likely_role
Takes-skills sets t z =
    ap (λ s. contains s z)
      ((sets_by (is_likely_skill t) (is_likely_domain t) (is_likely_role t) sets t).0)
    ∙ inserted_by sets.skills t z is_skill

Takes-domains : Takes (λ sets. sets.domains) is_domain
unfolding classify is_likely_skill is_likely_domain is_likely_role
Takes-domains sets t z =
    ap (λ s. contains s z)
      ((sets_by (is_likely_skill t) (is_likely_domain t) (is_likely_role t) sets t).1)
    ∙ inserted_by sets.domains t z is_domain

Takes-roles : Takes (λ sets. sets.roles) is_role
unfolding classify is_likely_skill is_likely_domain is_likely_role
Takes-roles sets t z =
    ap (λ s. contains s z)
      ((sets_by (is_likely_skill t) (is_likely_domain t) (is_likely_role t) sets t).2)
    ∙ inserted_by sets.roles t z is_role

Takes-entities : Takes (λ sets. sets.entities) is_entity
unfolding classify is_likely_skill is_likely_domain is_likely_role
Takes-entities sets t z =
    ap (λ s. contains s z)
      ((sets_by (is_likely_skill t) (is_likely_domain t) (is_likely_role t) sets t).3)
    ∙ inserted_by sets.entities t z is_entity

or_and : (a b c p : Bool) → ((a || (b && p)) || (c && p)) ≡ (a || ((b || c) && p))
or_and true b c p = refl
or_and false true true p = ground arith
or_and false true false p = ground arith
or_and false false c p = refl

contains-classify_all :
    (field : Categories → List Str) (belongs : Str → Bool)
    → Takes field belongs
    → (sets : Categories) (tokens : List Str) (z : Str)
    → contains (field (classify_all sets tokens)) z
      ≡ (contains (field sets) z || (contains tokens z && belongs z))
unfolding classify_all contains
contains-classify_all field belongs takes sets [] z = ground arith
contains-classify_all field belongs takes sets (t ∷ tokens) z =
    contains-classify_all field belongs takes (classify sets t) tokens z
    ∙ ap (λ b. b || (contains tokens z && belongs z)) (takes sets t z)
    ∙ or_and (contains (field sets) z) (str_eq t z) (contains tokens z) (belongs z)

-- The four categories of a resume are a partition of its tokens: a token is a skill if it is one of
-- `known_skills`, else a domain if it is one of `known_domains`, else a role if it is one of
-- `known_roles`, and else an entity, and nothing but the tokens of the resume is in them. So `aws`,
-- which is among the skills, is no entity.
pub inferred_partition :
    (text z : Str)
    → let sets = categories text in
      let found = contains (tokenize_ascii text 2) z in
      (contains sets.skills z ≡ (found && is_skill z))
      × (contains sets.domains z ≡ (found && is_domain z))
      × (contains sets.roles z ≡ (found && is_role z))
      × (contains sets.entities z ≡ (found && is_entity z))
unfolding categories contains
inferred_partition text z =
    let none_yet : Categories = record { skills = []; domains = []; roles = []; entities = [] } in
    let tokens = tokenize_ascii text 2 in
    (
      contains-classify_all (λ sets. sets.skills) is_skill Takes-skills none_yet tokens z,
      contains-classify_all (λ sets. sets.domains) is_domain Takes-domains none_yet tokens z,
      contains-classify_all (λ sets. sets.roles) is_role Takes-roles none_yet tokens z,
      contains-classify_all (λ sets. sets.entities) is_entity Takes-entities none_yet tokens z,
    )
