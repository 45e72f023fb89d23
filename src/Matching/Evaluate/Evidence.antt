-- ===== src/Matching/Evaluate/Evidence.antt =====
-- What a requirement match says of the requirement and of the candidates.
use career_coordination_mcp.Prelude.{
  suc, Str, ◌≡◌, refl, ◌∙◌, sym, ap, subst, true, false, Option, none, some, List, [], ◌∷◌, map,
  is_empty, length, All, inl, inr, arith, Bool-cases, ◌⊎◌, ◌&&◌, str_eq, str_eq_iff,
}
use career_coordination_mcp.Prelude.StringMap.{StringMap, find, assign, find-assign}
use career_coordination_mcp.Prelude.StringSet.{
  contains, IsAscending, insert_all, insert_all-IsAscending,
}
use career_coordination_mcp.Prelude.StringSet.Intersection.{
  set_intersection, contains-set_intersection,
}
use career_coordination_mcp.Core.Double.{Double}
use career_coordination_mcp.Core.Normalization.{tokenize_ascii, default_min_length}
use career_coordination_mcp.Domain.Atom.{ExperienceAtom}
use career_coordination_mcp.Domain.Opportunity.{Requirement}
use career_coordination_mcp.Domain.MatchReport.{RequirementMatch}
use career_coordination_mcp.Matching.Tokens.{tokenize_field, atom_tokens, combine_token_sets}
use career_coordination_mcp.Matching.Candidates.{overlap}
use career_coordination_mcp.Matching.Evaluate.{
  Best, token_sets, tokens_of, best_of, no_best, record_match, match_requirement,
}
use career_coordination_mcp.Matching.Evaluate.Winner.{
  score_of, Beats, IsScored, best_of-Beats, best_of-IsScored,
}

tokenize_field-IsAscending : (text : Str) → IsAscending (tokenize_field text)
unfolding tokenize_field
tokenize_field-IsAscending text =
    insert_all-IsAscending [] (tokenize_ascii text default_min_length) tt

combine_token_sets-IsAscending : (a b c : List Str) → IsAscending (combine_token_sets a b c)
unfolding combine_token_sets
combine_token_sets-IsAscending a b c =
    insert_all-IsAscending (insert_all (insert_all [] a) b) c
      (insert_all-IsAscending (insert_all [] a) b (insert_all-IsAscending [] a tt))

atom_tokens-IsAscending : (atom : ExperienceAtom) → IsAscending (atom_tokens atom)
unfolding atom_tokens
atom_tokens-IsAscending atom =
    combine_token_sets-IsAscending (tokenize_field atom.claim) (tokenize_field atom.title) atom.tags

-- The atom is one of the list.
abbrev pub Among : ExperienceAtom → List ExperienceAtom → Type 0
Among atom [] = ⊥
Among atom (other ∷ atoms) = (other ≡ atom) ⊎ Among atom atoms

-- The tokens that the map has for an identifier are those of an atom with that identifier.
abbrev FromAtom : List ExperienceAtom → Str → Option (List Str) → Type 0
FromAtom atoms id found =
    (atom : ExperienceAtom) × Among atom atoms
    × (atom.atom_id ≡ id)
    × (found ≡ some (atom_tokens atom))

find-token_sets :
    (sets : StringMap (List Str)) (atoms : List ExperienceAtom) (id : Str)
    → FromAtom atoms id (find (token_sets sets atoms) id)
      ⊎ ((find (token_sets sets atoms) id ≡ find sets id)
          × (contains (map (λ atom. atom.atom_id) atoms) id ≡ false))
unfolding token_sets contains
find-token_sets sets [] id = inr (refl, refl)
find-token_sets sets (atom ∷ atoms) id =
    elim (find-token_sets (assign sets atom.atom_id (atom_tokens atom)) atoms id) [
      | inl (a, among, named, found) ↦ inl (a, inr among, named, found)
      | inr (kept, absent) ↦ elim (Bool-cases (str_eq atom.atom_id id)) [
        | inl same ↦ inl (
          atom,
          inl refl,
          (str_eq_iff atom.atom_id id).0 same,
          kept ∙ find-assign sets atom.atom_id id (atom_tokens atom) ∙ rw same,
        )
        | inr other ↦
            inr (
              kept ∙ find-assign sets atom.atom_id id (atom_tokens atom) ∙ rw other,
              rw other absent,
            )
      ]
    ]

-- Every candidate has its tokens in the map.
tokens_of-candidate :
    (atoms : List ExperienceAtom) (id : Str)
    → contains (map (λ atom. atom.atom_id) atoms) id ≡ true
    → (atom : ExperienceAtom) × Among atom atoms
      × (atom.atom_id ≡ id)
      × (tokens_of (token_sets [] atoms) id ≡ atom_tokens atom)
tokens_of-candidate atoms id m = elim (find-token_sets [] atoms id) [
  | inl (atom, among, named, found) ↦ (atom, among, named, rw (found, tokens_of))
  | inr (kept, absent) ↦ cc (m, absent)
]

module _ (d : Double) where
  open d use {Num, zero, of_nat, div, lt, zero_div, lt_irrefl}

  shares_token :
      (a b : List Str)
      → is_empty a ≡ false
      → lt zero (overlap d a b) ≡ true
      → is_empty (set_intersection a b) ≡ false
  shares_token a b filled positive = go (set_intersection a b) refl
    where
      nothing : (a : List Str) → is_empty a ≡ false → div (of_nat 0) (of_nat (length a)) ≡ zero
      nothing [] h = cc
      nothing (x ∷ xs) h = zero_div (suc (length xs)) (omega arith)

      go : (shared : List Str) → set_intersection a b ≡ shared → is_empty shared ≡ false
      go (x ∷ xs) e = refl
      go [] e =
          let none_shared : overlap d a b ≡ zero =
            ap (λ shared. div (of_nat (length shared)) (of_nat (length a))) e ∙ nothing a filled in
          cc (positive, none_shared, lt_irrefl zero)

  -- What a requirement match says where it is matched.
  pub record IsEvidenced (text : Str) (candidates : List ExperienceAtom) (rm : RequirementMatch Num)
      : Type 0 where
    pub atom : ExperienceAtom
    pub candidate : Among atom candidates
    pub contributes : rm.contributing_atom_id ≡ some atom.atom_id
    pub shown : is_empty rm.evidence_tokens ≡ false
    pub shared :
        (z : Str)
        → contains rm.evidence_tokens z
          ≡ (contains (tokenize_field text) z && contains (atom_tokens atom) z)

  record_match-IsEvidenced :
      (text : Str) (candidates : List ExperienceAtom) (best : Best Num)
      → is_empty (tokenize_field text) ≡ false
      → IsScored d
          (token_sets [] candidates)
          (tokenize_field text)
          best
          (map (λ atom. atom.atom_id) candidates)
      → (record_match d text best).matched ≡ true
      → IsEvidenced text candidates (record_match d text best)
  unfolding record_match
  record_match-IsEvidenced text candidates best filled scored matched =
      go best.best_atom_id refl (Bool-cases (lt zero best.best_score))
    where
      go :
          (found : Option Str)
          → best.best_atom_id ≡ found
          → (lt zero best.best_score ≡ true) ⊎ (lt zero best.best_score ≡ false)
          → IsEvidenced text candidates (record_match d text best)
      go none p positive = cc (let m : false ≡ true = rw (p, record_match) at matched in m)
      go (some id) p (inr q) = cc (let m : false ≡ true = rw (p, q, record_match) at matched in m)
      go (some id) p (inl q) =
          let wanted = tokenize_field text in
          let facts : (contains (map (λ atom. atom.atom_id) candidates) id ≡ true)
              × (best.best_score ≡ score_of d (token_sets [] candidates) wanted id)
              × (best.best_evidence
                  ≡ set_intersection wanted (tokens_of (token_sets [] candidates) id)) =
            rw p at scored in
          let (atom, among, named, tokens) = tokens_of-candidate candidates id facts.0 in
          let evidence : best.best_evidence ≡ set_intersection wanted (atom_tokens atom) =
            facts.2 ∙ ap (set_intersection wanted) tokens in
          let positive : lt zero (overlap d wanted (atom_tokens atom)) ≡ true =
            ap (λ ts. lt zero (overlap d wanted ts)) (sym tokens)
            ∙ ap (lt zero) (sym facts.1)
            ∙ q in
          rw (p, q, record_match)
            (record {
              atom = atom;
              candidate = among;
              contributes = ap some (sym named);
              shown = ap is_empty evidence ∙ shares_token wanted (atom_tokens atom) filled positive;
              shared = λ z.
                  ap (λ ts. contains ts z) evidence
                  ∙ contains-set_intersection wanted (atom_tokens atom) z
                      (tokenize_field-IsAscending text) (atom_tokens-IsAscending atom);
            })

  -- Where a requirement is matched, its contributing atom is a candidate, and its evidence tokens are
  -- exactly the tokens that the text of the requirement shares with the atom, at least one.
  pub matched_evidence :
      (candidates : List ExperienceAtom) (req : Requirement)
      → (match_requirement d candidates (token_sets [] candidates) req).matched ≡ true
      → IsEvidenced req.text candidates
          (match_requirement d candidates (token_sets [] candidates) req)
  unfolding match_requirement contains
  matched_evidence candidates req matched = elim (Bool-cases (is_empty (tokenize_field req.text))) [
    | inl empty ↦ cc (let m : false ≡ true = rw empty at matched in m)
    | inr filled ↦ rw filled (
        record_match-IsEvidenced req.text candidates _ filled
          (best_of-IsScored d (token_sets [] candidates) (tokenize_field req.text) (no_best d)
            candidates (map (λ atom. atom.atom_id) candidates) (λ z h. h) refl)
          (rw filled at matched))
  ]

  -- The best that a requirement match shows.
  abbrev pub best_shown : RequirementMatch Num → Best Num
  best_shown rm = record {
    best_score = rm.best_score;
    best_atom_id = rm.contributing_atom_id;
    best_evidence = rm.evidence_tokens;
  }

  record_match-best_shown :
      (text : Str) (best : Best Num)
      → (record_match d text best).matched ≡ true
      → best_shown (record_match d text best) ≡ best
  unfolding record_match
  record_match-best_shown text best matched =
      go best.best_atom_id refl (Bool-cases (lt zero best.best_score))
    where
      go :
          (found : Option Str)
          → best.best_atom_id ≡ found
          → (lt zero best.best_score ≡ true) ⊎ (lt zero best.best_score ≡ false)
          → best_shown (record_match d text best) ≡ best
      go none p positive = cc (let m : false ≡ true = rw (p, record_match) at matched in m)
      go (some id) p (inr q) = cc (let m : false ≡ true = rw (p, q, record_match) at matched in m)
      go (some id) p (inl q) = rw (p, q, record_match)

  -- Where a requirement is matched no candidate has a greater score than the match shows, and no
  -- candidate of an equal score has an identifier before that of the contributing atom.
  pub match_is_best :
      (candidates : List ExperienceAtom) (req : Requirement)
      → (match_requirement d candidates (token_sets [] candidates) req).matched ≡ true
      → let rm = match_requirement d candidates (token_sets [] candidates) req in
        All
          (Beats d (token_sets [] candidates) (tokenize_field req.text) (best_shown rm))
          candidates
  unfolding match_requirement
  match_is_best candidates req matched =
      let sets = token_sets [] candidates in
      let wanted = tokenize_field req.text in
      let best = best_of d sets wanted (no_best d) candidates in
      elim (Bool-cases (is_empty wanted)) [
        | inl empty ↦ cc (let m : false ≡ true = rw empty at matched in m)
        | inr filled ↦ rw filled (
            subst (λ b. All (Beats d sets wanted b) candidates)
              (sym (record_match-best_shown req.text best (rw filled at matched)))
              (best_of-Beats d sets wanted (no_best d) candidates))
      ]
