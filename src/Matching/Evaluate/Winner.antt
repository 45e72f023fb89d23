-- ===== src/Matching/Evaluate/Winner.antt =====
-- The inner loop of `evaluate` finds the best of the candidates.
use career_coordination_mcp.Prelude.{
  Str, ◌≡◌, refl, ◌∙◌, true, false, Option, none, some, List, [], ◌∷◌, map, All, inl, inr, arith,
  Bool-cases, str_lt, str_lt_irrefl, str_lt_trans, str_eq_refl,
}
use career_coordination_mcp.Prelude.StringMap.{StringMap}
use career_coordination_mcp.Prelude.StringSet.{contains}
use career_coordination_mcp.Prelude.StringSet.Intersection.{set_intersection}
use career_coordination_mcp.Core.Double.{Double}
use career_coordination_mcp.Domain.Atom.{ExperienceAtom}
use career_coordination_mcp.Matching.Candidates.{overlap}
use career_coordination_mcp.Matching.Evaluate.{
  Best, tokens_of, comes_first, improves, consider, best_of,
}

module _ (d : Double) (sets : StringMap (List Str)) (req_tokens : List Str) where
  open d use {Num, zero, lt, eq, lt_irrefl, lt_trans, eq_trans, lt_of_eq, lt_eq_of}

  -- The score of an atom for the requirement.
  abbrev pub score_of : Str → Num
  score_of id = overlap d req_tokens (tokens_of sets id)

  -- The best beats the atom: the atom has no greater score, and if it has an equal one then its
  -- identifier does not come before that of the best.
  pub record Beats (best : Best Num) (atom : ExperienceAtom) : Type 0 where
    pub no_greater : lt best.best_score (score_of atom.atom_id) ≡ false
    pub ties :
        eq (score_of atom.atom_id) best.best_score ≡ true
        → comes_first atom.atom_id best.best_atom_id ≡ false

  -- What is recorded of the best is true of it.
  abbrev pub IsScored : Best Num → List Str → Type 0
  IsScored best ids = elim (best.best_atom_id) [
    | none ↦ best.best_score ≡ zero
    | some id ↦
        (contains ids id ≡ true)
        × (best.best_score ≡ score_of id)
        × (best.best_evidence ≡ set_intersection req_tokens (tokens_of sets id))
  ]

  comes_first_trans :
      (x y : Str) (o : Option Str)
      → comes_first x o ≡ false
      → comes_first y o ≡ true
      → str_lt x y ≡ false
  comes_first_trans x y none h k = cc
  comes_first_trans x y (some z) h k = ground (arith, str_lt_trans x y z)

  consider_new :
      (best : Best Num) (atom : ExperienceAtom) → Beats (consider d sets req_tokens best atom) atom
  unfolding consider
  consider_new best atom =
      elim (Bool-cases (improves d best (score_of atom.atom_id) atom.atom_id)) [
        | inl h ↦ rw h (record {
          no_greater = lt_irrefl (score_of atom.atom_id);
          ties = λ _. str_lt_irrefl atom.atom_id;
        })
        | inr h ↦ rw h (record { no_greater = ground arith; ties = λ e. ground arith })
      ]

  consider-Beats :
      (best : Best Num) (atom other : ExperienceAtom)
      → Beats best other
      → Beats (consider d sets req_tokens best atom) other
  unfolding consider
  consider-Beats best atom other b =
      let mine = score_of atom.atom_id in
      let its = score_of other.atom_id in
      elim (Bool-cases (improves d best mine atom.atom_id)) [
        | inr h ↦ rw h b
        | inl h ↦ rw h (elim (Bool-cases (lt best.best_score mine)) [
          | inl greater ↦ record {
            no_greater = ground (arith, b.no_greater, lt_trans best.best_score mine its);
            ties = λ e. cc (b.no_greater, greater, lt_of_eq its mine best.best_score e);
          }
          | inr level ↦
              let equal : eq mine best.best_score ≡ true = ground arith in
              let first : comes_first atom.atom_id best.best_atom_id ≡ true = ground arith in
              record {
                no_greater = lt_eq_of mine best.best_score its equal ∙ b.no_greater;
                ties = λ e.
                    comes_first_trans other.atom_id atom.atom_id best.best_atom_id
                      (b.ties (eq_trans its mine best.best_score e equal)) first;
              }
        ])
      ]

  best_of_keeps :
      (best : Best Num) (atoms : List ExperienceAtom) (other : ExperienceAtom)
      → Beats best other
      → Beats (best_of d sets req_tokens best atoms) other
  unfolding best_of
  best_of_keeps best [] other b = b
  best_of_keeps best (atom ∷ atoms) other b =
      best_of_keeps (consider d sets req_tokens best atom) atoms other
        (consider-Beats best atom other b)

  pub best_of-Beats :
      (best : Best Num) (atoms : List ExperienceAtom)
      → All (Beats (best_of d sets req_tokens best atoms)) atoms
  unfolding best_of
  best_of-Beats best [] = tt
  best_of-Beats best (atom ∷ atoms) =
      let here = consider_new best atom in
      (
        best_of_keeps (consider d sets req_tokens best atom) atoms atom here,
        best_of-Beats (consider d sets req_tokens best atom) atoms,
      )

  consider-IsScored :
      (best : Best Num) (atom : ExperienceAtom) (ids : List Str)
      → contains ids atom.atom_id ≡ true
      → IsScored best ids
      → IsScored (consider d sets req_tokens best atom) ids
  unfolding consider
  consider-IsScored best atom ids m s =
      elim (Bool-cases (improves d best (score_of atom.atom_id) atom.atom_id)) [
        | inl h ↦ rw h (m, refl, refl)
        | inr h ↦ rw h s
      ]

  pub best_of-IsScored :
      (best : Best Num) (atoms : List ExperienceAtom) (ids : List Str)
      → ((z : Str) → contains (map (λ atom. atom.atom_id) atoms) z ≡ true → contains ids z ≡ true)
      → IsScored best ids
      → IsScored (best_of d sets req_tokens best atoms) ids
  unfolding best_of contains
  best_of-IsScored best [] ids m s = s
  best_of-IsScored best (atom ∷ atoms) ids m s =
      best_of-IsScored (consider d sets req_tokens best atom) atoms ids (λ z h. m z (ground arith))
        (consider-IsScored best atom ids (m atom.atom_id (rw str_eq_refl)) s)
