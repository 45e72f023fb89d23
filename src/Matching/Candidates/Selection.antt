-- ===== src/Matching/Candidates/Selection.antt =====
-- What `select_candidates` can select.
use career_coordination_mcp.Prelude.Sorting.{sort_by}
use career_coordination_mcp.Prelude.{
  ℕ, zero, suc, ◌+◌, ◌≤◌, map, length, take, arith, Str, ◌≡◌, refl, ◌∙◌, sym, ap, subst, Bool, true,
  false, Option, none, some, List, [], ◌∷◌, is_empty, All, inl, inr, Bool-cases, if◌then◌else◌,
  str_eq,
}
use career_coordination_mcp.Prelude.StringMap.{StringMap, find, assign, find-assign}
use career_coordination_mcp.Prelude.StringSet.{insert, insert_all}
use career_coordination_mcp.Core.Double.{Double}
use career_coordination_mcp.Domain.Atom.{ExperienceAtom, verify}
use career_coordination_mcp.Domain.Opportunity.{Opportunity}
use career_coordination_mcp.Matching.Tokens.{requirement_tokens}
use career_coordination_mcp.Matching.Candidates.{
  MatchingStrategy, deterministic_lexical_v01, hybrid_lexical_embedding_v02, HybridConfig,
  EmbeddingProvider, EmbeddingIndex, verified_atoms, atom_map, look_up_all, merge_candidates,
  select_candidates, lexical_ids, embedding_ids, scored_less, score_atoms,
}

module _ (P : ExperienceAtom → Type 0) where
  keep_if :
      (test : Bool) (atom : ExperienceAtom) (rest : List ExperienceAtom)
      → P atom
      → All P rest
      → All P (if test then atom ∷ rest else rest)
  keep_if true atom rest p h = (p, h)
  keep_if false atom rest p h = h

  keep_found :
      (found : Option ExperienceAtom) (rest : List ExperienceAtom)
      → ((atom : ExperienceAtom) → found ≡ some atom → P atom)
      → All P rest
      → All P (elim found [ none ↦ rest | some atom ↦ atom ∷ rest ])
  keep_found none rest p h = h
  keep_found (some atom) rest p h = (p atom refl, h)

  verified_atoms-All : (atoms : List ExperienceAtom) → All P atoms → All P (verified_atoms atoms)
  unfolding verified_atoms
  verified_atoms-All [] h = tt
  verified_atoms-All (atom ∷ atoms) h =
      keep_if (verify atom) atom (verified_atoms atoms) h.0 (verified_atoms-All atoms h.1)

  -- Every atom of the map has the property.
  abbrev Holds : StringMap ExperienceAtom → Type 0
  Holds m = (id : Str) (atom : ExperienceAtom) → find m id ≡ some atom → P atom

  assign-Holds :
      (m : StringMap ExperienceAtom) (id : Str) (atom : ExperienceAtom)
      → Holds m
      → P atom
      → Holds (assign m id atom)
  assign-Holds m id atom h p j other found = elim (Bool-cases (str_eq id j)) [
    | inl same ↦
        let e : some atom ≡ some other = sym (find-assign m id j atom ∙ rw same) ∙ found in
        subst P (ap (λ o. elim o [ none ↦ atom | some x ↦ x ]) e) p
    | inr differs ↦ h j other (sym (find-assign m id j atom ∙ rw differs) ∙ found)
  ]

  atom_map-Holds :
      (m : StringMap ExperienceAtom) (atoms : List ExperienceAtom)
      → Holds m
      → All P atoms
      → Holds (atom_map m atoms)
  unfolding atom_map
  atom_map-Holds m [] h all = h
  atom_map-Holds m (atom ∷ atoms) h all =
      atom_map-Holds (assign m atom.atom_id atom) atoms (assign-Holds m atom.atom_id atom h all.0)
        all.1

  look_up_all-All :
      (m : StringMap ExperienceAtom) (ids : List Str) → Holds m → All P (look_up_all m ids)
  unfolding look_up_all
  look_up_all-All m [] h = tt
  look_up_all-All m (id ∷ ids) h =
      keep_found (find m id) (look_up_all m ids) (h id) (look_up_all-All m ids h)

  -- Whatever holds of all atoms holds of all candidates: no strategy, and no answer of the vector
  -- index, selects an atom that was not given.
  pub select_candidates-All :
      (d : Double) {Float : Type 0} (strategy : MatchingStrategy) (config : HybridConfig)
      (opportunity : Opportunity) (atoms : List ExperienceAtom)
      (provider : Option (EmbeddingProvider Float)) (index : Option (EmbeddingIndex Float d.Num))
      → All P atoms
      → All P (select_candidates d strategy config opportunity atoms provider index).0
  unfolding select_candidates merge_candidates find
  select_candidates-All d deterministic_lexical_v01 config opportunity atoms provider index h =
      verified_atoms-All atoms h
  select_candidates-All d hybrid_lexical_embedding_v02 config opportunity atoms provider index h =
      let query_tokens = insert_all [] (requirement_tokens opportunity.requirements) in
      elim (Bool-cases (is_empty query_tokens)) [
        | inl empty ↦ rw empty (verified_atoms-All atoms h)
        | inr filled ↦ rw filled (
            look_up_all-All (atom_map [] atoms) _ (atom_map-Holds [] atoms (λ id atom found. cc) h))
      ]

length-insert : (s : List Str) (x : Str) → length (insert s x) ≤ length s + 1
unfolding insert
length-insert [] x = omega arith
length-insert (y ∷ ys) x = ground (arith, length-insert ys x)

length-insert_all : (s xs : List Str) → length (insert_all s xs) ≤ length s + length xs
unfolding insert_all
length-insert_all s [] = omega arith
length-insert_all s (x ∷ xs) = omega (arith, length-insert_all (insert s x) xs, length-insert s x)

length-take : {A : Type 0} (n : ℕ) (xs : List A) → length (take n xs) ≤ n
length-take zero xs = omega arith
length-take (suc n) [] = omega arith
length-take (suc n) (x ∷ xs) = omega (arith, length-take n xs)

length-map : {A B : Type 0} (f : A → B) (xs : List A) → length (map f xs) ≡ length xs
length-map f [] = refl
length-map f (x ∷ xs) = ap suc (length-map f xs)

length-look_up_all :
    (m : StringMap ExperienceAtom) (ids : List Str) → length (look_up_all m ids) ≤ length ids
unfolding look_up_all
length-look_up_all m [] = omega arith
length-look_up_all m (id ∷ ids) = go (find m id) (look_up_all m ids) (length-look_up_all m ids)
  where
    go :
        (found : Option ExperienceAtom) (rest : List ExperienceAtom)
        → length rest ≤ length ids
        → length (elim found [ none ↦ rest | some atom ↦ atom ∷ rest ]) ≤ suc (length ids)
    go none rest h = omega arith
    go (some atom) rest h = omega arith

module _ (d : Double) {Float : Type 0} where
  -- The hybrid strategy, where the requirements have a token, selects at most `merged_candidates`
  -- atoms; these are at most as many as the two stages found, and the lexical stage found at most
  -- `k_lexical`.
  pub hybrid_bounds :
      (config : HybridConfig) (opportunity : Opportunity) (atoms : List ExperienceAtom)
      (provider : Option (EmbeddingProvider Float)) (index : Option (EmbeddingIndex Float d.Num))
      → is_empty (insert_all [] (requirement_tokens opportunity.requirements)) ≡ false
      → let (candidates, stats) =
          select_candidates d hybrid_lexical_embedding_v02 config opportunity atoms provider
            index in
        (length candidates ≤ stats.merged_candidates)
        × (stats.merged_candidates ≤ stats.lexical_candidates + stats.embedding_candidates)
        × (stats.lexical_candidates ≤ config.k_lexical)
  unfolding select_candidates merge_candidates lexical_ids
  hybrid_bounds config opportunity atoms provider index filled =
      let query_tokens = insert_all [] (requirement_tokens opportunity.requirements) in
      let by_words = lexical_ids d config query_tokens atoms in
      let by_vectors = embedding_ids d config opportunity provider index in
      let best =
        take config.k_lexical (sort_by (scored_less d) (score_atoms d query_tokens atoms)) in
      rw filled (
        length-look_up_all (atom_map [] atoms) (insert_all (insert_all [] by_words) by_vectors),
        omega (
          arith,
          length-insert_all (insert_all [] by_words) by_vectors,
          length-insert_all [] by_words,
        ),
        omega (
          arith,
          length-insert_all [] (map (λ scored. scored.atom.atom_id) best),
          length-map (λ scored. scored.atom.atom_id) best,
          length-take config.k_lexical (sort_by (scored_less d) (score_atoms d query_tokens atoms)),
        ),
      )
