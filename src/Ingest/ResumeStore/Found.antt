-- ===== src/Ingest/ResumeStore/Found.antt =====
-- What the store has after an upsert.
use career_coordination_mcp.Prelude.{
  ◌≡◌, refl, ap, sym, lit, Bool, not, ◌&&◌, Option, Str, true, false, none, some, [], ◌∷◌,
  if◌then◌else◌, str_eq, str_eq_iff, str_eq_refl, str_lt, arith, subst, str_lt_irrefl, str_lt_trans,
  Bool-cases, inl, inr,
}
use career_coordination_mcp.Prelude.Sorting.{any}
use career_coordination_mcp.Prelude.StringMap.{
  StringMap, find, assign, find-assign, Above, IsOrdered, assign-IsOrdered,
}
use career_coordination_mcp.Ingest.Resume.{IngestedResume}
use career_coordination_mcp.Ingest.ResumeStore.{
  created_at_or, stored, hash_taken, upsert, get, get_by_hash,
}

-- No hash occurs twice.
abbrev pub IsUnique : StringMap IngestedResume → Type 0
IsUnique [] = Unit
IsUnique ((id, row) ∷ rows) = (get_by_hash rows row.resume_hash ≡ none) × IsUnique rows

Above-trans :
    (id key : Str) (rows : StringMap IngestedResume)
    → str_lt id key ≡ true
    → Above key rows
    → Above id rows
Above-trans id key [] h a = tt
Above-trans id key ((next, row) ∷ rows) h a = str_lt_trans id key next h a

absent :
    (id : Str) (rows : StringMap IngestedResume)
    → Above id rows
    → IsOrdered rows
    → find rows id ≡ none
unfolding find
absent id [] a o = refl
absent id ((key, row) ∷ rows) a o = ground (
  arith,
  a,
  str_eq_iff key id,
  str_lt_irrefl key,
  absent id rows (Above-trans id key rows a o.0) o.1,
)

get_by_hash-assign_other :
    (rows : StringMap IngestedResume) (id h : Str) (v : IngestedResume)
    → get_by_hash rows h ≡ none
    → str_eq v.resume_hash h ≡ false
    → get_by_hash (assign rows id v) h ≡ none
unfolding get_by_hash assign
get_by_hash-assign_other [] id h v k n = rw n refl
get_by_hash-assign_other ((key, row) ∷ rows) id h v k n =
    ground (arith, k, n, get_by_hash-assign_other rows id h v (ground (arith, k)) n)

get_by_hash-assign :
    (rows : StringMap IngestedResume) (r : IngestedResume)
    → hash_taken rows r ≡ false
    → get_by_hash (assign rows r.resume_id (stored r)) r.resume_hash ≡ some (stored r)
unfolding get_by_hash assign hash_taken
get_by_hash-assign [] r h = rw str_eq_refl refl
get_by_hash-assign ((key, row) ∷ rows) r h =
    ground (arith, h, str_eq_refl r.resume_hash, get_by_hash-assign rows r (ground (arith, h)))

get_by_hash-free :
    (rows : StringMap IngestedResume) (r : IngestedResume)
    → hash_taken rows r ≡ false
    → find rows r.resume_id ≡ none
    → get_by_hash rows r.resume_hash ≡ none
unfolding get_by_hash hash_taken find
get_by_hash-free [] r h k = refl
get_by_hash-free ((key, row) ∷ rows) r h k =
    ground (arith, h, k, get_by_hash-free rows r (ground (arith, h)) (ground (arith, k)))

assign-IsUnique :
    (rows : StringMap IngestedResume) (r : IngestedResume)
    → hash_taken rows r ≡ false
    → IsOrdered rows
    → IsUnique rows
    → IsUnique (assign rows r.resume_id (stored r))
unfolding assign hash_taken find get_by_hash
assign-IsUnique [] r h o u = (refl, tt)
assign-IsUnique ((key, row) ∷ rows) r h o u = elim (Bool-cases (str_eq key r.resume_id)) [
  | inl same ↦ rw same (
    get_by_hash-free rows r (ground (arith, h, same)) (
        absent r.resume_id rows
          (subst (λ k. Above k rows) ((str_eq_iff key r.resume_id).0 same) o.0) o.1),
    u.1,
  )
  | inr other ↦ elim (Bool-cases (str_lt r.resume_id key)) [
    | inl before ↦
        rw (other, before)
          (
            get_by_hash-free ((key, row) ∷ rows) r h
                (absent r.resume_id ((key, row) ∷ rows) before o),
            u,
          )
    | inr behind ↦
        rw (other, behind)
          (
            get_by_hash-assign_other rows r.resume_id row.resume_hash (stored r) u.0 (
                ground (
                  arith,
                  h,
                  other,
                  str_eq_iff row.resume_hash r.resume_hash,
                  str_eq_iff r.resume_hash row.resume_hash,
                )),
            assign-IsUnique rows r (ground (arith, h)) o.1 u.1,
          )
  ]
]

-- A hash that is stored under another identifier is taken.
pub hash_taken_of_found :
    (rows : StringMap IngestedResume) (r old : IngestedResume)
    → find rows r.resume_id ≡ none
    → get_by_hash rows r.resume_hash ≡ some old
    → hash_taken rows r ≡ true
unfolding hash_taken find get_by_hash
hash_taken_of_found [] r old h k = cc k
hash_taken_of_found ((key, row) ∷ rows) r old h k =
    let rest : get_by_hash rows r.resume_hash ≡ some old → hash_taken rows r ≡ true =
      hash_taken_of_found rows r old (ground (arith, h)) in
    ground (arith, h, k, rest)

-- A row of another identifier has the hash of the resume.
abbrev pub elsewhere : StringMap IngestedResume → IngestedResume → Bool
elsewhere rows r =
    any (λ (id, row). str_eq row.resume_hash r.resume_hash && not (str_eq id r.resume_id)) rows

hash_taken_lem :
    (rows : StringMap IngestedResume) (r : IngestedResume) → hash_taken rows r ≡ elsewhere rows r
unfolding hash_taken
hash_taken_lem [] r = refl
hash_taken_lem ((id, row) ∷ rows) r = ground (arith, hash_taken_lem rows r)

-- What is found of a resume: all of it, with a text for its time where it has none.
abbrev time_found : Option Str → Str
time_found (some time) = time
time_found none = lit "CURRENT_TIMESTAMP"

abbrev pub found_as : IngestedResume → IngestedResume
found_as r = record {
  resume_id = r.resume_id;
  resume_md = r.resume_md;
  resume_hash = r.resume_hash;
  meta = r.meta;
  created_at = some (time_found r.created_at);
}

stored_lem : (r : IngestedResume) → stored r ≡ found_as r
stored_lem r = ap (λ time. record (found_as r) { created_at = some time }) (go r.created_at)
  where
    go : (time : Option Str) → created_at_or time ≡ time_found time
    go none = refl
    go (some time) = refl

-- An upsert keeps the store in order and its hashes unique. Where a row of another identifier has the
-- hash it leaves the store as it was; otherwise the resume is found by its identifier and by its hash,
-- every field of it, with its time or the text `CURRENT_TIMESTAMP` for none, and no other identifier
-- finds anything else.
pub upsert_lem :
    (rows : StringMap IngestedResume) (r : IngestedResume) (id : Str)
    → IsOrdered rows
    → IsUnique rows
    → IsOrdered (upsert rows r)
      × IsUnique (upsert rows r)
      × (if elsewhere rows r
          then upsert rows r ≡ rows
          else ((get_by_hash (upsert rows r) r.resume_hash ≡ some (found_as r))
              × (get (upsert rows r) id
                  ≡ (if str_eq r.resume_id id then some (found_as r) else get rows id))))
unfolding upsert get
upsert_lem rows r id o u =
    rw (sym (hash_taken_lem rows r), sym (stored_lem r))
      (elim (Bool-cases (hash_taken rows r)) [
        | inl taken ↦ rw taken (o, u, refl)
        | inr free ↦ rw free (
          assign-IsOrdered rows r.resume_id (stored r) o,
          assign-IsUnique rows r free o u,
          (get_by_hash-assign rows r free, find-assign rows r.resume_id id (stored r)),
        )
      ])
