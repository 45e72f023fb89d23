-- ===== src/Indexing/RunStore/Last.antt =====
-- How the writes change the last source hash of an artifact.
use career_coordination_mcp.Prelude.{
  ◌≡◌, refl, ◌∙◌, sym, ap, Str, Bool, true, false, not, Option, none, some, List, [], ◌∷◌, ◌&&◌,
  if◌then◌else◌, str_eq, str_eq_iff, str_eq_refl, str_lt_irrefl, str_lt_asymm, arith, Bool-cases,
  Option-cases, inl, inr, is_none,
}
use career_coordination_mcp.Prelude.StringMap.{StringMap, find, assign, find-assign}
use career_coordination_mcp.Indexing.Run.{IndexRun, IndexEntry}
use career_coordination_mcp.Indexing.RunStore.{
  RunStore, Query, upsert_run, upsert_entry, put_entry, is_entry_of, is_completed, run_fits, joined,
  earlier, better, best_row, hash_of, get_last_source_hash,
}

-- A run that is not there or not completed.
abbrev pub is_inactive : Option IndexRun → Bool
is_inactive none = true
is_inactive (some run) = not (is_completed run.status)

joined_inactive :
    (o : Option IndexRun) (q : Query) (e : IndexEntry) → is_inactive o ≡ true → joined o q e ≡ none
unfolding joined
joined_inactive none q e h = refl
joined_inactive (some run) q e h = ground (arith, h)

-- Runs that join alike give the same row.
best_row_same :
    (runs others : StringMap IndexRun) (q : Query)
    → ((e : IndexEntry) → joined (find others e.run_id) q e ≡ joined (find runs e.run_id) q e)
    → (best : Option (Option Str × Str)) (entries : List IndexEntry)
    → best_row others q best entries ≡ best_row runs q best entries
unfolding best_row
best_row_same runs others q same best [] = refl
best_row_same runs others q same best (e ∷ entries) = rw (same e) (
    best_row_same runs others q same (better best (joined (find runs e.run_id) q e) e.source_hash)
      entries)

-- A run that is not completed, and was not before, has no part in the last source hash.
pub last-upsert_run :
    (store : RunStore) (run : IndexRun) (q : Query)
    → is_inactive (find store.runs run.run_id) ≡ true
    → is_completed run.status ≡ false
    → get_last_source_hash (upsert_run store run) q ≡ get_last_source_hash store q
unfolding get_last_source_hash upsert_run
last-upsert_run store run q old new =
    ap hash_of
      (best_row_same store.runs (assign store.runs run.run_id run) q same none store.entries)
  where
    same :
        (e : IndexEntry)
        → joined (find (assign store.runs run.run_id run) e.run_id) q e
          ≡ joined (find store.runs e.run_id) q e
    same e = elim (Bool-cases (str_eq run.run_id e.run_id)) [
      | inr other ↦ rw (find-assign, other) refl
      | inl here ↦
          rw (find-assign, here)
            (joined_inactive (some run) q e (rw new refl)
              ∙ sym (
                  joined_inactive (find store.runs e.run_id) q e
                    (rw (← ((str_eq_iff run.run_id e.run_id).0 here)) old)))
    ]

best_row-put_entry :
    (runs : StringMap IndexRun) (q : Query) (entry : IndexEntry)
    → is_inactive (find runs entry.run_id) ≡ true
    → (best : Option (Option Str × Str)) (entries : List IndexEntry)
    → best_row runs q best (put_entry entries entry) ≡ best_row runs q best entries
unfolding best_row put_entry better
best_row-put_entry runs q entry h best [] =
    rw (joined_inactive (find runs entry.run_id) q entry h) refl
best_row-put_entry runs q entry h best (e ∷ entries) =
    elim (Bool-cases (is_entry_of entry.run_id entry.artifact_type entry.artifact_id e)) [
      | inr other ↦ rw other (
          best_row-put_entry runs q entry h
            (better best (joined (find runs e.run_id) q e) e.source_hash) entries)
      | inl here ↦
          let id : e.run_id ≡ entry.run_id =
            (str_eq_iff e.run_id entry.run_id).0 (ground (arith, here)) in
          rw
            (
              here,
              best_row,
              joined_inactive (find runs entry.run_id) q entry h,
              joined_inactive (find runs e.run_id) q e (rw id h),
            )
            refl
    ]

-- An entry of a run that is not completed has no part either.
pub last-upsert_entry :
    (store : RunStore) (entry : IndexEntry) (q : Query)
    → is_inactive (find store.runs entry.run_id) ≡ true
    → get_last_source_hash (upsert_entry store entry) q ≡ get_last_source_hash store q
unfolding get_last_source_hash upsert_entry
last-upsert_entry store entry q h = elim (Bool-cases (is_none (find store.runs entry.run_id))) [
  | inl absent ↦ rw absent refl
  | inr present ↦
      rw present (ap hash_of (best_row-put_entry store.runs q entry h none store.entries))
]

-- The hash that an artifact has in a run.
abbrev pub own : List IndexEntry → Str → Str → Str → Option Str
own [] run_id artifact_type artifact_id = none
own (e ∷ entries) run_id artifact_type artifact_id =
    if is_entry_of run_id artifact_type artifact_id e
    then some e.source_hash
    else own entries run_id artifact_type artifact_id

abbrev pub own_or : Option Str → Option Str → Option Str
own_or (some source_hash) rest = some source_hash
own_or none rest = rest

-- Every completed run was completed before a time.
abbrev pub AllBefore : StringMap IndexRun → Str → Type 0
AllBefore runs t =
    (id : Str) (run : IndexRun)
    → find runs id ≡ some run
    → is_completed run.status ≡ true
    → earlier run.completed_at (some t) ≡ true

abbrev IsOlder : Option (Option Str × Str) → Str → Type 0
IsOlder none t = Unit
IsOlder (some (time, source_hash)) t = earlier time (some t) ≡ true

earlier_asymm :
    (time : Option Str) (t : Str) → earlier time (some t) ≡ true → earlier (some t) time ≡ false
earlier_asymm none t h = refl
earlier_asymm (some s) t h = str_lt_asymm s t h

joined-some :
    (r : IndexRun) (q : Query) (e : IndexEntry) (time : Option Str)
    → joined (some r) q e ≡ some time
    → (r.completed_at ≡ time) × (is_completed r.status ≡ true)
unfolding joined
joined-some r q e time h = ground (arith, h)

module _ (runs : StringMap IndexRun) (run : IndexRun) (q : Query) (t : Str)
    (at_t : run.completed_at ≡ some t) (fits : run_fits q run ≡ true)
    (old : is_inactive (find runs run.run_id) ≡ true) (before : AllBefore runs t) where
  abbrev after : StringMap IndexRun
  after = assign runs run.run_id run

  joined-before :
      (e : IndexEntry) (time : Option Str)
      → joined (find runs e.run_id) q e ≡ some time
      → earlier time (some t) ≡ true
  unfolding joined
  joined-before e time h = elim (Option-cases (find runs e.run_id)) [
    | inl absent ↦ let no : none ≡ some time = rw absent at h in cc
    | inr (r, found) ↦
        let row = joined-some r q e time (rw found at h) in
        rw (← row.0) (before e.run_id r found row.1)
  ]

  joined_own :
      (e : IndexEntry)
      → joined (some run) q e ≡ (
          if str_eq e.artifact_type q.artifact_type && str_eq e.artifact_id q.artifact_id
          then some (some t)
          else none)
  unfolding joined
  joined_own e = ground (arith, at_t, fits)

  joined_new :
      (e : IndexEntry)
      → joined (find after e.run_id) q e ≡ (
          if is_entry_of run.run_id q.artifact_type q.artifact_id e
          then some (some t)
          else joined (find runs e.run_id) q e)
  unfolding joined
  joined_new e = elim (Bool-cases (str_eq run.run_id e.run_id)) [
    | inr other ↦
        let back : str_eq e.run_id run.run_id ≡ false =
          ground (arith, str_eq_iff run.run_id e.run_id, str_eq_iff e.run_id run.run_id) in
        rw (find-assign, other, back) refl
    | inl here ↦
        let id : e.run_id ≡ run.run_id = sym ((str_eq_iff run.run_id e.run_id).0 here) in
        let none_before : joined (find runs e.run_id) q e ≡ none =
          joined_inactive (find runs e.run_id) q e (rw id old) in
        let back : str_eq e.run_id run.run_id ≡ true = rw id (str_eq_refl run.run_id) in
        rw (find-assign, here, back, none_before) (joined_own e)
  ]

  keeps :
      (source_hash : Str) (e : IndexEntry)
      → better (some (some t, source_hash)) (joined (find after e.run_id) q e) e.source_hash
        ≡ some (some t, source_hash)
  unfolding better
  keeps source_hash e = elim (Bool-cases (is_entry_of run.run_id q.artifact_type q.artifact_id e)) [
    | inl mine ↦ rw (joined_new e, mine, str_lt_irrefl t) refl
    | inr other ↦ elim (Option-cases (joined (find runs e.run_id) q e)) [
      | inl no_row ↦ rw (joined_new e, other, no_row) refl
      | inr (time, row) ↦
          rw (joined_new e, other, row, earlier_asymm time t (joined-before e time row)) refl
    ]
  ]

  displaces :
      (best : Option (Option Str × Str)) (source_hash : Str)
      → IsOlder best t
      → better best (some (some t)) source_hash ≡ some (some t, source_hash)
  unfolding better
  displaces none source_hash h = refl
  displaces (some (time, best_hash)) source_hash h = rw h refl

  better-IsOlder :
      (best : Option (Option Str × Str)) (row : Option (Option Str)) (source_hash : Str)
      → ((time : Option Str) → row ≡ some time → earlier time (some t) ≡ true)
      → IsOlder best t
      → IsOlder (better best row source_hash) t
  unfolding better
  better-IsOlder best none source_hash g h = h
  better-IsOlder none (some time) source_hash g h = g time refl
  better-IsOlder (some (best_time, best_hash)) (some time) source_hash g h =
      elim (Bool-cases (earlier best_time time)) [
        | inl later ↦ rw (later, better) (g time refl)
        | inr not_later ↦ rw (not_later, better) h
      ]

  -- The rows after the run at `t` do not displace it.
  best_row-kept :
      (source_hash : Str) (entries : List IndexEntry)
      → best_row after q (some (some t, source_hash)) entries ≡ some (some t, source_hash)
  unfolding best_row better
  best_row-kept source_hash [] = refl
  best_row-kept source_hash (e ∷ entries) =
      rw (keeps source_hash e) (best_row-kept source_hash entries)

  best_row-completed :
      (best : Option (Option Str × Str)) (entries : List IndexEntry)
      → IsOlder best t
      → hash_of (best_row after q best entries)
        ≡ own_or
            (own entries run.run_id q.artifact_type q.artifact_id)
            (hash_of (best_row runs q best entries))
  unfolding best_row better
  best_row-completed best [] h = refl
  best_row-completed best (e ∷ entries) h =
      elim (Bool-cases (is_entry_of run.run_id q.artifact_type q.artifact_id e)) [
        | inl mine ↦
            rw (joined_new e, mine, displaces best e.source_hash h)
              (ap hash_of (best_row-kept e.source_hash entries))
        | inr other ↦
            rw (joined_new e, other)
              (best_row-completed (better best (joined (find runs e.run_id) q e) e.source_hash)
                entries
                (better-IsOlder best (joined (find runs e.run_id) q e) e.source_hash
                  (joined-before e) h))
      ]

-- The completion of a run at a time after all others: an artifact with an entry in the run has the hash
-- of that entry, and any other the hash that it had.
pub last-completed :
    (store : RunStore) (run : IndexRun) (q : Query) (t : Str)
    → run.completed_at ≡ some t
    → run_fits q run ≡ true
    → is_inactive (find store.runs run.run_id) ≡ true
    → AllBefore store.runs t
    → get_last_source_hash (upsert_run store run) q
      ≡ own_or
          (own store.entries run.run_id q.artifact_type q.artifact_id)
          (get_last_source_hash store q)
unfolding get_last_source_hash upsert_run
last-completed store run q t at_t fits old before =
    best_row-completed store.runs run q t at_t fits old before none store.entries tt
