-- ===== src/Indexing/RunStore/Sound.antt =====
-- An invariant of the store of runs: run identifiers are new, and entries belong to runs.
use career_coordination_mcp.Prelude.{
  ℕ, ◌+◌, ◌<◌, ◌≤◌, ◌≡◌, ◌≢◌, refl, Str, lit, true, false, none, List, [], ◌∷◌, str_eq, str_eq_iff,
  is_none, All, arith, Bool-cases, inl, inr, to_string, append_cancel_left,
}
use career_coordination_mcp.Prelude.Decimal.{stoi-to_string}
use career_coordination_mcp.Prelude.StringMap.{
  StringMap, find, assign, find-assign, is_none-find-assign,
}
use career_coordination_mcp.Indexing.Run.{IndexRun, IndexEntry}
use career_coordination_mcp.Indexing.RunStore.{
  RunStore, next_index_run_id, upsert_run, upsert_entry, put_entry, is_entry_of, run_id_of,
}
use career_coordination_mcp.Indexing.RunStore.Last.{own}

run_id_of-injective : (m n : ℕ) → run_id_of m ≡ run_id_of n → m ≡ n
run_id_of-injective m n h =
    let texts : to_string m ≡ to_string n =
      append_cancel_left (lit "run-") (to_string m) (to_string n) h in
    cc (stoi-to_string m, stoi-to_string n, texts)

-- The run identifiers that the counter has not reached are free, and every entry belongs to a run.
pub record IsSound (store : RunStore) : Type 0 where
  pub fresh : (n : ℕ) → store.counter < n → find store.runs (run_id_of n) ≡ none
  pub keyed : All (λ e. is_none (find store.runs e.run_id) ≡ false) store.entries

pub own_absent :
    (runs : StringMap IndexRun) (entries : List IndexEntry) (run_id artifact_type artifact_id : Str)
    → find runs run_id ≡ none
    → All (λ e. is_none (find runs e.run_id) ≡ false) entries
    → own entries run_id artifact_type artifact_id ≡ none
own_absent runs [] run_id artifact_type artifact_id h k = refl
own_absent runs (e ∷ entries) run_id artifact_type artifact_id h k =
    elim (Bool-cases (str_eq e.run_id run_id)) [
      | inr other ↦ rw other (own_absent runs entries run_id artifact_type artifact_id h k.1)
      | inl same ↦
          let absent : is_none (find runs e.run_id) ≡ true =
            rw ((str_eq_iff e.run_id run_id).0 same, h) refl in
          cc (absent, k.0)
    ]

keyed-assign :
    (runs : StringMap IndexRun) (id : Str) (run : IndexRun) (entries : List IndexEntry)
    → All (λ e. is_none (find runs e.run_id) ≡ false) entries
    → All (λ e. is_none (find (assign runs id run) e.run_id) ≡ false) entries
keyed-assign runs id run [] h = tt
keyed-assign runs id run (e ∷ entries) h =
    (is_none-find-assign runs id e.run_id run h.0, keyed-assign runs id run entries h.1)

keyed-put_entry :
    (runs : StringMap IndexRun) (entry : IndexEntry) (entries : List IndexEntry)
    → is_none (find runs entry.run_id) ≡ false
    → All (λ e. is_none (find runs e.run_id) ≡ false) entries
    → All (λ e. is_none (find runs e.run_id) ≡ false) (put_entry entries entry)
unfolding put_entry
keyed-put_entry runs entry [] p h = (p, tt)
keyed-put_entry runs entry (e ∷ entries) p h =
    elim (Bool-cases (is_entry_of entry.run_id entry.artifact_type entry.artifact_id e)) [
      | inl here ↦ rw here (p, h.1)
      | inr other ↦ rw other (h.0, keyed-put_entry runs entry entries p h.1)
    ]

pub next_index_run_id-IsSound :
    (store : RunStore) → IsSound store → IsSound (next_index_run_id store).1
unfolding next_index_run_id
next_index_run_id-IsSound store h = record {
  fresh = λ n p. h.fresh n (omega arith);
  keyed = h.keyed;
}

pub upsert_entry-IsSound :
    (store : RunStore) (entry : IndexEntry) → IsSound store → IsSound (upsert_entry store entry)
unfolding upsert_entry
upsert_entry-IsSound store entry h = elim (Bool-cases (is_none (find store.runs entry.run_id))) [
  | inl absent ↦ rw absent h
  | inr present ↦ rw present (record {
    fresh = h.fresh;
    keyed = keyed-put_entry store.runs entry store.entries present h.keyed;
  })
]

-- A run whose identifier the counter has reached keeps the invariant.
pub upsert_run-IsSound :
    (store : RunStore) (run : IndexRun) (n : ℕ)
    → run.run_id ≡ run_id_of n
    → n ≤ store.counter
    → IsSound store
    → IsSound (upsert_run store run)
unfolding upsert_run
upsert_run-IsSound store run n e le h = record {
  fresh = λ m p.
      (let differ : str_eq run.run_id (run_id_of m) ≡ false =
          ground
            (arith, str_eq_iff run.run_id (run_id_of m), run_id_of-injective n m, h.fresh m p) in
        rw (find-assign, differ) (h.fresh m p));
  keyed = keyed-assign store.runs run.run_id run store.entries h.keyed;
}

-- The identifier that a run is given is that of no other run, and is never given again.
pub next_index_run_id-new :
    (store : RunStore)
    → IsSound store
    → let (run_id, after) = next_index_run_id store in
      (find store.runs run_id ≡ none) × ((n : ℕ) → after.counter ≤ n → run_id ≢ run_id_of (n + 1))
unfolding next_index_run_id
next_index_run_id-new store h = (
  h.fresh (store.counter + 1) (omega arith),
  λ n le e. omega (arith, run_id_of-injective (store.counter + 1) (n + 1) e),
)
