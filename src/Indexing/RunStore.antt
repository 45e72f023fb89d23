-- ===== src/Indexing/RunStore.antt =====
-- The store of index runs (include/ccmcp/indexing/index_run_store.h,
-- src/storage/sqlite/sqlite_index_run_store.cpp): its tables as lists of rows, and its statements as
-- functions on them. A status is stored by its name; here it stands for itself. Errors of the database
-- are not modelled.
pub mod Last
pub mod Sound
use career_coordination_mcp.Prelude.{
  ℕ, ◌+◌, Str, lit, Bool, true, false, Option, none, some, List, [], ◌∷◌, ◌++◌, ◌&&◌, map,
  if◌then◌else◌, str_eq, str_lt, to_string, is_none,
}
use career_coordination_mcp.Prelude.StringMap.{StringMap, find, assign}
use career_coordination_mcp.Prelude.Sorting.{sort_by}
use career_coordination_mcp.Indexing.Run.{
  IndexRunStatus, pending, running, completed, failed, IndexRun, IndexEntry,
}

-- `index_runs` by its primary key, `index_entries` by the order of insertion, and the counter
-- 'index_run' of `id_counters`, 0 where it has no row
pub record RunStore : Type 0 where
  pub runs : StringMap IndexRun
  pub entries : List IndexEntry
  pub counter : ℕ

abbrev pub empty : RunStore
empty = record { runs = []; entries = []; counter = 0 }

unfoldable pub upsert_run : RunStore → IndexRun → RunStore
upsert_run store run = record store { runs = assign store.runs run.run_id run }

-- The entry of an artifact in a run
abbrev pub is_entry_of : Str → Str → Str → IndexEntry → Bool
is_entry_of run_id artifact_type artifact_id entry =
    str_eq entry.run_id run_id
    && (str_eq entry.artifact_type artifact_type && str_eq entry.artifact_id artifact_id)

-- `INSERT ... ON CONFLICT(run_id, artifact_type, artifact_id) DO UPDATE`
unfoldable pub put_entry : List IndexEntry → IndexEntry → List IndexEntry
put_entry [] entry = entry ∷ []
put_entry (e ∷ entries) entry =
    if is_entry_of entry.run_id entry.artifact_type entry.artifact_id e
    then entry ∷ entries
    else e ∷ put_entry entries entry

-- An entry of a run that is not in `index_runs` breaks the foreign key, and is not written
unfoldable pub upsert_entry : RunStore → IndexEntry → RunStore
unfolding put_entry
upsert_entry store entry =
    if is_none (find store.runs entry.run_id)
    then store
    else record store { entries = put_entry store.entries entry }

unfoldable pub get_run : RunStore → Str → Option IndexRun
get_run store run_id = find store.runs run_id

-- `ORDER BY run_id` is the order of the keys
unfoldable pub list_runs : RunStore → List IndexRun
list_runs store = map (λ (id, run). run) store.runs

unfoldable pub entries_of : List IndexEntry → Str → List IndexEntry
entries_of [] run_id = []
entries_of (e ∷ entries) run_id =
    let rest = entries_of entries run_id in if str_eq e.run_id run_id then e ∷ rest else rest

unfoldable pub entry_less : IndexEntry → IndexEntry → Bool
entry_less a b =
    if str_eq a.artifact_type b.artifact_type
    then str_lt a.artifact_id b.artifact_id
    else str_lt a.artifact_type b.artifact_type

unfoldable pub get_entries_for_run : RunStore → Str → List IndexEntry
unfolding entries_of entry_less sort_by
get_entries_for_run store run_id = sort_by entry_less (entries_of store.entries run_id)

-- What `get_last_source_hash` is asked for
pub record Query : Type 0 where
  pub artifact_id : Str
  pub artifact_type : Str
  pub provider_id : Str
  pub model_id : Str
  pub prompt_version : Str

abbrev pub is_completed : IndexRunStatus → Bool
is_completed completed = true
is_completed _ = false

abbrev pub run_fits : Query → IndexRun → Bool
run_fits q run =
    str_eq run.provider_id q.provider_id
    && (str_eq run.model_id q.model_id
        && (str_eq run.prompt_version q.prompt_version && is_completed run.status))

-- The time of completion of an entry's run, where the joined row meets the conditions
unfoldable pub joined : Option IndexRun → Query → IndexEntry → Option (Option Str)
joined none q entry = none
joined (some run) q entry =
    if str_eq entry.artifact_id q.artifact_id
      && (str_eq entry.artifact_type q.artifact_type && run_fits q run)
    then some run.completed_at
    else none

-- The order of times: `NULL` is before every text
abbrev pub earlier : Option Str → Option Str → Bool
earlier none none = false
earlier none (some t) = true
earlier (some s) none = false
earlier (some s) (some t) = str_lt s t

-- A row beside the best so far, by `ORDER BY completed_at DESC LIMIT 1`. Among rows of one time SQLite
-- may give any; this takes the first.
unfoldable pub better :
    Option (Option Str × Str) → Option (Option Str) → Str → Option (Option Str × Str)
better best none source_hash = best
better none (some time) source_hash = some (time, source_hash)
better (some (best_time, best_hash)) (some time) source_hash =
    if earlier best_time time then some (time, source_hash) else some (best_time, best_hash)

unfoldable pub best_row :
    StringMap IndexRun
    → Query
    → Option (Option Str × Str)
    → List IndexEntry
    → Option (Option Str × Str)
unfolding joined better
best_row runs q best [] = best
best_row runs q best (e ∷ entries) =
    best_row runs q (better best (joined (find runs e.run_id) q e) e.source_hash) entries

abbrev hash_of : Option (Option Str × Str) → Option Str
hash_of none = none
hash_of (some (time, source_hash)) = some source_hash

unfoldable pub get_last_source_hash : RunStore → Query → Option Str
unfolding best_row
get_last_source_hash store q = hash_of (best_row store.runs q none store.entries)

abbrev pub run_id_of : ℕ → Str
run_id_of n = lit "run-" ++ to_string n

unfoldable pub next_index_run_id : RunStore → Str × RunStore
next_index_run_id store =
    let value = store.counter + 1 in (run_id_of value, record store { counter = value })
