-- ===== src/Ingest/ResumeStore.antt =====
-- The store of resumes (include/ccmcp/ingest/resume_store.h,
-- src/storage/sqlite/sqlite_resume_store.cpp): the tables `resumes` and `resume_meta`, which have the
-- same keys, as one map. Errors of the database are not modelled but for its constraints.
pub mod Found
use career_coordination_mcp.Prelude.{
  Str, lit, Bool, true, false, not, ◌&&◌, ◌||◌, Option, none, some, List, [], ◌∷◌, map,
  if◌then◌else◌, str_eq,
}
use career_coordination_mcp.Prelude.StringMap.{StringMap, find, assign}
use career_coordination_mcp.Ingest.Resume.{IngestedResume}

-- `resume.created_at.value_or("CURRENT_TIMESTAMP")`
abbrev pub created_at_or : Option Str → Str
created_at_or none = lit "CURRENT_TIMESTAMP"
created_at_or (some time) = time

-- What a row gives back
abbrev pub stored : IngestedResume → IngestedResume
stored resume = record resume { created_at = some (created_at_or resume.created_at) }

-- Another row has the hash, which is `UNIQUE`
unfoldable pub hash_taken : StringMap IngestedResume → IngestedResume → Bool
hash_taken [] resume = false
hash_taken ((id, row) ∷ rows) resume =
    let later = hash_taken rows resume in
    not (str_eq id resume.resume_id) && str_eq row.resume_hash resume.resume_hash || later

-- The statement that breaks the constraint is rolled back, and the method returns
unfoldable pub upsert : StringMap IngestedResume → IngestedResume → StringMap IngestedResume
unfolding hash_taken
upsert rows resume =
    if hash_taken rows resume then rows else assign rows resume.resume_id (stored resume)

unfoldable pub get : StringMap IngestedResume → Str → Option IngestedResume
get rows resume_id = find rows resume_id

unfoldable pub get_by_hash : StringMap IngestedResume → Str → Option IngestedResume
get_by_hash [] resume_hash = none
get_by_hash ((id, row) ∷ rows) resume_hash =
    let later = get_by_hash rows resume_hash in
    if str_eq row.resume_hash resume_hash then some row else later

-- `ORDER BY resume_id` is the order of the keys
unfoldable pub list_all : StringMap IngestedResume → List IngestedResume
list_all rows = map (λ (id, row). row) rows
