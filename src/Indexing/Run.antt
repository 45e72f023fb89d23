-- ===== src/Indexing/Run.antt =====
-- Index runs, their entries and the names of their states (include/ccmcp/indexing/index_run.h,
-- src/indexing/index_run.cpp). An exception is `none`.
use career_coordination_mcp.Prelude.{
  ◌≡◌, ◌↔◌, refl, Str, lit, Option, none, some, if◌then◌else◌, str_eq, str_eq_iff, true, Bool-cases,
  inl, inr,
}

pub data IndexRunStatus : Type 0 where
  pending running completed failed : IndexRunStatus

pub record IndexRun : Type 0 where
  pub run_id : Str
  pub started_at : Option Str
  pub completed_at : Option Str
  pub provider_id : Str
  pub model_id : Str
  pub prompt_version : Str
  pub status : IndexRunStatus
  pub summary_json : Str

pub record IndexEntry : Type 0 where
  pub run_id : Str
  pub artifact_type : Str
  pub artifact_id : Str
  pub source_hash : Str
  pub vector_hash : Str
  pub indexed_at : Option Str

abbrev pub index_run_status_to_string : IndexRunStatus → Str
index_run_status_to_string pending = lit "pending"
index_run_status_to_string running = lit "running"
index_run_status_to_string completed = lit "completed"
index_run_status_to_string failed = lit "failed"

unfoldable pub index_run_status_from_string : Str → Option IndexRunStatus
unfolding str_eq
index_run_status_from_string s =
    if str_eq s (lit "pending")
    then some pending
    else if str_eq s (lit "running")
    then some running
    else if str_eq s (lit "completed")
    then some completed
    else if str_eq s (lit "failed")
    then some failed
    else none

status_of_string :
    (status : IndexRunStatus)
    → index_run_status_from_string (index_run_status_to_string status) ≡ some status
unfolding index_run_status_from_string
status_of_string pending = refl
status_of_string running = refl
status_of_string completed = refl
status_of_string failed = refl

read_status :
    (s : Str) (status : IndexRunStatus)
    → index_run_status_from_string s ≡ some status
    → str_eq s (index_run_status_to_string status) ≡ true
unfolding index_run_status_from_string
read_status s status h = elim (Bool-cases (str_eq s (lit "pending"))) [
  | inl p ↦ let e : some pending ≡ some status = rw p at h in cc (e, p)
  | inr p ↦ elim (Bool-cases (str_eq s (lit "running"))) [
    | inl q ↦ let e : some running ≡ some status = rw (p, q) at h in cc (e, q)
    | inr q ↦ elim (Bool-cases (str_eq s (lit "completed"))) [
      | inl r ↦ let e : some completed ≡ some status = rw (p, q, r) at h in cc (e, r)
      | inr r ↦ elim (Bool-cases (str_eq s (lit "failed"))) [
        | inl t ↦ let e : some failed ≡ some status = rw (p, q, r, t) at h in cc (e, t)
        | inr t ↦ let e : none ≡ some status = rw (p, q, r, t) at h in cc
      ]
    ]
  ]
]

-- A text is read as a state exactly when it is the name of that state.
pub index_run_status_from_string_iff :
    (s : Str) (status : IndexRunStatus)
    → (index_run_status_from_string s ≡ some status) ↔ (s ≡ index_run_status_to_string status)
index_run_status_from_string_iff s status = (
  (λ h. (str_eq_iff s (index_run_status_to_string status)).0 (read_status s status h)),
  λ e. rw e (status_of_string status),
)
