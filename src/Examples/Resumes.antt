-- ===== src/Examples/Resumes.antt =====
-- Hygiene, PDF extraction and ingestion on short texts.
use career_coordination_mcp.Prelude.{
  ◌≡◌, refl, Str, lit, true, false, none, some, List, [], ◌∷◌, ◌++◌, is_none, str_eq, arith,
  to_string,
}
use career_coordination_mcp.Prelude.StringMap.{StringMap, IsOrdered, find}
use career_coordination_mcp.Core.Result.{Result, ok, err}
use career_coordination_mcp.Core.Hashing.{stable_hash64_hex}
use career_coordination_mcp.App.Services.{emit}
use career_coordination_mcp.Ingest.Resume.{IngestedResume}
use career_coordination_mcp.Ingest.Hygiene.{apply_hygiene}
use career_coordination_mcp.Ingest.Hygiene.Passes.{IsClean, hygiene_lem}
use career_coordination_mcp.Ingest.Hygiene.Passes.Visible.{visible}
use career_coordination_mcp.Ingest.Pdf.{streams, literals, stream_start, stream_end, stream_content}
use career_coordination_mcp.Ingest.Pdf.Literals.{literals-written}
use career_coordination_mcp.Ingest.Pdf.Loops.{extraction_ends}
use career_coordination_mcp.Ingest.Pdf.Empty.{empty_stream, empty_stream_runs_on}
use career_coordination_mcp.Ingest.Ingestor.{FileState, readable, ingest_bytes, ingest_file}
use career_coordination_mcp.Ingest.Ingestor.Again.{ingest_markdown_lem}
use career_coordination_mcp.Ingest.ResumeStore.{stored, upsert, get, get_by_hash}
use career_coordination_mcp.Ingest.ResumeStore.Found.{IsUnique, found_as, upsert_lem}
use career_coordination_mcp.App.Ingest.{IngestResumePipelineRequest, default_options}
use career_coordination_mcp.App.Ingest.Trail.{ingested, run, response, reingested_is_lost}
use career_coordination_mcp.Examples.Pipelines.{counter, stopped, dump, services}

abbrev text : Str
text = lit "##   Go " ++ 13 ∷ 10 ∷ 10 ∷ 10 ∷ 10 ∷ 10 ∷ lit "x  "

-- One blank behind the hashes, two blank lines, and no whitespace at the end of a line.
hygiene_test : apply_hygiene text ≡ lit "## Go" ++ 10 ∷ 10 ∷ 10 ∷ lit "x"
unfolding apply_hygiene
hygiene_test = refl

hygiene_lem_example :
    (visible (apply_hygiene text) ≡ visible text)
    × IsClean (apply_hygiene text)
    × (IsClean text → apply_hygiene text ≡ text)
    × (apply_hygiene (apply_hygiene text) ≡ apply_hygiene text)
hygiene_lem_example = hygiene_lem text

abbrev shown_texts : List (Str × Str)
shown_texts = (lit "BT ", lit "a(b\\") ∷ (lit " Tj ", lit "c") ∷ []

literals-written_example : literals 40 (lit "BT (a\\(b\\\\) Tj (c)") ≡ some (lit "a(b\\ c ")
literals-written_example = literals-written 40 shown_texts (refl, (refl, tt)) (omega arith)

extraction_ends_example :
    (is_none (streams 5 (lit "%PDF")) ≡ false) × (is_none (literals 4 (lit "(a)")) ≡ false)
extraction_ends_example = extraction_ends (lit "%PDF") (lit "(a)")

empty_stream_runs_on_example :
    (stream_start (empty_stream (lit " (a)")) ≡ some 0)
    × (stream_end (empty_stream (lit " (a)")) ≡ some 7)
    × (stream_content (empty_stream (lit " (a)")) 7 ≡ lit "endstream (a)")
empty_stream_runs_on_example = empty_stream_runs_on (lit " (a)") (omega arith)

abbrev no_docx : Str → Result Str Str
no_docx bytes = err (lit "no zip")

ingest_markdown_lem_example :
    (r : IngestedResume) × (q : IngestedResume) × ((ingest_bytes no_docx counter stopped
        (lit "#  Go")
        (lit "md")
        default_options
        0
        0).0
      ≡ ok r)
    × (visible r.resume_md ≡ visible (lit "#  Go"))
    × IsClean r.resume_md
    × (r.resume_hash ≡ lit "sha256:" ++ stable_hash64_hex r.resume_md)
    × ((ingest_bytes no_docx counter stopped r.resume_md (lit "md") default_options 3 3).0 ≡ ok q)
    × (q.resume_md ≡ r.resume_md)
    × (q.resume_hash ≡ r.resume_hash)
unfolding apply_hygiene
ingest_markdown_lem_example =
    ingest_markdown_lem no_docx counter stopped (lit "#  Go") default_options default_options 0 0 3
      3 refl

abbrev files : Str → FileState
files path = readable (lit "# Go")

abbrev request : IngestResumePipelineRequest
request = record { input_path = lit "cv.md"; persist = true; trace_id = some (lit "t") }

-- The resume that a run makes with the numbers 2 and 0.
abbrev resume : Str → IngestedResume
resume id = record {
  resume_id = id;
  resume_md = lit "# Go";
  resume_hash = lit "sha256:" ++ stable_hash64_hex (lit "# Go");
  meta = record {
    source_path = some (lit "cv.md");
    source_hash = lit "sha256:" ++ stable_hash64_hex (lit "# Go");
    extraction_method = lit "md-pass-through-v1";
    extracted_at = some (lit "1970-01-01T00:00:00Z");
    ingestion_version = lit "0.3";
  };
  created_at = none;
}

abbrev rows : StringMap IngestedResume
rows = (lit "old", stored (resume (lit "old"))) ∷ []

abbrev other_text : IngestedResume
other_text = record (resume (lit "new")) { resume_hash = lit "2" }

upsert_lem_example :
    IsOrdered (upsert rows other_text)
    × IsUnique (upsert rows other_text)
    × ((get_by_hash (upsert rows other_text) (lit "2") ≡ some (found_as other_text))
        × (get (upsert rows other_text) (lit "new") ≡ some (found_as other_text)))
unfolding get_by_hash str_eq
upsert_lem_example = upsert_lem rows other_text (lit "new") (tt, tt) (refl, tt)

ingested_now :
    ingested no_docx dump counter stopped files request services ≡ ok (resume (lit "resume--2"))
unfolding ingest_file emit to_string
ingested_now = refl

reingested_is_lost_example :
    let (answer, kept, after) = run no_docx dump counter stopped files request rows services in
    (answer ≡ ok (response no_docx dump counter stopped (resume (lit "resume--2")) (lit "t")))
    × (get kept (lit "resume--2") ≡ none)
unfolding get get_by_hash stable_hash64_hex str_eq find
reingested_is_lost_example =
    reingested_is_lost no_docx dump counter stopped files request rows services
      (resume (lit "resume--2")) (stored (resume (lit "old"))) refl ingested_now refl refl
