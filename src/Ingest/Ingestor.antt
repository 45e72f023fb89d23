-- ===== src/Ingest/Ingestor.antt =====
-- The resume ingestor (include/ccmcp/ingest/resume_ingestor.h and format_adapter.h,
-- src/ingest/resume_ingestor.cpp, src/ingest/format_adapter.cpp). An `ExtractionError` is its message.
pub mod Again
use career_coordination_mcp.Prelude.{
  ℕ, Str, lit, Bool, true, false, ◌&&◌, ◌||◌, Option, none, some, List, [], ◌∷◌, ◌++◌, map, ◌==◌,
  if◌then◌else◌, is_empty, str_eq,
}
use career_coordination_mcp.Core.Result.{Result, ok, err}
use career_coordination_mcp.Core.Hashing.{stable_hash64_hex}
use career_coordination_mcp.Core.Normalization.{lower_byte}
use career_coordination_mcp.App.Services.{IdGenerator, Clock}
use career_coordination_mcp.Ingest.Resume.{ResumeMeta, IngestedResume}
use career_coordination_mcp.Ingest.Hygiene.{apply_hygiene}
use career_coordination_mcp.Ingest.Pdf.{title, extract_pdf}

pub record IngestOptions : Type 0 where
  pub source_path : Option Str
  pub extracted_at : Option Str
  pub enable_hygiene : Bool

-- What a file is to `read_file_bytes`
pub data FileState : Type 0 where
  closed : FileState
  unreadable : FileState
  readable : Str → FileState

unfoldable pub read_file_bytes : (Str → FileState) → Str → Result Str Str
read_file_bytes files path = elim (files path) [
  | closed ↦ err (lit "Failed to open file: " ++ path)
  | unreadable ↦ err (lit "Failed to read file: " ++ path)
  | readable bytes ↦ ok bytes
]

-- `path::filename`: what stands behind the last slash
unfoldable pub filename : Str → Str → Str
filename name [] = name
filename name (c ∷ path) = let next = if c == b'/' then path else name in filename next path

-- From the last dot that is not the first byte on, or nothing
unfoldable pub last_dot : Str → Str → Str
last_dot ext [] = ext
last_dot ext (c ∷ name) = let next = if c == b'.' then c ∷ name else ext in last_dot next name

-- `path::extension`
unfoldable pub extension : Str → Str
unfolding filename last_dot str_eq
extension path = of_name (filename path path)
  where
    of_name : Str → Str
    of_name [] = []
    of_name (c ∷ name) = if str_eq (c ∷ name) (lit "..") then [] else last_dot [] name

unfoldable pub detect_format_from_path : Str → Str
unfolding extension lower_byte str_eq
detect_format_from_path path =
    let ext = map lower_byte (extension path) in
    if str_eq ext (lit ".md") || str_eq ext (lit ".markdown")
    then lit "md"
    else if str_eq ext (lit ".txt") || str_eq ext (lit ".text")
    then lit "txt"
    else if str_eq ext (lit ".pdf")
    then lit "pdf"
    else if str_eq ext (lit ".docx")
    then lit "docx"
    else lit "txt"

pub record FormatAdapter : Type 0 where
  pub extract : Str → Result Str Str
  pub extraction_method : Str

unfoldable pub extract_markdown : Str → Result Str Str
extract_markdown bytes = if is_empty bytes then err (lit "Empty input data") else ok bytes

unfoldable pub extract_text : Str → Result Str Str
extract_text bytes = if is_empty bytes then err (lit "Empty input data") else ok (title ++ bytes)

abbrev pub markdown_adapter : FormatAdapter
markdown_adapter = record {
  extract = extract_markdown;
  extraction_method = lit "md-pass-through-v1";
}

abbrev pub text_adapter : FormatAdapter
text_adapter = record { extract = extract_text; extraction_method = lit "txt-wrap-v1" }

abbrev pub pdf_adapter : FormatAdapter
pdf_adapter = record { extract = extract_pdf; extraction_method = lit "pdf-text-extract-v1" }

-- `extract_docx` is `DocxAdapter::extract`, which the zip and XML libraries do.
module _ (extract_docx : Str → Result Str Str) where
  unfoldable pub create_adapter : Str → FormatAdapter
  unfolding str_eq
  create_adapter format =
      if str_eq format (lit "md") || str_eq format (lit "markdown")
      then markdown_adapter
      else if str_eq format (lit "txt") || str_eq format (lit "text")
      then text_adapter
      else if str_eq format (lit "pdf")
      then pdf_adapter
      else if str_eq format (lit "docx")
      then record { extract = extract_docx; extraction_method = lit "docx-extract-v1" }
      else text_adapter

  module _ {Ids Time : Type 0} (id_gen : IdGenerator Ids) (clock : Clock Time) where
    -- `meta.extracted_at`
    abbrev extraction_time : Option Str → Time → Str × Time
    extraction_time (some extracted_at) time = (extracted_at, time)
    extraction_time none time = clock.now_iso8601 time

    -- From the hygiene on
    unfoldable pub build_resume :
        Str → Str → Str → IngestOptions → Ids → Time → IngestedResume × Ids × Time
    unfolding apply_hygiene stable_hash64_hex
    build_resume source_hash method extracted options ids time =
        let resume_md = if options.enable_hygiene then apply_hygiene extracted else extracted in
        let (extracted_at, after) = extraction_time options.extracted_at time in
        let (resume_id, drawn) = id_gen.next ids (lit "resume-") in
        (
          record {
            resume_id = resume_id;
            resume_md = resume_md;
            resume_hash = lit "sha256:" ++ stable_hash64_hex resume_md;
            meta = record {
              source_path = options.source_path;
              source_hash = source_hash;
              extraction_method = method;
              extracted_at = some extracted_at;
              ingestion_version = lit "0.3";
            };
            created_at = none;
          },
          drawn,
          after,
        )

    unfoldable pub ingest_bytes :
        Str → Str → IngestOptions → Ids → Time → Result IngestedResume Str × Ids × Time
    unfolding create_adapter extract_markdown extract_text extract_pdf build_resume
    ingest_bytes bytes format options ids time =
        if is_empty bytes
        then (err (lit "Empty input data"), ids, time)
        else (let adapter = create_adapter format in
            elim (adapter.extract bytes) [
              | err message ↦ (err (lit "Extraction failed: " ++ message), ids, time)
              | ok extracted ↦
                  let (resume, drawn, after) =
                    build_resume (lit "sha256:" ++ stable_hash64_hex bytes)
                      adapter.extraction_method extracted options ids time in
                  (ok resume, drawn, after)
            ])

    abbrev path_or : Option Str → Str → Str
    path_or none file_path = file_path
    path_or (some path) file_path = path

    unfoldable pub ingest_file :
        (Str → FileState)
        → Str
        → IngestOptions
        → Ids
        → Time
        → Result IngestedResume Str × Ids × Time
    unfolding read_file_bytes detect_format_from_path ingest_bytes
    ingest_file files file_path options ids time = elim (read_file_bytes files file_path) [
      | err message ↦ (err message, ids, time)
      | ok bytes ↦
          ingest_bytes bytes (detect_format_from_path file_path)
            (record options { source_path = some (path_or options.source_path file_path) }) ids time
    ]
