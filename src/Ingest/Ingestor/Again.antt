-- ===== src/Ingest/Ingestor/Again.antt =====
-- What an ingestion makes, and that its text is ingested as it is.
use career_coordination_mcp.Prelude.{◌≡◌, refl, ap, Str, lit, true, false, [], ◌∷◌, ◌++◌, is_empty}
use career_coordination_mcp.Core.Result.{Result, ok}
use career_coordination_mcp.Core.Hashing.{stable_hash64_hex}
use career_coordination_mcp.App.Services.{IdGenerator, Clock}
use career_coordination_mcp.Ingest.Resume.{IngestedResume}
use career_coordination_mcp.Ingest.Hygiene.{apply_hygiene}
use career_coordination_mcp.Ingest.Hygiene.Passes.{IsClean, hygiene_lem}
use career_coordination_mcp.Ingest.Hygiene.Passes.Visible.{visible}
use career_coordination_mcp.Ingest.Ingestor.{
  IngestOptions, extract_markdown, create_adapter, build_resume, ingest_bytes,
}

left_of : (bytes : Str) → is_empty (apply_hygiene bytes) ≡ false → is_empty bytes ≡ false
unfolding apply_hygiene
left_of [] h = h
left_of (c ∷ bytes) h = refl

module _ (extract_docx : Str → Result Str Str) {Ids Time : Type 0} (id_gen : IdGenerator Ids)
    (clock : Clock Time) where
  -- With hygiene
  abbrev ingest : Str → IngestOptions → Ids → Time → Result IngestedResume Str
  ingest bytes options ids time =
      (ingest_bytes extract_docx id_gen clock bytes (lit "md")
        (record options { enable_hygiene = true }) ids time).0

  abbrev built : Str → IngestOptions → Ids → Time → IngestedResume
  built bytes options ids time =
      (build_resume extract_docx id_gen clock (lit "sha256:" ++ stable_hash64_hex bytes)
        (lit "md-pass-through-v1") bytes (record options { enable_hygiene = true }) ids time).0

  ingest-built :
      (bytes : Str) (options : IngestOptions) (ids : Ids) (time : Time)
      → is_empty bytes ≡ false
      → ingest bytes options ids time ≡ ok (built bytes options ids time)
  unfolding ingest_bytes create_adapter extract_markdown
  ingest-built [] options ids time h = cc
  ingest-built (c ∷ bytes) options ids time h = refl

  -- Markdown with hygiene, of which something is left: the ingested text differs from the input in
  -- whitespace only and is clean, and its hash is that of the text. A later ingestion of the ingested text
  -- gives the same text and hash, whatever the identifiers and the time.
  pub ingest_markdown_lem :
      (bytes : Str) (options later : IngestOptions) (ids : Ids) (time : Time) (ids_later : Ids)
      (time_later : Time)
      → is_empty (apply_hygiene bytes) ≡ false
      → (r : IngestedResume) × (q : IngestedResume) × (ingest bytes options ids time ≡ ok r)
        × (visible r.resume_md ≡ visible bytes)
        × IsClean r.resume_md
        × (r.resume_hash ≡ lit "sha256:" ++ stable_hash64_hex r.resume_md)
        × (ingest r.resume_md later ids_later time_later ≡ ok q)
        × (q.resume_md ≡ r.resume_md)
        × (q.resume_hash ≡ r.resume_hash)
  unfolding build_resume
  ingest_markdown_lem bytes options later ids time ids_later time_later something =
      let (same, clean, _, again) = hygiene_lem bytes in
      (
        built bytes options ids time,
        built (apply_hygiene bytes) later ids_later time_later,
        ingest-built bytes options ids time (left_of bytes something),
        same,
        clean,
        refl,
        ingest-built (apply_hygiene bytes) later ids_later time_later something,
        again,
        ap (λ t. lit "sha256:" ++ stable_hash64_hex t) again,
      )
