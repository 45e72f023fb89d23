-- ===== src/Ingest/Pdf/Empty.antt =====
-- What is read of a file behind an empty stream.
use career_coordination_mcp.Prelude.{
  ℕ, zero, suc, ◌≤◌, ◌<◌, ◌^◌, ◌-◌, ◌≡◌, refl, ap, Str, lit, some, [], ◌∷◌, ◌++◌, length, take,
  arith,
}
use career_coordination_mcp.Ingest.Pdf.{starts_with, find, stream_start, stream_end, stream_content}

take_all : (n : ℕ) (s : Str) → length s ≤ n → take n s ≡ s
take_all zero [] h = refl
take_all zero (c ∷ s) h = absurd (omega (arith, h))
take_all (suc n) [] h = refl
take_all (suc n) (c ∷ s) h = ap (λ t. c ∷ t) (take_all n s (omega (arith, h)))

-- "\nstream\nendstream", and what stands behind it.
abbrev pub empty_stream : Str → Str
empty_stream rest = 10 ∷ (lit "stream" ++ 10 ∷ (lit "endstream" ++ rest))

-- The content of an empty stream is taken to be the whole rest of the file, the keyword `endstream`
-- included: the count of its bytes is -1, which a `size_t` does not have. The rest must have fewer than
-- 2 ^ 63 bytes.
pub empty_stream_runs_on :
    (rest : Str)
    → length rest < 2 ^ 63
    → (stream_start (empty_stream rest) ≡ some 0)
      × (stream_end (empty_stream rest) ≡ some 7)
      × (stream_content (empty_stream rest) 7 ≡ lit "endstream" ++ rest)
unfolding starts_with find stream_content
empty_stream_runs_on rest h =
    (refl, refl, take_all (2 ^ 64 - 1) (lit "endstream" ++ rest) (omega (arith, h)))
