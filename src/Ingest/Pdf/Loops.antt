-- ===== src/Ingest/Pdf/Loops.antt =====
-- The loops over a PDF file end: every round is on a shorter rest.
use career_coordination_mcp.Prelude.{
  ℕ, zero, suc, ◌+◌, ◌-◌, ◌≤◌, ◌<◌, ◌≡◌, refl, Str, false, Option, none, some, [], ◌∷◌, ◌++◌, ◌==◌,
  length, drop, arith, is_none, Bool-cases, inl, inr, ◌&&◌,
}
use career_coordination_mcp.Ingest.Pdf.{
  after_paren, matching, literals, stream_start, stream_end, stream_content, streams, keep,
  unescape, write,
}

-- What is left of a text of the length is shorter.
abbrev Shorter : ℕ → Option Str → Type 0
Shorter n none = Unit
Shorter n (some rest) = length rest + 1 ≤ n

abbrev ShorterRest : ℕ → Option (Str × Str) → Type 0
ShorterRest n none = Unit
ShorterRest n (some (inside, rest)) = length rest + 1 ≤ n

Shorter-suc : (n : ℕ) (o : Option Str) → Shorter n o → Shorter (suc n) o
Shorter-suc n none h = tt
Shorter-suc n (some rest) h = omega (arith, h)

after_paren-Shorter : (s : Str) → Shorter (length s) (after_paren s)
unfolding after_paren
after_paren-Shorter [] = tt
after_paren-Shorter (c ∷ s) = elim (Bool-cases (c == b'(')) [
  | inl here ↦ rw here (omega arith)
  | inr later ↦ rw later (Shorter-suc (length s) (after_paren s) (after_paren-Shorter s))
]

keep-Shorter :
    (n m : ℕ) (bytes : Str) (o : Option (Str × Str))
    → m ≤ n
    → ShorterRest m o
    → ShorterRest n (keep bytes o)
keep-Shorter n m bytes none k h = tt
keep-Shorter n m bytes (some (inside, rest)) k h = omega (arith, k, h)

matching-Shorter : (depth : ℕ) (s : Str) → ShorterRest (length s) (matching depth s)
unfolding matching
matching-Shorter depth [] = tt
matching-Shorter depth (c ∷ []) = elim (Bool-cases (c == b')' && depth == 1)) [
  | inl closes ↦ rw closes (omega arith)
  | inr unclosed ↦ rw unclosed tt
]
matching-Shorter depth (c ∷ d ∷ s) =
    let n = length (c ∷ d ∷ s) in
    elim (Bool-cases (c == b'\\')) [
      | inl escapes ↦ rw escapes (
          keep-Shorter n (length s) (c ∷ d ∷ []) (matching depth s) (omega arith)
            (matching-Shorter depth s))
      | inr plain ↦ elim (Bool-cases (c == b'(')) [
        | inl deeper ↦
            rw (plain, deeper)
              (keep-Shorter n (length (d ∷ s)) (c ∷ []) (matching (depth + 1) (d ∷ s)) (omega arith)
                (matching-Shorter (depth + 1) (d ∷ s)))
        | inr same ↦ elim (Bool-cases (c == b')')) [
          | inl closes ↦ elim (Bool-cases (depth == 1)) [
            | inl last ↦ rw (plain, same, closes, last) (omega arith)
            | inr inner ↦
                rw (plain, same, closes, inner)
                  (keep-Shorter n (length (d ∷ s)) (c ∷ []) (matching (depth - 1) (d ∷ s))
                    (omega arith) (matching-Shorter (depth - 1) (d ∷ s)))
          ]
          | inr other ↦
              rw (plain, same, other)
                (keep-Shorter n (length (d ∷ s)) (c ∷ []) (matching depth (d ∷ s)) (omega arith)
                  (matching-Shorter depth (d ∷ s)))
        ]
      ]
    ]

write-total : (text : Str) (o : Option Str) → is_none o ≡ false → is_none (write text o) ≡ false
write-total text none h = h
write-total text (some more) h = refl

-- Any text that is shorter than the fuel is done by the loop.
abbrev Done : (Str → Option Str) → ℕ → Type 0
Done loop fuel = (s : Str) → length s < fuel → is_none (loop s) ≡ false

literal-total :
    (loop : Str → Option Str) (fuel : ℕ) (start : Str) (m : Option (Str × Str))
    → Done loop fuel
    → length start < fuel
    → ShorterRest (length start) m
    → is_none (elim m [
      | none ↦ loop start
      | some (inside, rest) ↦ write (unescape inside ++ 32 ∷ []) (loop rest)
    ])
      ≡ false
literal-total loop fuel start none done k q = done start k
literal-total loop fuel start (some (inside, rest)) done k q =
    write-total (unescape inside ++ 32 ∷ []) (loop rest) (done rest (omega (arith, k, q)))

paren-total :
    (loop : Str → Option Str) (fuel n : ℕ) (o : Option Str)
    → Done loop fuel
    → n ≤ fuel
    → Shorter n o
    → is_none (elim o [
      | none ↦ some []
      | some start ↦ elim (matching 1 start) [
        | none ↦ loop start
        | some (inside, rest) ↦ write (unescape inside ++ 32 ∷ []) (loop rest)
      ]
    ])
      ≡ false
paren-total loop fuel n none done k q = refl
paren-total loop fuel n (some start) done k q =
    literal-total loop fuel start (matching 1 start) done (omega (arith, k, q))
      (matching-Shorter 1 start)

pub literals-total : (fuel : ℕ) → Done (literals fuel) fuel
unfolding literals
literals-total zero content h = absurd (omega (arith, h))
literals-total (suc fuel) content h =
    paren-total (literals fuel) fuel (length content) (after_paren content) (literals-total fuel)
      (omega (arith, h)) (after_paren-Shorter content)

length-drop : (n : ℕ) (s : Str) → length (drop n s) ≡ length s - n
length-drop zero s = omega arith
length-drop (suc n) [] = omega arith
length-drop (suc n) (c ∷ s) = omega (arith, length-drop n s)

written-total :
    (o p : Option Str)
    → is_none o ≡ false
    → is_none p ≡ false
    → is_none (elim o [ none ↦ none | some text ↦ write text p ]) ≡ false
written-total none p h k = h
written-total (some text) p h k = write-total text p k

stream-total :
    (loop : Str → Option Str) (fuel : ℕ) (s : Str) (end : Option ℕ)
    → Done loop fuel
    → 1 ≤ fuel
    → length s < fuel + 10
    → is_none (elim end [
      | none ↦ some []
      | some n ↦ elim (literals (length (stream_content s n) + 1) (stream_content s n)) [
        | none ↦ none
        | some text ↦ write text (loop (drop (n + 10) s))
      ]
    ])
      ≡ false
stream-total loop fuel s none done p k = refl
stream-total loop fuel s (some n) done p k =
    written-total (literals (length (stream_content s n) + 1) (stream_content s n))
      (loop (drop (n + 10) s))
      (literals-total (length (stream_content s n) + 1) (stream_content s n) (omega arith))
      (done (drop (n + 10) s) (omega (arith, p, k, length-drop (n + 10) s)))

start-total :
    (loop : Str → Option Str) (fuel : ℕ) (s : Str) (start : Option ℕ)
    → Done loop fuel
    → 1 ≤ fuel
    → length s < fuel + 1
    → is_none (elim start [
      | none ↦ some []
      | some before ↦ elim (stream_end (drop before s)) [
        | none ↦ some []
        | some n ↦
            elim (literals
              (length (stream_content (drop before s) n) + 1)
              (stream_content (drop before s) n)) [
                | none ↦ none
                | some text ↦ write text (loop (drop (n + 10) (drop before s)))
              ]
      ]
    ])
      ≡ false
start-total loop fuel s none done p k = refl
start-total loop fuel s (some before) done p k =
    stream-total loop fuel (drop before s) (stream_end (drop before s)) done p
      (omega (arith, k, length-drop before s))

streams-total : (fuel : ℕ) → Done (streams fuel) fuel
unfolding streams
streams-total zero pdf_data h = absurd (omega (arith, h))
streams-total (suc fuel) [] h = refl
streams-total (suc fuel) (c ∷ s) h =
    start-total (streams fuel) fuel (c ∷ s) (stream_start (c ∷ s)) (streams-total fuel)
      (omega (arith, h)) (omega (arith, h))

-- The loop over the streams of a file and the loop over the literals of a stream end: the fuel that they
-- are given, one more than the bytes of the file and of the stream, suffices.
pub extraction_ends :
    (pdf_data content : Str)
    → (is_none (streams (length pdf_data + 1) pdf_data) ≡ false)
      × (is_none (literals (length content + 1) content) ≡ false)
extraction_ends pdf_data content = (
  streams-total (length pdf_data + 1) pdf_data (omega arith),
  literals-total (length content + 1) content (omega arith),
)
