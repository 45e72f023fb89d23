-- ===== src/Core/Normalization/Tokens.antt =====
-- The tokens of a text.
use career_coordination_mcp.Prelude.{
  ℕ, ◌≤◌, ◌≡◌, refl, sym, ap, ◌∙◌, inl, inr, Str, not, ◌&&◌, ◌||◌, true, false, List, [], ◌∷◌, ◌++◌,
  map, append_assoc, append-nil, leb, ◌==◌, length, is_empty, All, All-append, arith, le→leb,
  Bool-cases,
}
use mathlib.Core.List.{map-append}
use career_coordination_mcp.Core.Normalization.{
  is_lower_alnum, lower_byte, normalize_ascii_lower, normalize_byte, flush, split, tokenize_ascii,
}

abbrev pub IsAlnum : ℕ → Type 0
IsAlnum c = is_lower_alnum c ≡ true

-- A token: not empty, long enough, of lower case letters and digits only.
pub record IsToken (min_length : ℕ) (token : Str) : Type 0 where
  pub not_empty : is_empty token ≡ false
  pub long_enough : min_length ≤ length token
  pub alnum : All IsAlnum token

abbrev IsNormal : ℕ → Type 0
IsNormal c = (is_lower_alnum c || c == b' ') ≡ true

normalize_byte-IsNormal : (c : ℕ) → IsNormal (normalize_byte c)
unfolding normalize_byte
normalize_byte-IsNormal c = ground arith

map-IsNormal : (s : Str) → All IsNormal (map normalize_byte s)
map-IsNormal [] = tt
map-IsNormal (c ∷ s) = (normalize_byte-IsNormal c, map-IsNormal s)

flush-IsToken :
    (n : ℕ) (current : Str) (tokens : List Str)
    → All IsAlnum current
    → All (IsToken n) tokens
    → All (IsToken n) (flush n current tokens)
unfolding flush
flush-IsToken n current tokens a h =
    elim (Bool-cases (not (is_empty current) && leb n (length current))) [
      | inr short ↦ rw (short, flush) h
      | inl long ↦
          rw (long, flush)
            (All-append (IsToken n) tokens (current ∷ []) h
              (record { not_empty = ground arith; long_enough = ground arith; alnum = a }, tt))
    ]

split-IsToken :
    (n : ℕ) (s current : Str) (tokens : List Str)
    → All IsNormal s
    → All IsAlnum current
    → All (IsToken n) tokens
    → All (IsToken n) (split n s current tokens)
unfolding split
split-IsToken n [] current tokens v a h = flush-IsToken n current tokens a h
split-IsToken n (c ∷ s) current tokens v a h = elim (Bool-cases (c == b' ')) [
  | inl space ↦
      rw (space, split)
        (split-IsToken n s [] (flush n current tokens) v.1 tt (flush-IsToken n current tokens a h))
  | inr other ↦
      rw (other, split)
        (split-IsToken n s (current ++ c ∷ []) tokens v.1
          (All-append IsAlnum current (c ∷ []) a (ground (arith, v.0), tt)) h)
]

-- Every token that `tokenize_ascii` returns is a token of at least the given length.
pub tokenize_ascii-IsToken :
    (input : Str) (min_length : ℕ) → All (IsToken min_length) (tokenize_ascii input min_length)
unfolding tokenize_ascii
tokenize_ascii-IsToken input n =
    split-IsToken n (map normalize_byte input) [] [] (map-IsNormal input) tt tt

normalize_byte-lower_byte : (c : ℕ) → normalize_byte (lower_byte c) ≡ normalize_byte c
unfolding normalize_byte lower_byte
normalize_byte-lower_byte c = ground arith

map-normalize_byte-lower :
    (s : Str) → map normalize_byte (normalize_ascii_lower s) ≡ map normalize_byte s
unfolding normalize_ascii_lower
map-normalize_byte-lower [] = refl
map-normalize_byte-lower (c ∷ s) = cc (normalize_byte-lower_byte c, map-normalize_byte-lower s)

-- The case of letters does not matter.
pub tokenize_ascii-normalize_ascii_lower :
    (input : Str) (n : ℕ) → tokenize_ascii (normalize_ascii_lower input) n ≡ tokenize_ascii input n
unfolding tokenize_ascii
tokenize_ascii-normalize_ascii_lower input n = rw map-normalize_byte-lower

-- The tokens found so far come first.
flush-tokens :
    (n : ℕ) (current : Str) (tokens : List Str)
    → flush n current tokens ≡ tokens ++ flush n current []
unfolding flush
flush-tokens n current tokens =
    elim (Bool-cases (not (is_empty current) && leb n (length current))) [
      | inl p ↦ rw (p, flush)
      | inr p ↦ rw (p, flush) (sym (append-nil tokens))
    ]

split-tokens :
    (n : ℕ) (s current : Str) (tokens : List Str)
    → split n s current tokens ≡ tokens ++ split n s current []
unfolding split
split-tokens n [] current tokens = flush-tokens n current tokens
split-tokens n (c ∷ s) current tokens = elim (Bool-cases (c == b' ')) [
  | inl p ↦
      rw (p, split)
        (split-tokens n s [] (flush n current tokens)
          ∙ ap (λ t. t ++ split n s [] []) (flush-tokens n current tokens)
          ∙ append_assoc tokens _ _
          ∙ ap (λ t. tokens ++ t) (sym (split-tokens n s [] (flush n current []))))
  | inr p ↦ rw (p, split) (split-tokens n s (current ++ c ∷ []) tokens)
]

split-space :
    (n : ℕ) (s t current : Str) (tokens : List Str)
    → split n (s ++ b' ' ∷ t) current tokens ≡ split n s current tokens ++ split n t [] []
unfolding split
split-space n [] t current tokens = split-tokens n t [] (flush n current tokens)
split-space n (c ∷ s) t current tokens = elim (Bool-cases (c == b' ')) [
  | inl p ↦ rw (p, split) (split-space n s t [] (flush n current tokens))
  | inr p ↦ rw (p, split) (split-space n s t (current ++ c ∷ []) tokens)
]

-- A byte that is neither a letter nor a digit separates: the tokens of the whole are those of what
-- stands before it, and then those of what stands after it.
pub tokenize_ascii-separator :
    (before after : Str) (separator n : ℕ)
    → normalize_byte separator ≡ b' '
    → tokenize_ascii (before ++ separator ∷ after) n
      ≡ tokenize_ascii before n ++ tokenize_ascii after n
unfolding tokenize_ascii
tokenize_ascii-separator before after separator n h =
    rw (map-append, h) (split-space n (map normalize_byte before) (map normalize_byte after) [] [])

alnum-normalize_byte : (c : ℕ) → IsAlnum c → (normalize_byte c ≡ c) × ((c == b' ') ≡ false)
unfolding normalize_byte
alnum-normalize_byte c h = ground arith

map-normalize_byte_of_alnum : (s : Str) → All IsAlnum s → map normalize_byte s ≡ s
map-normalize_byte_of_alnum [] h = refl
map-normalize_byte_of_alnum (c ∷ s) h =
    cc ((alnum-normalize_byte c h.0).0, map-normalize_byte_of_alnum s h.1)

split_of_alnum :
    (n : ℕ) (s current : Str) → All IsAlnum s → split n s current [] ≡ flush n (current ++ s) []
unfolding split
split_of_alnum n [] current h = ap (λ t. flush n t []) (sym (append-nil current))
split_of_alnum n (c ∷ s) current h =
    rw ((alnum-normalize_byte c h.0).1, split)
      (split_of_alnum n s (current ++ c ∷ []) h.1
        ∙ ap (λ t. flush n t []) (append_assoc current (c ∷ []) s))

flush_long :
    (n : ℕ) (token : Str)
    → is_empty token ≡ false
    → n ≤ length token
    → flush n token [] ≡ token ∷ []
unfolding flush
flush_long n token h k = rw (h, flush) (rw (le→leb n (length token) k))

-- A token is its own only token.
pub tokenize_ascii_of_IsToken :
    (n : ℕ) (token : Str) → IsToken n token → tokenize_ascii token n ≡ token ∷ []
unfolding tokenize_ascii
tokenize_ascii_of_IsToken n token h =
    rw (map-normalize_byte_of_alnum token h.alnum)
      (split_of_alnum n token [] h.alnum ∙ flush_long n token h.not_empty h.long_enough)

-- The tokens written one after another with a space behind each.
abbrev pub join : List Str → Str
join [] = []
join (token ∷ tokens) = token ++ b' ' ∷ join tokens

-- Tokens that are written with a space behind each are read back as they were.
pub tokenize_ascii-join :
    (n : ℕ) (tokens : List Str) → All (IsToken n) tokens → tokenize_ascii (join tokens) n ≡ tokens
unfolding normalize_byte tokenize_ascii
tokenize_ascii-join n [] h = refl
tokenize_ascii-join n (token ∷ tokens) h =
    tokenize_ascii-separator token (join tokens) b' ' n refl
    ∙ ap (λ t. t ++ tokenize_ascii (join tokens) n) (tokenize_ascii_of_IsToken n token h.0)
    ∙ ap (◌∷◌ token) (tokenize_ascii-join n tokens h.1)
