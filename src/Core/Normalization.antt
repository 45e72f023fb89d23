-- ===== src/Core/Normalization.antt =====
-- The ASCII normalization of include/ccmcp/core/normalization.h, over bytes. `char` may be signed:
-- a byte of 128 or more lies in none of the ranges under either reading.
pub mod Tokens
pub mod Tags
pub mod Trim
use career_coordination_mcp.Prelude.{
  ℕ, ◌+◌, ◌-◌, Str, Bool, not, ◌&&◌, ◌||◌, true, false, List, [], ◌∷◌, ◌++◌, map, leb, ◌==◌,
  if◌then◌else◌, length, is_empty,
}
use career_coordination_mcp.Prelude.StringSet.{sort, unique}

abbrev pub is_upper : ℕ → Bool
is_upper c = leb b'A' c && leb c b'Z'

abbrev pub is_lower_alnum : ℕ → Bool
is_lower_alnum c = (leb b'a' c && leb c b'z') || (leb b'0' c && leb c b'9')

unfoldable pub lower_byte : ℕ → ℕ
lower_byte c = if is_upper c then c + (b'a' - b'A') else c

unfoldable pub normalize_ascii_lower : Str → Str
unfolding lower_byte
normalize_ascii_lower input = map lower_byte input

-- The body of the first pass of `tokenize_ascii`
unfoldable pub normalize_byte : ℕ → ℕ
normalize_byte c = if is_lower_alnum c then c else if is_upper c then c + (b'a' - b'A') else b' '

-- `push_back` of the current token, if it is long enough
unfoldable pub flush : ℕ → Str → List Str → List Str
flush min_length current_token tokens =
    if not (is_empty current_token) && leb min_length (length current_token)
    then tokens ++ current_token ∷ []
    else tokens

-- The second pass, and the final token
unfoldable pub split : ℕ → Str → Str → List Str → List Str
unfolding flush
split min_length [] current_token tokens = flush min_length current_token tokens
split min_length (ch ∷ normalized) current_token tokens = elim (ch == b' ') [
  | true ↦ split min_length normalized [] (flush min_length current_token tokens)
  | false ↦ split min_length normalized (current_token ++ ch ∷ []) tokens
]

unfoldable pub tokenize_ascii : Str → ℕ → List Str
unfolding normalize_byte split
tokenize_ascii input min_length = split min_length (map normalize_byte input) [] []

abbrev pub default_min_length : ℕ
default_min_length = 2

-- The loop of `normalize_tags`
unfoldable pub tokenize_all : List Str → List Str
unfolding tokenize_ascii
tokenize_all [] = []
tokenize_all (tag ∷ tags) = tokenize_ascii tag default_min_length ++ tokenize_all tags

unfoldable pub normalize_tags : List Str → List Str
unfolding tokenize_all sort unique
normalize_tags input_tags = unique (sort (tokenize_all input_tags))

abbrev pub is_space : ℕ → Bool
is_space c = c == b' ' || (c == 9 || (c == 10 || c == 13))

-- The first loop of `trim`: what is left from `start` on
unfoldable pub trim_front : Str → Str
trim_front [] = []
trim_front (c ∷ s) = let rest = trim_front s in if is_space c then rest else c ∷ s

-- The second loop: what is left before `end`
unfoldable pub trim_back : Str → Str
trim_back [] = []
trim_back (c ∷ s) = let kept = trim_back s in if is_empty kept && is_space c then [] else c ∷ kept

unfoldable pub trim : Str → Str
unfolding trim_front trim_back
trim input = trim_back (trim_front input)
