-- ===== src/Core/Words.antt =====
-- Unsigned machine words as numbers with their wrap-around written out, bytes of a word, and
-- `std::hex << std::setfill('0') << std::setw(n)` of a word of at most `n` digits.
use Prim.Native.Nat.{bit_or}
use career_coordination_mcp.Prelude.{
  ℕ, zero, suc, ◌+◌, ◌-◌, ◌*◌, ◌/◌, ◌%◌, ◌^◌, ◌<◌, ◌≡◌, refl, Str, true, [], ◌∷◌, ◌++◌, ltb, leb,
  ◌&&◌, ◌||◌, if◌then◌else◌, length, length-append, All, All-append, arith,
}

abbrev pub u32_mod : ℕ
u32_mod = 2 ^ 32

abbrev pub u64_mod : ℕ
u64_mod = 2 ^ 64

-- `a + b` of `uint32_t`
unfoldable pub add32 : ℕ → ℕ → ℕ
add32 a b = (a + b) % u32_mod

-- `(x >> n) | (x << (32 - n))` of `uint32_t`, for `n` from 1 to 31
unfoldable pub rotr32 : ℕ → ℕ → ℕ
rotr32 x n = bit_or (x / 2 ^ n) ((x * 2 ^ (32 - n)) % u32_mod)

-- `~x` of `uint32_t`
unfoldable pub not32 : ℕ → ℕ
not32 x = u32_mod - 1 - x % u32_mod

unfoldable pub hex_digit : ℕ → ℕ
hex_digit d = if ltb d 10 then b'0' + d else b'a' + (d - 10)

-- The last `n` hexadecimal digits of `x`
unfoldable pub hex : ℕ → ℕ → Str
unfolding hex_digit
hex zero x = []
hex (suc n) x = hex n (x / 16) ++ hex_digit (x % 16) ∷ []

-- A digit of lower case hexadecimal.
abbrev pub IsHexDigit : ℕ → Type 0
IsHexDigit c = ((leb b'0' c && leb c b'9') || (leb b'a' c && leb c b'f')) ≡ true

hex_digit-IsHexDigit : (d : ℕ) → d < 16 → IsHexDigit (hex_digit d)
unfolding hex_digit
hex_digit-IsHexDigit d h = ground arith

pub hex-IsHexDigit : (n x : ℕ) → All IsHexDigit (hex n x)
unfolding hex
hex-IsHexDigit zero x = tt
hex-IsHexDigit (suc n) x =
    All-append IsHexDigit (hex n (x / 16)) (hex_digit (x % 16) ∷ []) (hex-IsHexDigit n (x / 16))
      (hex_digit-IsHexDigit (x % 16) (omega arith), tt)

pub length-hex : (n x : ℕ) → length (hex n x) ≡ n
unfolding hex
length-hex zero x = refl
length-hex (suc n) x =
    omega (arith, length-append (hex n (x / 16)) (hex_digit (x % 16) ∷ []), length-hex n (x / 16))
