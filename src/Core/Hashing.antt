-- ===== src/Core/Hashing.antt =====
-- `stable_hash64` of src/core/hashing.cpp: FNV-1a over 64 bits.
use Prim.Native.Nat.{bit_xor}
use career_coordination_mcp.Prelude.{ℕ, ◌*◌, ◌%◌, ◌<◌, ◌≡◌, Str, [], ◌∷◌, length, All, arith}
use career_coordination_mcp.Core.Words.{u64_mod, hex, IsHexDigit, hex-IsHexDigit, length-hex}

abbrev fnv_offset : ℕ
fnv_offset = 14695981039346656037

abbrev fnv_prime : ℕ
fnv_prime = 1099511628211

-- The loop of `stable_hash64`
fnv_loop : ℕ → Str → ℕ
fnv_loop hash [] = hash
fnv_loop hash (c ∷ input) = fnv_loop ((bit_xor hash c * fnv_prime) % u64_mod) input

unfoldable pub stable_hash64 : Str → ℕ
unfolding fnv_loop
stable_hash64 input = fnv_loop fnv_offset input

unfoldable pub stable_hash64_hex : Str → Str
unfolding stable_hash64 hex
stable_hash64_hex input = hex 16 (stable_hash64 input)

fnv_loop-lt : (hash : ℕ) (input : Str) → hash < u64_mod → fnv_loop hash input < u64_mod
unfolding fnv_loop
fnv_loop-lt hash [] h = h
fnv_loop-lt hash (c ∷ input) h =
    fnv_loop-lt ((bit_xor hash c * fnv_prime) % u64_mod) input (omega arith)

-- The hash fits 64 bits, and its text is sixteen lower case hexadecimal digits.
pub stable_hash64_lem :
    (input : Str)
    → (stable_hash64 input < u64_mod)
      × (length (stable_hash64_hex input) ≡ 16)
      × All IsHexDigit (stable_hash64_hex input)
unfolding stable_hash64 stable_hash64_hex
stable_hash64_lem input = (
  fnv_loop-lt fnv_offset input (omega arith),
  length-hex 16 (stable_hash64 input),
  hex-IsHexDigit 16 (stable_hash64 input),
)
