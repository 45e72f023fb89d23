-- ===== src/Core/Sha256/Digest.antt =====
-- The shape of a digest: eight words of 32 bits, as 64 hexadecimal digits.
use career_coordination_mcp.Prelude.{
  take, drop, ◌-◌, ◌++◌, length-replicate, replicate, ℕ, zero, suc, ◌+◌, ◌-◌, ◌*◌, ◌/◌, ◌%◌, ◌<◌,
  ◌≤◌, ◌≡◌, refl, Str, lit, List, [], ◌∷◌, ◌++◌, length, length-append, length-replicate, All,
  All-append, arith, replicate,
}
use career_coordination_mcp.Core.Words.{u32_mod, add32, hex, length-hex, IsHexDigit, hex-IsHexDigit}
use career_coordination_mcp.Core.Sha256.{
  h0, process_block, pad, padded_size, length_bytes, blocks, digest_words, hex_words, sha256_hex,
}

-- FIPS 180-4, the example of one block.
sha256_hex_abc :
    sha256_hex (lit "abc") ≡ lit "ba7816bf8f01cfea414140de5dae2223b00361a396177a9cb410ff61f20015ad"
unfolding sha256_hex
sha256_hex_abc = refl

-- and of two.
sha256_hex_two_blocks :
    sha256_hex (lit "abcdbcdecdefdefgefghfghighijhijkijkljklmklmnlmnomnopnopq")
    ≡ lit "248d6a61d20638b8e5c026930c3e6039a33ce45964ff2167f6ecedd419db06c1"
unfolding sha256_hex
sha256_hex_two_blocks = refl

-- Eight words of 32 bits.
record IsState (state : List ℕ) : Type 0 where
  eight : length state ≡ 8
  words : All (λ (x : ℕ). x < u32_mod) state

add32-lt : (a b : ℕ) → add32 a b < u32_mod
unfolding add32
add32-lt a b = omega arith

process_block-IsState : (state block : List ℕ) → IsState (process_block state block)
unfolding process_block
process_block-IsState state block = record {
  eight = refl;
  words = (
    add32-lt _ _,
    (
      add32-lt _ _,
      (
        add32-lt _ _,
        (add32-lt _ _, (add32-lt _ _, (add32-lt _ _, (add32-lt _ _, (add32-lt _ _, tt))))),
      ),
    ),
  );
}

blocks-IsState : (n : ℕ) (state msg : List ℕ) → IsState state → IsState (blocks n state msg)
unfolding blocks
blocks-IsState zero state msg h = h
blocks-IsState (suc n) state msg h =
    blocks-IsState n (process_block state (take 64 msg)) (drop 64 msg)
      (process_block-IsState state (take 64 msg))

digest_words-IsState : (input : Str) → IsState (digest_words input)
unfolding digest_words
digest_words-IsState input =
    blocks-IsState (padded_size (length input) / 64) h0 (pad input)
      (record { eight = refl; words = omega arith })

length-hex_words : (words : List ℕ) → length (hex_words words) ≡ length words * 8
unfolding hex_words
length-hex_words [] = refl
length-hex_words (word ∷ words) =
    omega (
      arith,
      length-append (hex 8 word) (hex_words words),
      length-hex 8 word,
      length-hex_words words,
    )

hex_words-IsHexDigit : (words : List ℕ) → All IsHexDigit (hex_words words)
unfolding hex_words
hex_words-IsHexDigit [] = tt
hex_words-IsHexDigit (word ∷ words) =
    All-append IsHexDigit (hex 8 word) (hex_words words) (hex-IsHexDigit 8 word)
      (hex_words-IsHexDigit words)

pub length-sha256_hex : (input : Str) → length (sha256_hex input) ≡ 64
unfolding sha256_hex
length-sha256_hex input =
    omega (arith, length-hex_words (digest_words input), (digest_words-IsState input).eight)

-- A digest is 64 lower case hexadecimal digits, eight for each of eight words below 2 ^ 32.
pub sha256_hex_lem :
    (input : Str)
    → (length (sha256_hex input) ≡ 64)
      × All IsHexDigit (sha256_hex input)
      × (length (digest_words input) ≡ 8)
      × All (λ (x : ℕ). x < u32_mod) (digest_words input)
unfolding sha256_hex
sha256_hex_lem input =
    let state = digest_words-IsState input in
    (length-sha256_hex input, hex_words-IsHexDigit (digest_words input), state.eight, state.words)

length-length_bytes : (n bits : ℕ) → length (length_bytes n bits) ≡ n
unfolding length_bytes
length-length_bytes zero bits = refl
length-length_bytes (suc n) bits = omega (
  arith,
  length-append (length_bytes n (bits / 256)) ((bits % 256) ∷ []),
  length-length_bytes n (bits / 256),
)

padded_size_bounds : (size : ℕ) → (size + 9 ≤ padded_size size) × (padded_size size < size + 73)
unfolding padded_size
padded_size_bounds size = omega arith

padded_size_blocks : (size : ℕ) → padded_size size ≡ (padded_size size / 64) * 64
unfolding padded_size
padded_size_blocks size = omega arith

-- The padded message is the text, the byte 0x80, zeros and eight bytes of length; it fills
-- `padded_size / 64` blocks of 64 bytes exactly, which is the least number that holds it.
pub length-pad :
    (input : Str)
    → (length (pad input) ≡ padded_size (length input))
      × (padded_size (length input) ≡ (padded_size (length input) / 64) * 64)
      × (length input + 9 ≤ padded_size (length input))
      × (padded_size (length input) < length input + 73)
unfolding pad
length-pad input =
    let size = length input in
    let bounds = padded_size_bounds size in
    let zeros : List ℕ = replicate (padded_size size - size - 9) 0 in
    (
      omega (
        arith,
        length-append input (0x80 ∷ (zeros ++ length_bytes 8 (size * 8))),
        length-append zeros (length_bytes 8 (size * 8)),
        length-replicate {A = ℕ} (padded_size size - size - 9) 0,
        length-length_bytes 8 (size * 8),
        bounds,
      ),
      padded_size_blocks size,
      bounds.0,
      bounds.1,
    )
