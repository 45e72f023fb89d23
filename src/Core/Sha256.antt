-- ===== src/Core/Sha256.antt =====
-- SHA-256 (include/ccmcp/core/sha256.h, src/core/sha256.cpp), over lists of bytes and of 32-bit words.
-- `size_t` and `uint64_t` lengths are not wrapped: a text has fewer than 2 ^ 61 bytes.
pub mod Digest
use Prim.Native.Nat.{bit_and, bit_or, bit_xor}
use career_coordination_mcp.Prelude.{
  ℕ, zero, suc, ◌+◌, ◌-◌, ◌*◌, ◌/◌, ◌%◌, ◌^◌, Str, List, [], ◌∷◌, ◌++◌, length, nth, take, drop,
  replicate,
}
use career_coordination_mcp.Core.Words.{add32, rotr32, not32, hex}

abbrev h0 : List ℕ
h0 =
    0x6a09e667 ∷ 0xbb67ae85 ∷ 0x3c6ef372 ∷ 0xa54ff53a ∷ 0x510e527f ∷ 0x9b05688c ∷ 0x1f83d9ab
    ∷ 0x5be0cd19 ∷ []

abbrev k : List ℕ
k =
    0x428a2f98 ∷ 0x71374491 ∷ 0xb5c0fbcf ∷ 0xe9b5dba5 ∷ 0x3956c25b ∷ 0x59f111f1 ∷ 0x923f82a4
    ∷ 0xab1c5ed5 ∷ 0xd807aa98 ∷ 0x12835b01 ∷ 0x243185be ∷ 0x550c7dc3 ∷ 0x72be5d74 ∷ 0x80deb1fe
    ∷ 0x9bdc06a7 ∷ 0xc19bf174 ∷ 0xe49b69c1 ∷ 0xefbe4786 ∷ 0x0fc19dc6 ∷ 0x240ca1cc ∷ 0x2de92c6f
    ∷ 0x4a7484aa ∷ 0x5cb0a9dc ∷ 0x76f988da ∷ 0x983e5152 ∷ 0xa831c66d ∷ 0xb00327c8 ∷ 0xbf597fc7
    ∷ 0xc6e00bf3 ∷ 0xd5a79147 ∷ 0x06ca6351 ∷ 0x14292967 ∷ 0x27b70a85 ∷ 0x2e1b2138 ∷ 0x4d2c6dfc
    ∷ 0x53380d13 ∷ 0x650a7354 ∷ 0x766a0abb ∷ 0x81c2c92e ∷ 0x92722c85 ∷ 0xa2bfe8a1 ∷ 0xa81a664b
    ∷ 0xc24b8b70 ∷ 0xc76c51a3 ∷ 0xd192e819 ∷ 0xd6990624 ∷ 0xf40e3585 ∷ 0x106aa070 ∷ 0x19a4c116
    ∷ 0x1e376c08 ∷ 0x2748774c ∷ 0x34b0bcb5 ∷ 0x391c0cb3 ∷ 0x4ed8aa4a ∷ 0x5b9cca4f ∷ 0x682e6ff3
    ∷ 0x748f82ee ∷ 0x78a5636f ∷ 0x84c87814 ∷ 0x8cc70208 ∷ 0x90befffa ∷ 0xa4506ceb ∷ 0xbef9a3f7
    ∷ 0xc67178f2 ∷ []

unfoldable pub ch : ℕ → ℕ → ℕ → ℕ
unfolding not32
ch x y z = bit_xor (bit_and x y) (bit_and (not32 x) z)

unfoldable pub maj : ℕ → ℕ → ℕ → ℕ
maj x y z = bit_xor (bit_xor (bit_and x y) (bit_and x z)) (bit_and y z)

unfoldable pub sigma0_big : ℕ → ℕ
unfolding rotr32
sigma0_big x = bit_xor (bit_xor (rotr32 x 2) (rotr32 x 13)) (rotr32 x 22)

unfoldable pub sigma1_big : ℕ → ℕ
unfolding rotr32
sigma1_big x = bit_xor (bit_xor (rotr32 x 6) (rotr32 x 11)) (rotr32 x 25)

unfoldable pub sigma0_small : ℕ → ℕ
unfolding rotr32
sigma0_small x = bit_xor (bit_xor (rotr32 x 7) (rotr32 x 18)) (x / 2 ^ 3)

unfoldable pub sigma1_small : ℕ → ℕ
unfolding rotr32
sigma1_small x = bit_xor (bit_xor (rotr32 x 17) (rotr32 x 19)) (x / 2 ^ 10)

-- The first sixteen words of the schedule, big-endian
block_words : ℕ → List ℕ → List ℕ
block_words zero block = []
block_words (suc n) block =
    bit_or (bit_or (bit_or (nth block 0 * 2 ^ 24) (nth block 1 * 2 ^ 16)) (nth block 2 * 2 ^ 8))
      (nth block 3)
    ∷ block_words n (drop 4 block)

-- The other words, with as many rounds left
extend_schedule : ℕ → List ℕ → List ℕ
unfolding sigma0_small sigma1_small add32
extend_schedule zero w = w
extend_schedule (suc n) w =
    let i = length w in
    extend_schedule n (
      w
      ++ add32
          (add32 (add32 (sigma1_small (nth w (i - 2))) (nth w (i - 7)))
            (sigma0_small (nth w (i - 15))))
          (nth w (i - 16))
        ∷ [])

-- The eight working variables
pub record Working : Type 0 where
  pub a : ℕ
  pub b : ℕ
  pub c : ℕ
  pub d : ℕ
  pub e : ℕ
  pub f : ℕ
  pub g : ℕ
  pub h : ℕ

-- One round, with its constant and its word of the schedule
round : Working → ℕ → ℕ → Working
unfolding ch maj sigma0_big sigma1_big add32
round v ki wi =
    let t1 = add32 (add32 (add32 (add32 v.h (sigma1_big v.e)) (ch v.e v.f v.g)) ki) wi in
    let t2 = add32 (sigma0_big v.a) (maj v.a v.b v.c) in
    record {
      a = add32 t1 t2;
      b = v.a;
      c = v.b;
      d = v.c;
      e = add32 v.d t1;
      f = v.e;
      g = v.f;
      h = v.g;
    }

rounds : Working → List ℕ → List ℕ → Working
unfolding round
rounds v (ki ∷ ks) (wi ∷ ws) = rounds (round v ki wi) ks ws
rounds v _ _ = v

unfoldable pub process_block : List ℕ → List ℕ → List ℕ
unfolding block_words extend_schedule rounds add32
process_block state block =
    let w = extend_schedule 48 (block_words 16 block) in
    let start : Working = record {
      a = nth state 0;
      b = nth state 1;
      c = nth state 2;
      d = nth state 3;
      e = nth state 4;
      f = nth state 5;
      g = nth state 6;
      h = nth state 7;
    } in
    let v = rounds start k w in
    add32 (nth state 0) v.a
    ∷ add32 (nth state 1) v.b
    ∷ add32 (nth state 2) v.c
    ∷ add32 (nth state 3) v.d
    ∷ add32 (nth state 4) v.e
    ∷ add32 (nth state 5) v.f
    ∷ add32 (nth state 6) v.g
    ∷ add32 (nth state 7) v.h
    ∷ []

unfoldable pub padded_size : ℕ → ℕ
padded_size size = ((size + 9 + 63) / 64) * 64

-- The bit length as 64 bits, big-endian: the last `n` of its bytes
length_bytes : ℕ → ℕ → List ℕ
length_bytes zero bits = []
length_bytes (suc n) bits = length_bytes n (bits / 256) ++ (bits % 256) ∷ []

unfoldable pub pad : Str → List ℕ
unfolding padded_size length_bytes
pad input =
    let size = length input in
    input ++ 0x80 ∷ (replicate (padded_size size - size - 9) 0 ++ length_bytes 8 (size * 8))

-- The loop over the blocks, with as many left
pub blocks : ℕ → List ℕ → List ℕ → List ℕ
unfolding process_block
blocks zero state msg = state
blocks (suc n) state msg = blocks n (process_block state (take 64 msg)) (drop 64 msg)

pub digest_words : Str → List ℕ
unfolding pad blocks
digest_words input = blocks (padded_size (length input) / 64) h0 (pad input)

-- The hexadecimal text of the words
hex_words : List ℕ → Str
unfolding hex
hex_words [] = []
hex_words (word ∷ words) = hex 8 word ++ hex_words words

unfoldable pub sha256_hex : Str → Str
unfolding digest_words hex_words
sha256_hex input = hex_words (digest_words input)
