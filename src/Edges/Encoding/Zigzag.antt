-- ===== src/Edges/Encoding/Zigzag.antt =====
-- The zig-zag code is a bijection of the 32-bit words that keeps small differences small.
use bracelet.Prelude.{
  ℕ, ◌+◌, ◌-◌, ◌*◌, ◌/◌, ◌%◌, ◌^◌, ◌≤◌, ◌<◌, ◌≡◌, ◌⊎◌, ◌↔◌, arith, ltb, if◌then◌else◌,
}
use bracelet.Prelude.Bits.{bit_and_mask, bit_xor-zero, bit_xor_ones}
use bracelet.Edges.Encoding.{zigzag_encode, zigzag_decode}

zigzag_encode_eq :
    (x : ℕ)
    → x < 2 ^ 32
    → zigzag_encode x ≡ (if ltb x (2 ^ 31) then 2 * x else 2 * (2 ^ 32 - x) - 1)
unfolding zigzag_encode
zigzag_encode_eq x h =
    ground (arith, bit_xor-zero (2 * x % 2 ^ 32), bit_xor_ones 32 (2 * x % 2 ^ 32))

zigzag_decode_eq :
    (x : ℕ) → x < 2 ^ 32 → zigzag_decode x ≡ (if ltb (x % 2) 1 then x / 2 else 2 ^ 32 - 1 - x / 2)
unfolding zigzag_decode
zigzag_decode_eq x h =
    ground (arith, bit_and_mask 1 x, bit_xor-zero (x / 2), bit_xor_ones 32 (x / 2))

pub zigzag_encode-lt : (x : ℕ) → x < 2 ^ 32 → zigzag_encode x < 2 ^ 32
zigzag_encode-lt x h = ground (arith, zigzag_encode_eq x h)

pub zigzag_decode-lt : (x : ℕ) → x < 2 ^ 32 → zigzag_decode x < 2 ^ 32
zigzag_decode-lt x h = ground (arith, zigzag_decode_eq x h)

-- Decoding gives back every 32-bit word that was encoded, and the other way round.
pub zigzag_decode-encode :
    (x : ℕ)
    → x < 2 ^ 32
    → (zigzag_decode (zigzag_encode x) ≡ x) × (zigzag_encode (zigzag_decode x) ≡ x)
zigzag_decode-encode x h = (
  ground (arith, zigzag_encode_eq x h, zigzag_decode_eq (zigzag_encode x) (zigzag_encode-lt x h)),
  ground (arith, zigzag_decode_eq x h, zigzag_encode_eq (zigzag_decode x) (zigzag_decode-lt x h)),
)

-- A difference of at most `m` either way, as a two's complement word, has a code of at most 2 * m.
pub zigzag_encode-le :
    (x m : ℕ) → x < 2 ^ 32 → m < 2 ^ 31 → (zigzag_encode x ≤ 2 * m) ↔ ((x ≤ m) ⊎ (2 ^ 32 ≤ x + m))
zigzag_encode-le x m h k =
    (ground (arith, zigzag_encode_eq x h), ground (arith, zigzag_encode_eq x h))
