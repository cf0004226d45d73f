-- ===== src/Edges/Encoding.antt =====
-- src/Edges/Encoding.h: the zig-zag code, and the fields of a graph's header.
pub mod Zigzag
use bracelet.Prelude.{ℕ, ◌-◌, ◌*◌, ◌/◌, ◌%◌, ◌^◌, bit_and, bit_xor, ltb, if◌then◌else◌}

-- A `uint32_t` stands for the `int32_t` of the same bits; `x >> 31` copies the sign bit.
unfoldable pub zigzag_encode : ℕ → ℕ
zigzag_encode x = bit_xor (2 * x % 2 ^ 32) (if ltb x (2 ^ 31) then 0 else 2 ^ 32 - 1)

unfoldable pub zigzag_decode : ℕ → ℕ
zigzag_decode x = bit_xor (x / 2) ((2 ^ 32 - bit_and x 1) % 2 ^ 32)
