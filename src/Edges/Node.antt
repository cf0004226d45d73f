-- ===== src/Edges/Node.antt =====
-- `Node` of src/Edges/Edges.h: a symbol's address, or a local of a symbol, in 64 bits.
pub mod Laws
use bracelet.Prelude.{
  ℕ, ◌+◌, ◌-◌, ◌*◌, ◌/◌, ◌%◌, ◌^◌, bit_and, bit_or, Bool, Option, none, some, Result, ok, ◌>>=◌,
  ◌>>◌, assert, ltb, ◌==◌, not, if◌then◌else◌,
}

pub record Node : Type 0 where
  pub raw : ℕ

-- `Node()`
abbrev pub empty : Node
empty = record { raw = 0 }

-- `operator bool`
unfoldable pub is_set : Node → Bool
is_set n = not (n.raw == 0)

-- `addr++` wraps at 64 bits.
unfoldable pub of_symbol : ℕ → Result Node
of_symbol addr =
    let next = (addr + 1) % 2 ^ 64 in
    assert (next / 2 ^ (64 - 16) == 0) >> ok (record { raw = next * 2 ^ 16 % 2 ^ 64 })

unfoldable pub of_local : ℕ → ℕ → Result Node
of_local symbol local_idx =
    let next_symbol = (symbol + 1) % 2 ^ 64 in
    let next_local = (local_idx + 1) % 2 ^ 64 in
    assert (next_symbol / 2 ^ (64 - 16) == 0)
    >> assert (ltb next_local (2 ^ 16))
    >> ok (record { raw = bit_or (next_symbol * 2 ^ 16 % 2 ^ 64) next_local })

-- `(m_raw >> 16) - 1`, which wraps at 64 bits.
unfoldable pub symbol : Node → Result ℕ
unfolding is_set
symbol n = assert (is_set n) >> ok ((n.raw / 2 ^ 16 + 2 ^ 64 - 1) % 2 ^ 64)

unfoldable pub local_idx : Node → Result (Option ℕ)
unfolding is_set
local_idx n =
    let raw_local = bit_and n.raw 0xffff in
    assert (is_set n) >> ok (if raw_local == 0 then none else some (raw_local - 1))

unfoldable pub equal : Node → Node → Bool
equal n m = n.raw == m.raw

unfoldable pub less : Node → Node → Bool
less n m = ltb n.raw m.raw
