-- ===== src/Edges/RoundTrip/Nodes.antt =====
-- The number of a node: what the writer makes of a node, and the reader of the number.
use bracelet.Prelude.{
  ℕ, ◌+◌, ◌*◌, ◌/◌, ◌%◌, ◌^◌, ◌<◌, ◌≡◌, bit_and, none, some, Result, ok, ◌>>=◌, arith, ==_refl,
  Returns,
}
use bracelet.Prelude.Bits.{bit_and_mask, bit_or_fields}
use bracelet.Edges.Node.{Node, of_symbol, of_local}
use bracelet.Edges.Node.Laws.{node, max_symbol, max_local, symbol_eq, local_idx_eq}
use bracelet.Edges.Writer.{encode_node}
use bracelet.Edges.Reader.{Frame, symbol_address, decode_node}

-- A node that a function's edges may name: a symbol, or a local of the function itself.
pub data Ref : Type 0 where
  global own : ℕ → Ref

abbrev pub InRange : Ref → Type 0
InRange (global s) = s < 2 ^ 31
InRange (own i) = i < max_local

abbrev pub to_node : ℕ → Ref → Node
to_node this (global s) = node s none
to_node this (own i) = node this (some i)

-- Where the reader places it: the symbol's address, or the local of the function's address.
abbrev pub place : Frame → ℕ → Ref → Result Node
place f address (global s) = symbol_address f s >>= of_symbol
place f address (own i) = of_local address i

abbrev pub number : Ref → ℕ
number (global s) = s * 2 + 1
number (own i) = i * 2

pub encode_node_eq :
    (this : ℕ) (r : Ref)
    → this < max_symbol
    → InRange r
    → encode_node this (to_node this r) ≡ ok (number r)
unfolding encode_node
encode_node_eq this (global s) h k =
    let fits : s * 2 % 2 ^ 64 ≡ s * 2 ^ 1 = omega arith in
    rw
      (
        local_idx_eq s none (omega arith),
        symbol_eq s none (omega arith) (omega arith),
        fits,
        bit_or_fields 1 s 1 (omega arith),
      )
      (ground arith)
encode_node_eq this (own i) h k =
    rw
      (
        local_idx_eq this (some i) (omega arith),
        symbol_eq this (some i) h (omega arith),
        ==_refl this,
      )
      (ground arith)

pub decode_node_eq :
    (f : Frame) (address : ℕ) (r : Ref) → decode_node f (number r) address ≡ place f address r
unfolding decode_node
decode_node_eq f address (global s) =
    let odd : bit_and (s * 2 + 1) 1 ≡ 1 = omega (arith, bit_and_mask 1 (s * 2 + 1)) in
    let half : (s * 2 + 1) / 2 ≡ s = omega arith in rw (odd, half)
decode_node_eq f address (own i) =
    let even : bit_and (i * 2) 1 ≡ 0 = omega (arith, bit_and_mask 1 (i * 2)) in
    let half : i * 2 / 2 ≡ i = omega arith in rw (even, half)

number-lt : (r : Ref) → InRange r → number r < 2 ^ 32
number-lt (global s) k = omega arith
number-lt (own i) k = omega arith

-- A symbol below 2^31, or a local of the function below its limit, has a 32-bit number, from which
-- the reader takes the symbol's address in its table, or the same local of the function's address.
pub decode_node-encode_node :
    (f : Frame) (this address : ℕ) (r : Ref)
    → this < max_symbol
    → InRange r
    → Returns
        (encode_node this (to_node this r))
        λ w. (w < 2 ^ 32) × (decode_node f w address ≡ place f address r)
decode_node-encode_node f this address r h k =
    (number r, encode_node_eq this r h k, (number-lt r k, decode_node_eq f address r))
