-- ===== src/Edges/Node/Laws.antt =====
-- Nodes against the symbol and the local that they stand for.
use bracelet.Prelude.{
  ℕ, ◌+◌, ◌-◌, ◌*◌, ◌^◌, ◌≤◌, ◌<◌, ◌≡◌, ◌⊎◌, ◌↔◌, inl, inr, true, ◌&&◌, Option, none, some, ok, err,
  assertion, ◌>>=◌, arith, ltb, ltb→lt, Bool-cases,
}
use bracelet.Prelude.Bits.{bit_or_fields, bit_and_mask}
use bracelet.Edges.Node.{Node, of_symbol, of_local, symbol, local_idx, less}

-- The number of a local, shifted by one so that 0 is no local.
abbrev pub slot : Option ℕ → ℕ
slot none = 0
slot (some i) = i + 1

-- The node that stands for a symbol, or for a local of a symbol.
abbrev pub node : ℕ → Option ℕ → Node
node s l = record { raw = (s + 1) * 2 ^ 16 + slot l }

abbrev pub max_symbol : ℕ
max_symbol = 2 ^ 48 - 1

abbrev pub max_local : ℕ
max_local = 2 ^ 16 - 1

pub of_symbol_eq : (s : ℕ) → s < max_symbol → of_symbol s ≡ ok (node s none)
unfolding of_symbol
of_symbol_eq s h = ground arith

pub of_local_eq : (s i : ℕ) → s < max_symbol → i < max_local → of_local s i ≡ ok (node s (some i))
unfolding of_local
of_local_eq s i h k = ground (arith, bit_or_fields 16 (s + 1) (i + 1))

pub symbol_eq : (s : ℕ) (l : Option ℕ) → s < max_symbol → slot l < 2 ^ 16 → symbol (node s l) ≡ ok s
unfolding symbol
symbol_eq s l h k = ground arith

pub local_idx_eq : (s : ℕ) (l : Option ℕ) → slot l < 2 ^ 16 → local_idx (node s l) ≡ ok l
unfolding local_idx
local_idx_eq s none k = ground (arith, bit_and_mask 16 ((s + 1) * 2 ^ 16 + 0))
local_idx_eq s (some i) k = ground (arith, bit_and_mask 16 ((s + 1) * 2 ^ 16 + (i + 1)))

-- A symbol below the limit makes a node from which that symbol and no local are read back; a symbol
-- from the limit on, but for the last 64-bit word, fails the constructor's assertion.
pub symbol-of_symbol :
    (s : ℕ)
    → s < 2 ^ 64 - 1
    → ((s < max_symbol) × (of_symbol s >>= symbol ≡ ok s) × (of_symbol s >>= local_idx ≡ ok none))
      ⊎ ((max_symbol ≤ s) × (of_symbol s ≡ err assertion))
unfolding of_symbol
symbol-of_symbol s h = elim (Bool-cases (ltb s max_symbol)) [
  | inl small ↦
      let p = ltb→lt s max_symbol small in
      inl (
        p,
        rw (of_symbol_eq s p) (symbol_eq s none p (omega arith)),
        rw (of_symbol_eq s p) (local_idx_eq s none (omega arith)),
      )
  | inr large ↦ inr (ground arith, ground arith)
]

-- A symbol and a local below their limits make a node from which both are read back; with either out
-- of range, and neither the last 64-bit word, the constructor's assertion fails.
pub symbol-of_local :
    (s i : ℕ)
    → s < 2 ^ 64 - 1
    → i < 2 ^ 64 - 1
    → ((s < max_symbol)
        × (i < max_local)
        × (of_local s i >>= symbol ≡ ok s)
        × (of_local s i >>= local_idx ≡ ok (some i)))
      ⊎ (((max_symbol ≤ s) ⊎ (max_local ≤ i)) × (of_local s i ≡ err assertion))
unfolding of_local
symbol-of_local s i h k = elim (Bool-cases (ltb s max_symbol && ltb i max_local)) [
  | inl small ↦
      let p : s < max_symbol = ground arith in
      let q : i < max_local = ground arith in
      inl (
        p,
        q,
        rw (of_local_eq s i p q) (symbol_eq s (some i) p (omega arith)),
        rw (of_local_eq s i p q) (local_idx_eq s (some i) (omega arith)),
      )
  | inr large ↦ inr (ground arith, ground arith)
]

-- The order of nodes is that of their symbols, then that of their locals, a symbol before its locals.
pub less-node :
    (s t : ℕ) (l m : Option ℕ)
    → slot l < 2 ^ 16
    → slot m < 2 ^ 16
    → (less (node s l) (node t m) ≡ true) ↔ ((s < t) ⊎ ((s ≡ t) × (slot l < slot m)))
unfolding less
less-node s t l m p q = (ground arith, ground arith)
