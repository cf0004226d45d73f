-- ===== src/BraceletEdges/Format.antt =====
-- src/bracelet-edges/bracelet-edges.cpp, `format_hex`, `printNodePure`, and the number formats.
pub mod Print
use bracelet.Prelude.{
  ℕ, zero, suc, ◌+◌, ◌/◌, ◌%◌, Bool, Option, none, some, List, [], ◌∷◌, ◌++◌, Result, ok, ◌>>=◌,
  ltb, ◌==◌, if◌then◌else◌,
}
use bracelet.Edges.Bytes.{Text}
use bracelet.Edges.Node.{Node, symbol, local_idx}

abbrev pub digit : ℕ → ℕ
digit d = if ltb d 10 then 48 + d else 87 + d

-- The last `width` hexadecimal digits.
unfoldable pub hex_digits : ℕ → ℕ → Text
hex_digits zero num = []
hex_digits (suc width) num = hex_digits width (num / 16) ++ digit (num % 16) ∷ []

-- `0x%016x` of a `uint64_t` and `0x%04x` of a `uint16_t` print all digits.
unfoldable pub format_hex : ℕ → Text
unfolding hex_digits
format_hex num = 48 ∷ 120 ∷ hex_digits 16 num

unfoldable pub format_local : ℕ → Text
unfolding hex_digits
format_local idx = 58 ∷ 48 ∷ 120 ∷ hex_digits 4 idx

-- A `uint32_t` in decimals, of which there are 10 at most.
unfoldable pub decimal_digits : ℕ → ℕ → Text
decimal_digits zero num = []
decimal_digits (suc width) num =
    let higher = decimal_digits width (num / 10) in
    (if num / 10 == 0 then [] else higher) ++ (48 + num % 10) ∷ []

unfoldable pub decimal : ℕ → Text
unfolding decimal_digits
decimal num = decimal_digits 10 num

abbrev pub local_suffix : Option ℕ → Text
local_suffix none = []
local_suffix (some idx) = format_local idx

unfoldable pub print_node_pure : Node → Result Text
unfolding format_hex format_local
print_node_pure n = do local ← local_idx n; s ← symbol n; ok (format_hex s ++ local_suffix local)
