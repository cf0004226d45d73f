-- ===== src/Edges/Symbols.antt =====
-- `GraphWriter::symbol` of src/Edges/Writer.cpp, with the checks on comdats. What LLVM knows of a
-- global value is a record: an object, or an alias with the object that it stands for.
pub mod Laws
use bracelet.Prelude.{
  ℕ, ◌%◌, ◌^◌, Bool, true, false, ◌||◌, ◌&&◌, Option, none, some, List, [], ◌∷◌, ◌++◌, Result, ok,
  err, assertion, ◌>>=◌, ◌>>◌, assert, ◌==◌, if◌then◌else◌, length,
}
use bracelet.Edges.Bytes.{Text, equal}
use bracelet.Edges.Node.{Node, of_symbol}
use bracelet.Edges.Table.{find}

pub record Comdat : Type 0 where
  pub name : Text
  pub selection_kind : ℕ

-- `address` is the pointer, by which the code compares objects.
pub record GlobalObject : Type 0 where
  pub address : ℕ
  pub comdat : Option Comdat
  pub internal_linkage : Bool
  pub private_linkage : Bool

pub data GlobalValue : Type 0 where
  object : GlobalObject → GlobalValue
  alias : GlobalObject → GlobalValue

unfoldable pub required_comdat : GlobalObject → Option Comdat
required_comdat go = if go.internal_linkage || go.private_linkage then go.comdat else none

-- `abort()` unless the comdat, if any, is that of the output.
unfoldable pub assert_comdat : Option Comdat → Option Comdat → Result (Unit {0})
assert_comdat none out = ok tt
assert_comdat (some c) none = err assertion
assert_comdat (some c) (some out) =
    assert (c.selection_kind == out.selection_kind && equal c.name out.name)

pub record SymbolTable : Type 0 where
  pub symbols : List (ℕ × ℕ)
  pub symbols_in_order : List GlobalObject

abbrev pub no_symbols : SymbolTable
no_symbols = record { symbols = []; symbols_in_order = [] }

unfoldable pub resolve : GlobalValue → GlobalObject
resolve (object go) = go
resolve (alias aliasee) = aliasee

-- The object's number, entered on its first use. The map holds the number as a `uint32_t`.
unfoldable pub add_object : GlobalObject → SymbolTable → Result (Node × SymbolTable)
add_object go t = elim (find ◌==◌ go.address t.symbols) [
  | some idx ↦ do n ← of_symbol idx; ok (n, t)
  | none ↦ do
    let idx = length t.symbols
    assert (idx == length t.symbols_in_order)
    n ← of_symbol idx
    ok (
      n,
      record {
        symbols = t.symbols ++ (go.address, idx % 2 ^ 32) ∷ [];
        symbols_in_order = t.symbols_in_order ++ go ∷ [];
      },
    )
]

unfoldable pub add_symbol : Option Comdat → GlobalValue → SymbolTable → Result (Node × SymbolTable)
unfolding required_comdat assert_comdat resolve add_object
add_symbol output_comdat gv t =
    let go = resolve gv in assert_comdat (required_comdat go) output_comdat >> add_object go t
