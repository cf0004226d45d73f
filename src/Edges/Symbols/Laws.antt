-- ===== src/Edges/Symbols/Laws.antt =====
-- The symbol table holds each object once, in the order of its first use.
use bracelet.Prelude.{
  ℕ, ◌-◌, Returns, ==_refl, ◌%◌, ◌^◌, ◌<◌, ◌≡◌, inl, inr, refl, sym, ap, ◌∙◌, none, some, List, [],
  ◌∷◌, ◌++◌, ok, arith, map, ◌==◌, ==_iff, length, append-nil, length-map, get_elem?,
  get_elem?-append_length, Option-cases,
}
use mathlib.Core.List.{map-append}
use bracelet.Edges.Node.{Node}
use bracelet.Edges.Node.Laws.{node, of_symbol_eq, max_symbol}
use bracelet.Edges.Table.{IsTable, find-IsTable, IsTable-insert, length-IsTable, find, find-append}
use bracelet.Edges.Symbols.{GlobalObject, SymbolTable, add_object}

abbrev addresses : List GlobalObject → List ℕ
addresses = map λ g. g.address

-- The map numbers the objects in order, each object once, and fits the 32 bits of its values.
pub record IsValid (t : SymbolTable) : Type 0 where
  pub table : IsTable ◌==◌ (addresses t.symbols_in_order) t.symbols

-- What entering an object gives: its node, at which the object stands, and a longer valid table.
pub record Entered (go : GlobalObject) (t : SymbolTable) (n : Node) (t' : SymbolTable)
    : Type 0 where
  pub index : ℕ
  pub node_eq : n ≡ node index none
  pub stands : get_elem? (addresses t'.symbols_in_order) index ≡ some go.address
  pub valid : IsValid t'
  pub added : List GlobalObject
  pub extends : t'.symbols_in_order ≡ t.symbols_in_order ++ added
  pub again : add_object go t' ≡ ok (n, t')

add_object_found :
    (go : GlobalObject) (t : SymbolTable) (i : ℕ)
    → find ◌==◌ go.address t.symbols ≡ some i
    → i < max_symbol
    → add_object go t ≡ ok (node i none, t)
unfolding add_object
add_object_found go t i e h = rw (e, add_object, of_symbol_eq i h)

add_object_fresh :
    (go : GlobalObject) (t : SymbolTable)
    → find ◌==◌ go.address t.symbols ≡ none
    → length t.symbols ≡ length t.symbols_in_order
    → length t.symbols < 2 ^ 32
    → add_object go t
      ≡ ok (
        node (length t.symbols) none,
        record {
          symbols = t.symbols ++ (go.address, length t.symbols) ∷ [];
          symbols_in_order = t.symbols_in_order ++ go ∷ [];
        },
      )
unfolding add_object
add_object_fresh go t e same h =
    let fits : length t.symbols % 2 ^ 32 ≡ length t.symbols = omega arith in
    rw (e, add_object, (==_iff _ _).1 same, of_symbol_eq (length t.symbols) (omega arith), fits)

-- Entering an object into a valid table of fewer than 2^32 - 1 objects succeeds: its node names a
-- place of the order at which the object stands, no object that stood there moves, the table stays
-- valid, and entering the object again gives the same node and changes nothing.
pub add_object-Entered :
    (go : GlobalObject) (t : SymbolTable)
    → IsValid t
    → length t.symbols_in_order < 2 ^ 32 - 1
    → Returns (add_object go t) (λ r. Entered go t r.0 r.1)
add_object-Entered go t v h = elim (Option-cases (find ◌==◌ go.address t.symbols)) [
  | inr (i, e) ↦
      let (l, (j, at, same)) = find-IsTable ◌==◌ _ t.symbols go.address v.table e in
      let small : i < max_symbol =
        omega (arith, length-map {0, 0} t.symbols_in_order (λ g. g.address)) in
      let run = add_object_found go t i e small in
      (
        (node i none, t),
        run,
        record {
          index = i;
          node_eq = refl;
          stands = at ∙ ap some (sym ((==_iff _ _).0 same));
          valid = v;
          added = [];
          extends = sym (append-nil _);
          again = run;
        },
      )
  | inl e ↦
      let len = length t.symbols in
      let same : len ≡ length t.symbols_in_order = omega (
        arith,
        length-IsTable ◌==◌ v.table,
        length-map {0, 0} t.symbols_in_order (λ g. g.address),
      ) in
      let small : len < max_symbol = omega (arith, same) in
      let longer = IsTable-insert ◌==◌ _ t.symbols go.address (==_refl go.address) v.table e in
      let found = find-append ◌==◌ go.address go.address len t.symbols e in
      let next : SymbolTable = record {
        symbols = t.symbols ++ (go.address, len) ∷ [];
        symbols_in_order = t.symbols_in_order ++ go ∷ [];
      } in
      (
        (node len none, next),
        add_object_fresh go t e same (omega (arith, same)),
        record {
          index = len;
          node_eq = refl;
          stands =
              rw (map-append, same, ← length-map t.symbols_in_order (λ g. g.address))
                (get_elem?-append_length (addresses t.symbols_in_order) [] go.address);
          valid = record { table = rw map-append longer };
          added = go ∷ [];
          extends = refl;
          again = add_object_found go next len (found ∙ rw (==_refl go.address)) small;
        },
      )
]
