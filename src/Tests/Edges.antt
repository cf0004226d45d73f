-- ===== src/Tests/Edges.antt =====
-- Runs and examples for src/Edges: nodes, codes, symbols and texts.
use bracelet.Prelude.{
  ◌-◌, ◌^◌, ◌≤◌, ◌<◌, ◌≡◌, ◌⊎◌, refl, true, none, some, List, [], ◌∷◌, ok, err, assertion, ◌>>=◌,
  Returns, arith, ◌==◌,
}
use bracelet.Edges.Node.{of_symbol, of_local, symbol, local_idx}
use bracelet.Edges.Node.Laws.{max_symbol, max_local, symbol-of_symbol, symbol-of_local}
use bracelet.Edges.Encoding.{zigzag_encode, zigzag_decode}
use bracelet.Edges.Encoding.Zigzag.{zigzag_decode-encode}
use bracelet.Edges.Bytes.{Text, IsPlain, equal}
use bracelet.Edges.Table.{IsTable-empty, IsTable-insert, find}
use bracelet.Edges.Symbols.{GlobalObject, no_symbols, add_object}
use bracelet.Edges.Symbols.Laws.{IsValid, Entered, add_object-Entered}
use bracelet.Edges.Strings.{StringTable, no_strings, add_string, string_offsets, string}
use bracelet.Edges.Strings.Laws.{Holds, Added, reader, string-Holds, add_string-Added}

symbol-of_symbol_example :
    ((5 < max_symbol) × (of_symbol 5 >>= symbol ≡ ok 5) × (of_symbol 5 >>= local_idx ≡ ok none))
    ⊎ ((max_symbol ≤ 5) × (of_symbol 5 ≡ err assertion))
symbol-of_symbol_example = symbol-of_symbol 5 (omega arith)

symbol-of_local_example :
    ((5 < max_symbol)
      × (7 < max_local)
      × (of_local 5 7 >>= symbol ≡ ok 5)
      × (of_local 5 7 >>= local_idx ≡ ok (some 7)))
    ⊎ (((max_symbol ≤ 5) ⊎ (max_local ≤ 7)) × (of_local 5 7 ≡ err assertion))
symbol-of_local_example = symbol-of_local 5 7 (omega arith) (omega arith)

zigzag_decode-encode_example :
    (zigzag_decode (zigzag_encode (2 ^ 32 - 3)) ≡ 2 ^ 32 - 3)
    × (zigzag_encode (zigzag_decode (2 ^ 32 - 3)) ≡ 2 ^ 32 - 3)
zigzag_decode-encode_example = zigzag_decode-encode (2 ^ 32 - 3) (omega arith)

abbrev main_object : GlobalObject
main_object = record {
  address = 4096;
  comdat = none;
  internal_linkage = true;
  private_linkage = true;
}

no_symbols-IsValid : IsValid no_symbols
no_symbols-IsValid = record { table = IsTable-empty ◌==◌ }

add_object-Entered_example :
    Returns (add_object main_object no_symbols) (λ r. Entered main_object no_symbols r.0 r.1)
add_object-Entered_example =
    add_object-Entered main_object no_symbols no_symbols-IsValid (omega arith)

abbrev two_texts : List Text
two_texts = (104 ∷ 105 ∷ []) ∷ (120 ∷ []) ∷ []

abbrev two_strings : StringTable
two_strings = record {
  indices = (104 ∷ 105 ∷ [], 0) ∷ (120 ∷ [], 1) ∷ [];
  blob = 104 ∷ 105 ∷ 0 ∷ 120 ∷ 0 ∷ [];
}

x_IsPlain : IsPlain (120 ∷ [])
x_IsPlain = (λ h. absurd (omega (arith, h)), tt)

y_IsPlain : IsPlain (121 ∷ [])
y_IsPlain = (λ h. absurd (omega (arith, h)), tt)

two_strings-Holds : Holds two_texts two_strings
unfolding find equal
two_strings-Holds = record {
  table =
      let one = IsTable-insert equal [] [] (104 ∷ 105 ∷ []) refl (IsTable-empty equal) refl in
      IsTable-insert equal ((104 ∷ 105 ∷ []) ∷ []) _ (120 ∷ []) refl one refl;
  blob = refl;
  plain = ((λ h. absurd (omega (arith, h)), (λ h. absurd (omega (arith, h)), tt)), (x_IsPlain, tt));
}

string-Holds_example :
    Returns
      (string_offsets two_strings.blob)
      (λ offsets. string (reader two_strings.blob none offsets) 1 ≡ ok (120 ∷ []))
string-Holds_example =
    string-Holds two_texts two_strings none 1 two_strings-Holds (omega arith) refl

add_string-Added_example :
    Added two_texts two_strings
      (121 ∷ [])
      (add_string (121 ∷ []) two_strings).0
      (add_string (121 ∷ []) two_strings).1
add_string-Added_example =
    add_string-Added two_texts two_strings (121 ∷ []) two_strings-Holds y_IsPlain (omega arith)

-- The second text is entered behind the first.
add_string_run : add_string (120 ∷ []) (add_string (104 ∷ 105 ∷ []) no_strings).1 ≡ (1, two_strings)
unfolding add_string find equal
add_string_run = refl
