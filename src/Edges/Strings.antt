-- ===== src/Edges/Strings.antt =====
-- The blob of texts: `GraphWriter::string` of src/Edges/Writer.cpp fills it, and the reader's
-- `parse_debug_data` and `GraphDebugData` of src/Edges/Reader.cpp take texts out of it. The loop's fuel is one more than the
-- blob is long.
pub mod Laws
use bracelet.Prelude.{
  ℕ, zero, suc, ◌+◌, ◌-◌, ◌%◌, ◌^◌, Option, none, some, List, [], ◌∷◌, ◌++◌, true, false, Result,
  ok, err, ◌>>=◌, ◌>>◌, ensure, out_of_fuel, blob_unterminated, string_out_of_bounds,
  local_out_of_bounds, undefined, ltb, ◌==◌, if◌then◌else◌, length, get_elem?, get_or, drop, map,
}
use bracelet.Edges.Bytes.{Text, equal, c_string}
use bracelet.Edges.Table.{find}

pub record StringTable : Type 0 where
  pub indices : List (Text × ℕ)
  pub blob : Text

abbrev pub no_strings : StringTable
no_strings = record { indices = []; blob = [] }

-- `GraphWriter::string`; the index is a `uint32_t`.
unfoldable pub add_string : Text → StringTable → ℕ × StringTable
add_string s t = elim (find equal s t.indices) [
  | some idx ↦ (idx, t)
  | none ↦
      let idx = length t.indices % 2 ^ 32 in
      (idx, record { indices = t.indices ++ (s, idx) ∷ []; blob = (t.blob ++ s) ++ 0 ∷ [] })
]

-- `string_blob.find('\0')`, from the head of the list.
unfoldable pub find_zero : Text → Option ℕ
find_zero [] = none
find_zero (x ∷ xs) = elim (x == 0) [
  | true ↦ some 0
  | false ↦ elim (find_zero xs) [ none ↦ none | some n ↦ some (suc n) ]
]

-- The loop of `parse_debug_data` that collects where each text begins; `offset` is a `uint32_t`.
unfoldable pub scan_offsets : ℕ → Text → ℕ → Result (List ℕ)
unfolding find_zero
scan_offsets zero blob offset = err out_of_fuel
scan_offsets (suc fuel) blob offset = elim (ltb offset (length blob)) [
  | false ↦ ok []
  | true ↦ elim (find_zero (drop offset blob)) [
    | none ↦ err blob_unterminated
    | some n ↦ do rest ← scan_offsets fuel blob ((offset + n + 1) % 2 ^ 32); ok (offset ∷ rest)
  ]
]

-- Each round moves on by a byte at least, so the length of the blob is fuel enough.
unfoldable pub string_offsets : Text → Result (List ℕ)
unfolding scan_offsets
string_offsets blob = elim (length blob == 0) [
  | true ↦ ok []
  | false ↦ do
    found ← scan_offsets (suc (length blob)) blob 0
    ensure (get_or blob (length blob - 1) 0 == 0) blob_unterminated
    ok found
]

pub record GraphDebugData : Type 0 where
  pub string_blob : Text
  pub local_indices : Option (List ℕ)
  pub offsets : List ℕ

-- `GraphDebugData::string`; the pointer that it returns shows a C string.
unfoldable pub string : GraphDebugData → ℕ → Result Text
string d idx = elim (get_elem? d.offsets idx) [
  | none ↦ err string_out_of_bounds
  | some offset ↦ ok (c_string (drop offset d.string_blob))
]

-- `GraphDebugData::local_name`; without local indices it dereferences an empty optional.
unfoldable pub local_name : GraphDebugData → ℕ → Result Text
unfolding string
local_name d idx = elim d.local_indices [
  | none ↦ err undefined
  | some indices ↦ elim (get_elem? indices idx) [
    | none ↦ err local_out_of_bounds
    | some string_idx ↦ string d string_idx
  ]
]
