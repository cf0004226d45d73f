-- ===== src/BraceletEdges/Locations.antt =====
-- src/bracelet-edges/bracelet-edges.cpp, `emitAddresses`: the source position in the name of a local,
-- and the addresses of its instructions.
use bracelet.Prelude.{
  ℕ, zero, suc, ◌+◌, ◌-◌, ◌^◌, Bool, false, not, Option, none, some, List, [], ◌∷◌, ◌++◌, Result,
  ok, err, out_of_fuel, bad_number, ◌>>=◌, ◌>>◌, assert, ensure, ◌&&◌, ltb, ◌==◌, if◌then◌else◌,
  take, drop,
}
use bracelet.Edges.Bytes.{Text, equal}

-- `std::string_view::find` of a character, from a position on; no position is `npos`.
unfoldable pub find_from : ℕ → ℕ → Text → Option ℕ
find_from c start [] = none
find_from c zero (x ∷ xs) =
    let rest = find_from c zero xs in
    if x == c then some 0 else elim rest [ none ↦ none | some i ↦ some (suc i) ]
find_from c (suc start) (x ∷ xs) = elim (find_from c start xs) [
  | none ↦ none
  | some i ↦ some (suc i)
]

-- `rfind` of a character, at the position `last` or before it.
unfoldable pub rfind : ℕ → ℕ → Text → Option ℕ
rfind c last [] = none
rfind c zero (x ∷ xs) = if x == c then some 0 else none
rfind c (suc last) (x ∷ xs) = elim (rfind c last xs) [
  | none ↦ (if x == c then some 0 else none)
  | some i ↦ some (suc i)
]

-- The position of "@[".
unfoldable pub find_inline : Text → Option ℕ
find_inline [] = none
find_inline (x ∷ []) = none
find_inline (x ∷ y ∷ xs) =
    let rest = find_inline (y ∷ xs) in
    if x == 64
    then (if y == 91 then some 0 else elim rest [ none ↦ none | some i ↦ some (suc i) ])
    else elim rest [ none ↦ none | some i ↦ some (suc i) ]

abbrev or_zero : Option ℕ → ℕ
or_zero none = 0
or_zero (some i) = i

abbrev max_of : ℕ → ℕ → ℕ
max_of a b = if ltb a b then b else a

-- `std::min` of two positions, of which `npos` is the largest.
abbrev first_of : Option ℕ → Option ℕ → Option ℕ
first_of none b = b
first_of (some a) none = some a
first_of (some a) (some b) = if ltb b a then some b else some a

abbrev substr : ℕ → ℕ → Text → Text
substr start n text = take n (drop start text)

-- The characters are '|' 124, ':' 58, ' ' 32, '/' 47, '0' 48.
unfoldable pub trim_inline : Text → Text
unfolding find_inline
trim_inline name = elim (find_inline name) [ none ↦ name | some i ↦ take i name ]

-- The file's name, which stands before the first ':', at `line_no_start`.
unfoldable pub file_name : ℕ → Text → Result Text
unfolding rfind
file_name line_no_start name = do
  let space = or_zero (rfind 32 line_no_start name)
  let slash = or_zero (rfind 47 line_no_start name)
  let file_name_start = max_of space slash
  let skipped = if max_of space slash == 0 then 0 else 1
  assert (ltb file_name_start line_no_start)
  ok (substr (file_name_start + skipped) (line_no_start - file_name_start - skipped) name)

pub record SourceLocation : Type 0 where
  pub file : Text
  pub line : ℕ
  pub col : ℕ

pub record AddressRange : Type 0 where
  pub start : ℕ
  pub end : ℕ

abbrev starts_with_zero : Text → Bool
starts_with_zero [] = false
starts_with_zero (x ∷ xs) = x == 48

-- `absl::SimpleAtoi` is a parameter.
module _ (simple_atoi : Text → Option ℕ) where
  unfoldable pub parse_number : Text → Result ℕ
  parse_number text = elim (simple_atoi text) [ none ↦ err bad_number | some n ↦ ok n ]

  -- What follows the search for the second ':', at `column_no_start`.
  unfoldable pub position_at : ℕ → ℕ → Text → Text → Result (Option SourceLocation)
  unfolding find_from parse_number
  position_at line_no_start column_no_start file name =
      let line_no_str = substr (line_no_start + 1) (column_no_start - line_no_start - 1) name in
      if starts_with_zero line_no_str
      then ok none
      else elim (first_of (find_from 124 column_no_start name)
          (find_from 32 column_no_start name)) [
            | none ↦ ok none
            | some end_of_column_no ↦ do
              let column_no_str =
                  substr (column_no_start + 1) (end_of_column_no - column_no_start - 1) name
              line_no ← parse_number line_no_str
              column_no ← parse_number column_no_str
              ok (some (record { file = file; line = line_no; col = column_no }))
          ]

  -- The position in a name that has a '|', up to an inlined-from location.
  unfoldable pub position_of : Text → Result (Option SourceLocation)
  unfolding find_from trim_inline file_name position_at
  position_of full_name = elim (find_from 124 0 full_name) [
    | none ↦ ok none
    | some pipe ↦
        let name = trim_inline full_name in
        elim (find_from 58 0 name) [
          | none ↦ ok none
          | some line_no_start ↦ do
            file ← file_name line_no_start name
            elim (find_from 58 (line_no_start + 1) name) [
              | none ↦ ok none
              | some column_no_start ↦ position_at line_no_start column_no_start file name
            ]
        ]
  ]

abbrev pub SourceLocationMap : Type 0
SourceLocationMap = List (SourceLocation × List AddressRange)

unfoldable pub same_location : SourceLocation → SourceLocation → Bool
unfolding equal
same_location a b = equal a.file b.file && (a.line == b.line) && (a.col == b.col)

-- `addr <= end` of 64-bit words: from an end of all ones the loop does not come out.
unfoldable pub addresses_from : ℕ → ℕ → List ℕ
addresses_from zero addr = []
addresses_from (suc n) addr = addr ∷ addresses_from n (addr + 1)

unfoldable pub addresses : AddressRange → Result (List ℕ)
unfolding addresses_from
addresses r =
    if ltb r.end r.start
    then ok []
    else (ensure (not (r.end == 2 ^ 64 - 1)) out_of_fuel
        >> ok (addresses_from (r.end - r.start + 1) r.start))

unfoldable pub addresses_of : List AddressRange → Result (List ℕ)
unfolding addresses
addresses_of [] = ok []
addresses_of (r ∷ rs) = do first ← addresses r; rest ← addresses_of rs; ok (first ++ rest)
