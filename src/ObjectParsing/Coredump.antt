-- ===== src/ObjectParsing/Coredump.antt =====
-- src/ObjectParsing/CoredumpObject.cpp: an object file as a core dump shows it. What LLDB answers is a
-- record; logs are left out.
pub mod Walk
pub mod Lines
use bracelet.Prelude.{
  ℕ, zero, suc, ◌+◌, ◌*◌, Bool, true, false, not, ◌&&◌, Option, none, some, List, [], ◌∷◌, ◌++◌,
  Result, ok, err, bad_load_address, short_read, outside_sysroot, ◌>>=◌, ◌>>◌, ensure, ◌==◌,
  if◌then◌else◌, length, take, drop,
}
use bracelet.Edges.Bytes.{Text, equal}
use bracelet.Edges.Table.{find}
use bracelet.Edges.Section.{Section}
use bracelet.Tracing.Simplify.{number_of_bytes}
use bracelet.BraceletEdges.Locations.{
  SourceLocation, AddressRange, SourceLocationMap, same_location, find_from,
}

-- `lldb::SBSection`, but for its subsections; the sections of a parent, each before its subsections and
-- the next.
pub record SbSection : Type 0 where
  pub name : Text
  pub load_address : ℕ
  pub byte_size : ℕ

pub data SbSections : Type 0 where
  no_sections : SbSections
  one_section : SbSection → SbSections → SbSections → SbSections

module _ {S : Type 0} (cb : SbSection → S → Result S) where
  unfoldable pub walk_sections : SbSections → S → Result S
  walk_sections no_sections s = ok s
  walk_sections (one_section section subsections rest) s =
      cb section s >>= walk_sections subsections >>= walk_sections rest

  -- The sections of the modules of a target.
  unfoldable pub walk_target : List SbSections → S → Result S
  unfolding walk_sections
  walk_target [] s = ok s
  walk_target (m ∷ modules) s = walk_sections m s >>= walk_target modules

-- The name behind a "PT_LOAD[##]" prefix; ']' is 93.
unfoldable pub strip_prefix : Text → Text
unfolding find_from
strip_prefix name = elim (find_from 93 0 name) [ none ↦ name | some pos ↦ drop (pos + 1) name ]

abbrev pub section_of : SbSection → Section
section_of s = record { name = strip_prefix s.name; start = s.load_address; size = s.byte_size }

unfoldable pub visit_sections :
    {S : Type 0} → (Section → S → Result S) → List SbSections → S → Result S
unfolding walk_target
visit_sections callback modules s = walk_target (λ section. callback (section_of section)) modules s

-- The names of the symbol at an address.
pub record SbSymbol : Type 0 where
  pub mangled_name : Option Text
  pub name : Option Text

-- `resolve_load_address` is of valid addresses only, and has no symbol for an invalid one.
pub record SbTarget : Type 0 where
  pub resolve_load_address : ℕ → Option (Option SbSymbol)
  pub read_memory : ℕ → ℕ → Result Text

-- "<unknown>"
abbrev unknown : Text
unknown = 60 ∷ 117 ∷ 110 ∷ 107 ∷ 110 ∷ 111 ∷ 119 ∷ 110 ∷ 62 ∷ []

abbrev or_unknown : Option Text → Text
or_unknown none = unknown
or_unknown (some name) = name

unfoldable pub name_of : Option SbSymbol → Text
name_of none = unknown
name_of (some symbol) = elim symbol.mangled_name [
  | some name ↦ name
  | none ↦ or_unknown symbol.name
]

module _ (target : SbTarget) where
  -- The name, and the names that are kept.
  unfoldable pub symbol_name : ℕ → List (ℕ × Text) → Result (Text × List (ℕ × Text))
  unfolding find name_of
  symbol_name addr symbol_names = elim (find ◌==◌ addr symbol_names) [
    | some name ↦ ok (name, symbol_names)
    | none ↦ elim (target.resolve_load_address addr) [
      | none ↦ err bad_load_address
      | some symbol ↦ ok (name_of symbol, (addr, name_of symbol) ∷ symbol_names)
    ]
  ]

  abbrev is_valid : Option (Option SbSymbol) → Bool
  is_valid none = false
  is_valid (some symbol) = true

  unfoldable pub copy_data : ℕ → ℕ → Result Text
  copy_data zero addr = ok []
  copy_data (suc n) addr = do
    ensure (is_valid (target.resolve_load_address addr)) bad_load_address
    bytes ← target.read_memory addr (suc n)
    ensure (length bytes == suc n) short_read
    ok bytes

  -- The bytes, taken as pointers.
  unfoldable pub pointers_of : ℕ → Text → List ℕ
  unfolding number_of_bytes
  pointers_of zero bytes = []
  pointers_of (suc n) bytes = number_of_bytes (take 8 bytes) ∷ pointers_of n (drop 8 bytes)

  unfoldable pub resolve_pointers : ℕ → ℕ → Result (List ℕ)
  unfolding copy_data pointers_of
  resolve_pointers n addr = copy_data (8 * n) addr >>= λ bytes. ok (pointers_of n bytes)

-- `slm[location].push_back(range)`
unfoldable pub add_range : SourceLocation → AddressRange → SourceLocationMap → SourceLocationMap
unfolding same_location
add_range location range [] = (location, range ∷ []) ∷ []
add_range location range ((l, ranges) ∷ slm) =
    let later = add_range location range slm in
    if same_location location l then (l, ranges ++ range ∷ []) ∷ slm else (l, ranges) ∷ later

-- The line entries of the compile units of the modules, in order.
unfoldable pub source_location_map :
    List (SourceLocation × AddressRange) → SourceLocationMap → SourceLocationMap
unfolding add_range
source_location_map [] slm = slm
source_location_map ((location, range) ∷ entries) slm =
    source_location_map entries (add_range location range slm)

-- `std::mismatch` comes to the end of the first path.
unfoldable pub lives_inside : List Text → List Text → Bool
unfolding equal
lives_inside [] path = true
lives_inside (x ∷ xs) [] = false
lives_inside (x ∷ xs) (y ∷ ys) = equal x y && lives_inside xs ys

-- The check of `openCore`: whether each module is backed by a file, and its directory's parts.
unfoldable pub check_modules : List Text → List (Bool × List Text) → Result (Unit {0})
unfolding lives_inside
check_modules sysroot [] = ok tt
check_modules sysroot ((is_file_backed, directory) ∷ modules) =
    let rest = check_modules sysroot modules in
    if not is_file_backed
    then rest
    else (ensure (lives_inside sysroot directory) outside_sysroot >> rest)
