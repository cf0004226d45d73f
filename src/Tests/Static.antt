-- ===== src/Tests/Static.antt =====
-- Examples for src/ObjectParsing/StaticObject.cpp: an object with data, and a relocation to it.
use bracelet.Prelude.{
  ℕ, ◌+◌, ◌*◌, ◌^◌, ◌<◌, ◌≡◌, refl, false, none, some, List, [], ◌∷◌, Result, ok, err, arith, take,
  drop,
}
use bracelet.Edges.Bytes.{Text}
use bracelet.Edges.Table.{find}
use bracelet.ObjectParsing.Address.{explode, section_idx, set_section_idx, address, SectionRange}
use bracelet.ObjectParsing.Static.{
  LlvmSection, LlvmSymbol, StaticObject, init, add_sections, symbol_name, copy_data, copy_in,
  contents, section_at, resolve_pointers, resolve_words, resolve_in, resolve_from, relocations,
  relocation_sections, read_relocations, resolve_symbol, resolve_local, name_address,
}
use bracelet.ObjectParsing.Static.Named.{IsNamed, resolve_pointers-IsNamed}
use bracelet.ObjectParsing.Static.Resolve.{ArePointers}
use bracelet.ObjectParsing.Static.Init.{init-IsNamed}
use bracelet.ObjectParsing.Static.Copy.{copy_data-add}

abbrev pub value_of {ℓ} : {A : Type ℓ} → A → Result A → A
value_of default (err e) = default
value_of default (ok a) = a

abbrev data_range : SectionRange
data_range = record { index = 1; start = 64; size = 16 }

abbrev target : LlvmSymbol
target = record { name = ok (116 ∷ []); value_address = ok 72; in_section = ok (some data_range) }

abbrev file : List LlvmSection
file =
    record {
      name = ok (100 ∷ []);
      range = data_range;
      contents = ok (1 ∷ 2 ∷ 3 ∷ 4 ∷ 5 ∷ 6 ∷ 7 ∷ 8 ∷ 9 ∷ 10 ∷ 11 ∷ 12 ∷ 13 ∷ 14 ∷ 15 ∷ 16 ∷ []);
      is_bss = false;
      relocated = ok none;
      relocations = [];
    }
    ∷ record {
      name = ok (114 ∷ []);
      range = record { index = 2; start = 128; size = 24 };
      contents = ok [];
      is_bss = false;
      relocated = ok (some 1);
      relocations = record { offset = 64; symbol = some target; addend = none } ∷ [];
    }
    ∷ []

abbrev nothing : StaticObject
nothing = record {
  obj = [];
  bytes_in_address = 8;
  sections = [];
  extern_symbols_section = 0;
  names = record { extern_symbol_indices = []; symbol_names = [] };
}

abbrev object : StaticObject
object = value_of nothing (init 8 file)

opened : init 8 file ≡ ok object
unfolding init add_sections
opened = refl

-- The start of the section with the data.
abbrev data_start : ℕ
data_start = 2 * 2 ^ 32

abbrev pointers : List ℕ × StaticObject
pointers = value_of ([], nothing) (resolve_pointers 1 data_start object)

object-IsNamed : IsNamed object
object-IsNamed = init-IsNamed 8 file object opened

resolved : resolve_pointers 1 data_start object ≡ ok (pointers.0, pointers.1)
unfolding init add_sections resolve_pointers explode section_idx section_at resolve_words resolve_in
    resolve_from relocations relocation_sections read_relocations resolve_symbol resolve_local
    name_address set_section_idx address find
resolved = refl

resolve_pointers-IsNamed_example :
    IsNamed pointers.1
    × ((p : ℕ) (name : Text)
        → symbol_name p object.names ≡ ok name
        → symbol_name p pointers.1.names ≡ ok name)
    × ArePointers pointers.1.names pointers.0
    × (resolve_pointers 1 data_start pointers.1 ≡ ok (pointers.0, pointers.1))
resolve_pointers-IsNamed_example =
    resolve_pointers-IsNamed 1 data_start object pointers.1 pointers.0 object-IsNamed resolved

abbrev bytes : Text × StaticObject
bytes = value_of ([], nothing) (copy_data (2 + 3) (data_start + 1) object)

copied : copy_data (2 + 3) (data_start + 1) object ≡ ok (bytes.0, bytes.1)
unfolding init add_sections copy_data explode section_idx section_at copy_in contents
copied = refl

offset_is_small : (explode (data_start + 1)).section_offset + 2 < 2 ^ 32
unfolding explode
offset_is_small = omega arith

copy_data-add_example :
    (copy_data 2 (data_start + 1) object ≡ ok (take 2 bytes.0, bytes.1))
    × (copy_data 3 (data_start + 1 + 2) bytes.1 ≡ ok (drop 2 bytes.0, bytes.1))
copy_data-add_example =
    copy_data-add 1 2 (data_start + 1) object bytes.1 bytes.0 offset_is_small copied
