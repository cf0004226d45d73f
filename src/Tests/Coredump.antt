-- ===== src/Tests/Coredump.antt =====
-- Examples for src/ObjectParsing/CoredumpObject.cpp.
use bracelet.Prelude.{ℕ, ◌+◌, ◌≡◌, List, [], ◌∷◌, Result, ok, for_each}
use bracelet.Edges.Section.{Section}
use bracelet.BraceletEdges.Locations.{SourceLocation, AddressRange}
use bracelet.ObjectParsing.Coredump.{
  SbSections, no_sections, one_section, visit_sections, source_location_map,
}
use bracelet.ObjectParsing.Coredump.Walk.{all_sections, AreStripped, visit_sections-for_each}
use bracelet.ObjectParsing.Coredump.Lines.{ranges_at, ranges_of, ranges_at-source_location_map}

abbrev total_size : Section → ℕ → Result ℕ
total_size section n = ok (section.size + n)

abbrev modules : List SbSections
modules =
    one_section (record { name = 80 ∷ 93 ∷ 46 ∷ []; load_address = 4096; byte_size = 64 })
      (one_section (record { name = 46 ∷ []; load_address = 4100; byte_size = 16 }) no_sections
        no_sections)
      no_sections
    ∷ no_sections
    ∷ []

visit_sections-for_each_example :
    (sections : List Section) × AreStripped (all_sections modules) sections
    × (visit_sections total_size modules 0 ≡ for_each total_size sections 0)
visit_sections-for_each_example = visit_sections-for_each total_size modules 0

abbrev location : SourceLocation
location = record { file = 97 ∷ []; line = 3; col = 7 }

abbrev line_entries : List (SourceLocation × AddressRange)
line_entries =
    (location, record { start = 8; end = 12 })
    ∷ (record location { line = 4 }, record { start = 12; end = 16 })
    ∷ (location, record { start = 20; end = 24 })
    ∷ []

ranges_at-source_location_map_example :
    ranges_at location (source_location_map line_entries []) ≡ ranges_of location line_entries
ranges_at-source_location_map_example = ranges_at-source_location_map location line_entries
