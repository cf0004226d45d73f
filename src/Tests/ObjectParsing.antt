-- ===== src/Tests/ObjectParsing.antt =====
-- Examples for src/ObjectParsing.
use bracelet.Prelude.{
  ◌+◌, ◌-◌, ◌^◌, ◌<◌, ◌≤◌, ◌≡◌, ◌⊎◌, inl, inr, List, [], ◌∷◌, ok, err, Returns, arith, no_section,
  out_of_section,
}
use bracelet.ObjectParsing.Address.{explode, section_idx, SectionRange, translate_addr}
use bracelet.ObjectParsing.Address.Laws.{Among, IsFloor, translate_addr-IsFloor}

abbrev text : SectionRange
text = record { index = 1; start = 64; size = 100 }

abbrev data_section : SectionRange
data_section = record { index = 2; start = 256; size = 8 }

abbrev two_sections : List SectionRange
two_sections = text ∷ data_section ∷ []

two_sections_small :
    (s : SectionRange) → Among s two_sections → (s.index < 2 ^ 16 - 1) × (s.size < 2 ^ 32)
two_sections_small s (inl same) = rw same (omega arith, omega arith)
two_sections_small s (inr (inl same)) = rw same (omega arith, omega arith)
two_sections_small s (inr (inr missing)) = absurd missing

translate_addr-IsFloor_example :
    ((translate_addr two_sections 260 ≡ err no_section)
      × ((s : SectionRange) → Among s two_sections → 260 < s.start))
    ⊎ ((s : SectionRange) × IsFloor 260 two_sections s
        × (((translate_addr two_sections 260 ≡ err out_of_section) × (s.start + s.size ≤ 260))
            ⊎ Returns (translate_addr two_sections 260) (λ a.
              (section_idx (explode a) ≡ ok s.index)
              × (s.start + (explode a).section_offset ≡ 260)
              × ((explode a).section_offset < s.size))))
translate_addr-IsFloor_example = translate_addr-IsFloor two_sections 260 two_sections_small
