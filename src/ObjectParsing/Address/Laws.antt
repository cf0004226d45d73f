-- ===== src/ObjectParsing/Address/Laws.antt =====
-- Lemmas on `ExplodedAddress` and `translateAddr` of StaticObject.cpp.
use bracelet.Prelude.{
  ℕ, ◌+◌, ◌-◌, ◌%◌, ◌^◌, ◌<◌, ◌≤◌, ◌≡◌, ◌≢◌, ◌⊎◌, inl, inr, refl, ap, none, some, List, [], ◌∷◌, ok,
  err, Returns, arith, no_section, out_of_section, leb, ltb, Bool-cases,
}
use bracelet.ObjectParsing.Address.{
  null, explode, address, section_idx, set_section_idx, SectionRange, later_start, floor_section,
  translate_addr,
}

-- Every 64-bit address is its three parts, and a section's index, set into the null address beside an
-- offset, is read from the address again.
pub explode-address :
    (addr index offset : ℕ)
    → addr < 2 ^ 64
    → index < 2 ^ 16 - 1
    → offset < 2 ^ 32
    → (address (explode addr) ≡ addr)
      × Returns (set_section_idx index null) (λ e.
        let a = address (record e { section_offset = offset }) in
        (a ≢ 0)
        × (a < 2 ^ 48)
        × (section_idx (explode a) ≡ ok index)
        × ((explode a).section_offset ≡ offset))
unfolding address explode section_idx set_section_idx
explode-address addr index offset h k l = (
  omega arith,
  (
    record null { section_idx_plus_one = index + 1 },
    ground arith,
    (λ e. absurd (omega (arith, e)), omega arith, ground arith, omega arith),
  ),
)

-- One of the sections, the latest that starts at or before the address.
abbrev pub Among : SectionRange → List SectionRange → Type 0
Among s [] = ⊥
Among s (t ∷ ss) = (s ≡ t) ⊎ Among s ss

pub record IsFloor (addr : ℕ) (sections : List SectionRange) (s : SectionRange) : Type 0 where
  pub among : Among s sections
  pub low : s.start ≤ addr
  pub latest : (t : SectionRange) → Among t sections → t.start ≤ addr → t.start ≤ s.start

floor_section-cases :
    (addr : ℕ) (sections : List SectionRange)
    → ((floor_section addr sections ≡ none)
        × ((t : SectionRange) → Among t sections → addr < t.start))
      ⊎ ((s : SectionRange) × (floor_section addr sections ≡ some s) × IsFloor addr sections s)
unfolding floor_section
floor_section-cases addr [] = inl (refl, λ t h. absurd h)
floor_section-cases addr (s ∷ ss) = elim (Bool-cases (leb s.start addr)) [
  | inr above ↦ elim (floor_section-cases addr ss) [
    | inl (e, all) ↦
        inl (rw (e, above), λ t h. elim h [ inl same ↦ rw same (ground arith) | inr m ↦ all t m ])
    | inr (t, e, f) ↦ inr (
      t,
      rw (e, later_start, above),
      record {
        among = inr f.among;
        low = f.low;
        latest = λ u m l. elim m [
          | inl same ↦ absurd (ground (arith, ap (λ r. r.start) same))
          | inr n ↦ f.latest u n l
        ];
      },
    )
  ]
  | inl below ↦ elim (floor_section-cases addr ss) [
    | inl (e, all) ↦ inr (
      s,
      rw (e, below),
      record {
        among = inl refl;
        low = ground arith;
        latest = λ u m l. elim m [
          | inl same ↦ omega (arith, ap (λ r. r.start) same)
          | inr n ↦ absurd (omega (arith, all u n))
        ];
      },
    )
    | inr (t, e, f) ↦ elim (Bool-cases (ltb t.start s.start)) [
      | inl later ↦ inr (
        s,
        rw (e, later_start, below, later),
        record {
          among = inl refl;
          low = ground arith;
          latest = λ u m l. elim m [
            | inl same ↦ omega (arith, ap (λ r. r.start) same)
            | inr n ↦ let g = f.latest u n l in ground arith
          ];
        },
      )
      | inr earlier ↦ inr (
        t,
        rw (e, later_start, below, earlier),
        record {
          among = inr f.among;
          low = f.low;
          latest = λ u m l. elim m [
            | inl same ↦ ground (arith, ap (λ r. r.start) same)
            | inr n ↦ f.latest u n l
          ];
        },
      )
    ]
  ]
]

-- Translating an address, where sections have fewer than 2^32 bytes and indices below 2^16 - 1: it is
-- an error if no section starts at or before the address, or the latest that does ends before it; else
-- the result names that section, and the offset into it.
pub translate_addr-IsFloor :
    (sections : List SectionRange) (addr : ℕ)
    → ((s : SectionRange) → Among s sections → (s.index < 2 ^ 16 - 1) × (s.size < 2 ^ 32))
    → ((translate_addr sections addr ≡ err no_section)
        × ((s : SectionRange) → Among s sections → addr < s.start))
      ⊎ ((s : SectionRange) × IsFloor addr sections s
          × (((translate_addr sections addr ≡ err out_of_section) × (s.start + s.size ≤ addr))
              ⊎ Returns (translate_addr sections addr) (λ a.
                (section_idx (explode a) ≡ ok s.index)
                × (s.start + (explode a).section_offset ≡ addr)
                × ((explode a).section_offset < s.size))))
unfolding translate_addr
translate_addr-IsFloor sections addr small = elim (floor_section-cases addr sections) [
  | inl (e, all) ↦ inl (rw (e, translate_addr), all)
  | inr (s, e, f) ↦
      let (fits, short) = small s f.among in
      elim (Bool-cases (ltb (addr - s.start) s.size)) [
        | inr outside ↦ inr (s, f, inl (rw (e, translate_addr, outside), ground (arith, f.low)))
        | inl inside ↦
            let off : addr - s.start < 2 ^ 32 = ground arith in
            let (ex, k, (a, b, c, d)) =
              (explode-address 0 s.index (addr - s.start) (omega arith) fits off).1 in
            let whole : (addr - s.start) % 2 ^ 32 ≡ addr - s.start = omega arith in
            inr (
              s,
              f,
              inr (
                _,
                rw (e, translate_addr, inside, k, whole),
                (c, omega (arith, d, f.low), ground (arith, d)),
              ),
            )
      ]
]
