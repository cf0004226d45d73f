-- ===== src/ObjectParsing/Address.antt =====
-- src/ObjectParsing/StaticObject.cpp, `ExplodedAddress` and `translateAddr`: an address of an object
-- file that is not loaded, as a section and an offset.
pub mod Laws
use bracelet.Prelude.{
  ℕ, ◌+◌, ◌-◌, ◌*◌, ◌/◌, ◌%◌, ◌^◌, Bool, true, false, not, Option, none, some, List, [], ◌∷◌,
  Result, ok, err, ◌>>=◌, ◌>>◌, assert, ensure, no_section, out_of_section, leb, ltb, ◌==◌,
  if◌then◌else◌,
}

pub record ExplodedAddress : Type 0 where
  pub section_offset : ℕ
  pub section_idx_plus_one : ℕ
  pub zero : ℕ

abbrev pub null : ExplodedAddress
null = record { section_offset = 0; section_idx_plus_one = 0; zero = 0 }

-- `memcpy` from and to the eight bytes of an `Address`.
unfoldable pub explode : ℕ → ExplodedAddress
explode addr = record {
  section_offset = addr % 2 ^ 32;
  section_idx_plus_one = addr / 2 ^ 32 % 2 ^ 16;
  zero = addr / 2 ^ 48 % 2 ^ 16;
}

unfoldable pub address : ExplodedAddress → ℕ
address e = e.section_offset + 2 ^ 32 * e.section_idx_plus_one + 2 ^ 48 * e.zero

unfoldable pub section_idx : ExplodedAddress → Result ℕ
section_idx e = assert (leb 1 e.section_idx_plus_one) >> ok (e.section_idx_plus_one - 1)

-- The parameter is a `uint16_t`, and so keeps the low bits of what the callers pass.
unfoldable pub set_section_idx : ℕ → ExplodedAddress → Result ExplodedAddress
set_section_idx index e =
    let idx = index % 2 ^ 16 in
    assert (ltb idx (2 ^ 16 - 1)) >> ok (record e { section_idx_plus_one = idx + 1 })

-- What `translateAddr` asks of `llvm::object::SectionRef`.
pub record SectionRange : Type 0 where
  pub index : ℕ
  pub start : ℕ
  pub size : ℕ

-- The map from start addresses to sections: a start that is taken keeps its section.
unfoldable pub starts_at : ℕ → List SectionRange → Bool
starts_at start [] = false
starts_at start (s ∷ ss) = if s.start == start then true else starts_at start ss

unfoldable pub load_info : List SectionRange → List SectionRange → List SectionRange
unfolding starts_at
load_info [] known = known
load_info (s ∷ ss) known = load_info ss (if starts_at s.start known then known else s ∷ known)

-- `--sections.upper_bound(addr)`: the section with the greatest start that is not above `addr`.
unfoldable pub later_start : ℕ → SectionRange → Option SectionRange → Option SectionRange
later_start addr s none = if leb s.start addr then some s else none
later_start addr s (some t) =
    if leb s.start addr then (if ltb t.start s.start then some s else some t) else some t

unfoldable pub floor_section : ℕ → List SectionRange → Option SectionRange
unfolding later_start
floor_section addr [] = none
floor_section addr (s ∷ ss) = later_start addr s (floor_section addr ss)

unfoldable pub translate_addr : List SectionRange → ℕ → Result ℕ
unfolding floor_section set_section_idx address
translate_addr sections addr = elim (floor_section addr sections) [
  | none ↦ err no_section
  | some s ↦ do
    let section_off = addr - s.start
    ensure (ltb section_off s.size) out_of_section
    e ← set_section_idx s.index null
    ok (address (record e { section_offset = section_off % 2 ^ 32 }))
]
