-- ===== src/ObjectParsing/Static.antt =====
-- src/ObjectParsing/StaticObject.cpp, `StaticObject`: an object file that is not loaded, its sections'
-- contents and relocations read when they are first asked for. What LLVM answers of the file is a
-- record, in which a call that can fail has a result; `Result` texts and log texts are left out.
pub mod Kept
pub mod Init
pub mod Copy
pub mod Resolve
pub mod Named
use bracelet.Prelude.{
  ℕ, zero, suc, ◌+◌, ◌-◌, ◌*◌, ◌/◌, ◌%◌, ◌^◌, Bool, true, false, not, Option, none, some, List, [],
  ◌∷◌, ◌++◌, Result, ok, err, assertion, ◌>>=◌, ◌>>◌, assert, ensure, undefined, no_section,
  duplicate_section, unknown_symbol, null_pointer, missing_relocation, buffer_too_short,
  out_of_section, leb, ltb, ◌==◌, if◌then◌else◌, length, get_or, set, take, drop, replicate,
}
use bracelet.Edges.Bytes.{Text, equal}
use bracelet.Edges.Table.{find}
use bracelet.ObjectParsing.Address.{
  ExplodedAddress, null, explode, address, section_idx, set_section_idx, SectionRange,
}

-- `llvm::object::SymbolRef`; no section is `section_end()`, the section of an undefined symbol.
pub record LlvmSymbol : Type 0 where
  pub name : Result Text
  pub value_address : Result ℕ
  pub in_section : Result (Option SectionRange)

-- `llvm::object::RelocationRef`; no symbol is `symbol_end()`. An addend is in two's complement.
pub record LlvmRelocation : Type 0 where
  pub offset : ℕ
  pub symbol : Option LlvmSymbol
  pub addend : Option ℕ

-- `llvm::object::SectionRef`.
pub record LlvmSection : Type 0 where
  pub name : Result Text
  pub range : SectionRange
  pub contents : Result Text
  pub is_bss : Bool
  pub relocated : Result (Option ℕ)
  pub relocations : List LlvmRelocation

-- `StaticObject::Section`. The reference of the section of extern symbols is the default one, none.
pub record Section : Type 0 where
  pub name : Text
  pub reference : Option LlvmSection
  pub lazy_contents : Option Text
  pub lazy_relocations : Option (List (ℕ × ℕ))

-- The two tables that relocations fill.
pub record Names : Type 0 where
  pub extern_symbol_indices : List (Text × ℕ)
  pub symbol_names : List (ℕ × Text)

pub record StaticObject : Type 0 where
  pub obj : List LlvmSection
  pub bytes_in_address : ℕ
  pub sections : List (Option Section)
  pub extern_symbols_section : ℕ
  pub names : Names

abbrev pub section_of : Text → Option LlvmSection → Section
section_of name reference = record {
  name = name;
  reference = reference;
  lazy_contents = none;
  lazy_relocations = none;
}

-- `sections.resize(n)`, of a vector that is not longer.
abbrev pub resize_sections : ℕ → List (Option Section) → List (Option Section)
resize_sections n sections = sections ++ replicate (n - length sections) none

abbrev pub is_defined {ℓ} : {A : Type ℓ} → Option A → Bool
is_defined none = false
is_defined (some x) = true

unfoldable pub add_sections :
    List LlvmSection → List (Option Section) → Result (List (Option Section))
add_sections [] sections = ok sections
add_sections (s ∷ ss) sections =
    let idx = s.range.index in
    let sized =
      if leb (length sections) (idx + 1) then resize_sections (idx + 1) sections else sections in
    ensure (not (is_defined (get_or sized idx none))) duplicate_section
    >> (s.name >>= λ name. add_sections ss (set sized idx (some (section_of name (some s)))))

-- "extern symbols section (bracelet)"
abbrev pub extern_section_name : Text
extern_section_name =
    101 ∷ 120 ∷ 116 ∷ 101 ∷ 114 ∷ 110 ∷ 32 ∷ 115 ∷ 121 ∷ 109 ∷ 98 ∷ 111 ∷ 108 ∷ 115 ∷ 32 ∷ 115 ∷ 101
    ∷ 99 ∷ 116 ∷ 105 ∷ 111 ∷ 110 ∷ 32 ∷ 40 ∷ 98 ∷ 114 ∷ 97 ∷ 99 ∷ 101 ∷ 108 ∷ 101 ∷ 116 ∷ 41 ∷ []

-- `getBytesInAddress` of the object file, and its sections.
unfoldable pub init : ℕ → List LlvmSection → Result StaticObject
unfolding add_sections
init bytes_in_address obj = do
  sections ← add_sections obj []
  ok (record {
    obj = obj;
    bytes_in_address = bytes_in_address;
    sections = sections ++ some (section_of extern_section_name none) ∷ [];
    extern_symbols_section = length sections % 2 ^ 32;
    names = record { extern_symbol_indices = []; symbol_names = [] };
  })

unfoldable pub symbol_name : ℕ → Names → Result Text
unfolding find
symbol_name addr names = elim (find ◌==◌ addr names.symbol_names) [
  | none ↦ err unknown_symbol
  | some name ↦ ok name
]

abbrev pub llvm : Option LlvmSection → Result LlvmSection
llvm none = err undefined
llvm (some s) = ok s

-- `Section::contents`
unfoldable pub contents : Section → Result (Text × Section)
contents s = elim s.lazy_contents [
  | some body ↦ ok (body, s)
  | none ↦ do
    reference ← llvm s.reference
    body ← reference.contents
    assert (length body == reference.range.size)
    ok (body, record s { lazy_contents = some body })
]

-- The address of an extern symbol: its number in the section of extern symbols.
unfoldable pub extern_address : ℕ → ℕ → Result ℕ
unfolding set_section_idx address
extern_address extern_section index = do
  e ← set_section_idx extern_section null
  ok (address (record e { section_offset = index % 2 ^ 32 }))

-- An extern symbol that has no number yet.
unfoldable pub add_extern : ℕ → Text → Names → Result (ℕ × Names)
unfolding find extern_address
add_extern extern_section name names = do
  let index = length names.extern_symbol_indices % 2 ^ 32
  out ← extern_address extern_section index
  assert (not (is_defined (find ◌==◌ out names.symbol_names)))
  ok (
    out,
    record {
      extern_symbol_indices = names.extern_symbol_indices ++ (name, index) ∷ [];
      symbol_names = names.symbol_names ++ (out, name) ∷ [];
    },
  )

unfoldable pub resolve_extern : ℕ → Text → Names → Result (ℕ × Names)
unfolding find extern_address add_extern
resolve_extern extern_section name names = elim (find equal name names.extern_symbol_indices) [
  | some index ↦ extern_address extern_section index >>= λ out. ok (out, names)
  | none ↦ add_extern extern_section name names
]

-- An address keeps the name that it has.
unfoldable pub name_address : ℕ → Result Text → Names → Result (ℕ × Names)
unfolding find
name_address out name names = elim (find ◌==◌ out names.symbol_names) [
  | some known ↦ ok (out, names)
  | none ↦
      name >>= λ n. ok (out, record names { symbol_names = names.symbol_names ++ (out, n) ∷ [] })
]

-- The offset of the target, `uint32_t` of a 64-bit sum.
abbrev pub target_offset : ℕ → SectionRange → Option ℕ → ℕ
target_offset symbol_addr s none = (symbol_addr + 2 ^ 64 - s.start) % 2 ^ 64 % 2 ^ 32
target_offset symbol_addr s (some reladd) =
    ((symbol_addr + 2 ^ 64 - s.start) % 2 ^ 64 + reladd) % 2 ^ 64 % 2 ^ 32

unfoldable pub resolve_local :
    ℕ → SectionRange → Option ℕ → Result Text → Names → Result (ℕ × Names)
unfolding set_section_idx address name_address
resolve_local symbol_addr s addend name names = do
  e ← set_section_idx s.index null
  let out = address (record e { section_offset = target_offset symbol_addr s addend })
  assert (leb (target_offset symbol_addr s addend) s.size)
  name_address out name names

unfoldable pub resolve_symbol : ℕ → LlvmSymbol → Option ℕ → Names → Result (ℕ × Names)
unfolding resolve_extern resolve_local
resolve_symbol extern_section symbol addend names = do
  symbol_addr ← symbol.value_address
  symbol_section ← symbol.in_section
  elim symbol_section [
    | none ↦ symbol.name >>= λ name. resolve_extern extern_section name names
    | some s ↦ resolve_local symbol_addr s addend symbol.name names
  ]

-- The inner loop of `Section::relocations`.
unfoldable pub read_relocations :
    ℕ → List LlvmRelocation → List (ℕ × ℕ) → Names → Result (List (ℕ × ℕ) × Names)
unfolding find resolve_symbol
read_relocations extern_section [] relocations names = ok (relocations, names)
read_relocations extern_section (r ∷ rs) relocations names =
    assert (not (is_defined (find ◌==◌ r.offset relocations))) >> elim r.symbol [
      | none ↦ read_relocations extern_section rs relocations names
      | some symbol ↦ do
        (out, names') ← resolve_symbol extern_section symbol r.addend names
        read_relocations extern_section rs (relocations ++ (r.offset, out) ∷ []) names'
    ]

abbrev pub targets : Option ℕ → ℕ → Bool
targets none index = false
targets (some target) index = target == index

-- The outer loop, over the sections that hold relocations of the section `index`.
unfoldable pub relocation_sections :
    ℕ → ℕ → List LlvmSection → List (ℕ × ℕ) → Names → Result (List (ℕ × ℕ) × Names)
unfolding read_relocations
relocation_sections extern_section index [] relocations names = ok (relocations, names)
relocation_sections extern_section index (s ∷ ss) relocations names = do
  target ← s.relocated
  (relocations', names') ←
      (if targets target index
        then read_relocations extern_section s.relocations relocations names
        else ok (relocations, names))
  relocation_sections extern_section index ss relocations' names'

unfoldable pub relocations :
    StaticObject → LlvmSection → Section → Result (List (ℕ × ℕ) × Section × Names)
unfolding relocation_sections
relocations so reference s = elim s.lazy_relocations [
  | some known ↦ ok (known, s, so.names)
  | none ↦ do
    (read, names) ←
        relocation_sections so.extern_symbols_section reference.range.index so.obj [] so.names
    ok (read, record s { lazy_relocations = some read }, names)
]

-- A section that is not defined is an error to `copyData`, and fails the assertion of `resolvePointers`.
unfoldable pub section_at : ℕ → StaticObject → Result (Option Section)
section_at idx so =
    ensure (ltb idx (length so.sections)) no_section >> ok (get_or so.sections idx none)

abbrev pub put_section : ℕ → Section → StaticObject → StaticObject
put_section idx s so = record so { sections = set so.sections idx (some s) }

-- What follows when the section is known, for at least one byte.
unfoldable pub copy_in : ℕ → ℕ → ℕ → StaticObject → Section → Result (Text × StaticObject)
unfolding contents
copy_in n section_offset idx so s = do
  (section_body, s') ← contents s
  ensure (leb section_offset (length section_body)) out_of_section
  let address_data = drop section_offset section_body
  ensure (leb n (length address_data)) buffer_too_short
  ok (take n address_data, put_section idx s' so)

unfoldable pub copy_data : ℕ → ℕ → StaticObject → Result (Text × StaticObject)
unfolding section_at copy_in
copy_data zero addr_raw so = ok ([], so)
copy_data (suc n) addr_raw so = do
  ensure (not (addr_raw == 0)) null_pointer
  let addr = explode addr_raw
  idx ← section_idx addr
  found ← section_at idx so
  elim found [ none ↦ err no_section | some s ↦ copy_in (suc n) addr.section_offset idx so s ]

-- The loop of `resolvePointers`, from the address `base` on.
unfoldable pub resolve_from : Bool → List (ℕ × ℕ) → ℕ → ℕ → Result (List ℕ)
unfolding find
resolve_from is_nobits relocations zero base = ok []
resolve_from is_nobits relocations (suc n) base =
    let rest = resolve_from is_nobits relocations n ((base + 8) % 2 ^ 64) in
    elim (find ◌==◌ base relocations) [
      | some target ↦ rest >>= λ more. ok (target ∷ more)
      | none ↦ ensure is_nobits missing_relocation >> (rest >>= λ more. ok (0 ∷ more))
    ]

-- What follows when the section is known, for at least one pointer.
unfoldable pub resolve_in :
    ℕ → ℕ → ℕ → Section → StaticObject → LlvmSection → Result (List ℕ × StaticObject)
unfolding relocations resolve_from
resolve_in n section_offset idx s so reference = do
  let size = reference.range.size
  ensure (leb section_offset size) out_of_section
  ensure (leb n ((size - section_offset) / 8)) buffer_too_short
  (known, s', names) ← relocations so reference s
  let base_address = (reference.range.start + section_offset) % 2 ^ 64
  pointers ← resolve_from reference.is_bss known n base_address
  ok (pointers, record (put_section idx s' so) { names = names })

-- `resolvePointers` behind its assertion.
unfoldable pub resolve_words : ℕ → ℕ → StaticObject → Result (List ℕ × StaticObject)
unfolding section_at resolve_in
resolve_words zero addr_raw so = ok ([], so)
resolve_words (suc n) addr_raw so = do
  ensure (not (addr_raw == 0)) null_pointer
  let addr = explode addr_raw
  idx ← section_idx addr
  found ← section_at idx so
  elim found [
    | none ↦ err assertion
    | some s ↦ llvm s.reference >>= resolve_in (suc n) addr.section_offset idx s so
  ]

unfoldable pub resolve_pointers : ℕ → ℕ → StaticObject → Result (List ℕ × StaticObject)
unfolding resolve_words
resolve_pointers n addr_raw so = assert (8 == so.bytes_in_address) >> resolve_words n addr_raw so
