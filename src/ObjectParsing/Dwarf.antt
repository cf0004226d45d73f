-- ===== src/ObjectParsing/Dwarf.antt =====
-- src/ObjectParsing/ObjectParsing.cpp: the call sites and inlined functions of a compile unit, from its
-- debugging entries. An entry is what LLVM's `DWARFDie` answers to the calls that are made, and its
-- inlined chain and parents are lists; `StringRef::getAsInteger` is a parameter.
pub mod Order
pub mod Owners
use bracelet.Prelude.{
  ℕ, zero, suc, Bool, true, false, Option, none, some, List, [], ◌∷◌, Result, ok, err, bad_number,
  missing_name, no_section, undefined, ◌>>=◌, ◌>>◌, ensure, assert, ltb, ◌==◌, if◌then◌else◌,
  length, drop,
}
use bracelet.Edges.Bytes.{Text, equal}
use bracelet.Edges.Node.{Node, of_symbol, of_local}
use bracelet.Edges.Section.{has_prefix}

pub record CallsiteEdge : Type 0 where
  pub callsite_addr : ℕ
  pub node_id : Node

pub record InlineEdge : Type 0 where
  pub inliner_id : Node
  pub inlined_name : Text

pub data Tag : Type 0 where
  label : Tag
  inlined_subroutine : Tag
  other_tag : Tag

-- `name` is the recursive DW_AT_name, `inlined_chain` the DW_AT_low_pc of each entry of the chain at the
-- entry's own low pc, and `parents` for the entry and its parents whether each is a subprogram, with its
-- address ranges' low ends.
pub record Die : Type 0 where
  pub tag : Tag
  pub name : Option (Result Text)
  pub low_pc : Option ℕ
  pub inlined_chain : List (Option ℕ)
  pub has_abstract_origin : Bool
  pub linkage_name : Option Text
  pub parents : List (Bool × Result (List ℕ))

-- `std::multimap`: an entry goes behind those with its key.
unfoldable pub insert_entry {ℓ} : {A : Type ℓ} → ℕ → A → List (ℕ × A) → List (ℕ × A)
insert_entry key value [] = (key, value) ∷ []
insert_entry key value ((k, v) ∷ rest) =
    let later = insert_entry key value rest in
    if ltb key k then (key, value) ∷ (k, v) ∷ rest else (k, v) ∷ later

-- The last of the chain.
unfoldable pub back : List (Option ℕ) → Result (Option ℕ)
back [] = err missing_name
back (pc ∷ []) = ok pc
back (pc ∷ next ∷ pcs) = back (next ∷ pcs)

abbrev required {ℓ} : {A : Type ℓ} → Option A → Result A
required none = err missing_name
required (some x) = ok x

-- A name that LLVM gives as a result.
unfoldable pub label_name : Die → Result Text
label_name die = required die.name >>= λ name. name

-- `std::min_element` of a list that is not empty.
unfoldable pub least : ℕ → List ℕ → ℕ
least low [] = low
least low (x ∷ xs) = least (if ltb x low then x else low) xs

-- `while (!isSubprogramDIE()) die = getParent()`; past the root is the null entry.
unfoldable pub subprogram : List (Bool × Result (List ℕ)) → Result (Result (List ℕ))
subprogram [] = err undefined
subprogram ((true, ranges) ∷ rest) = ok ranges
subprogram ((false, ranges) ∷ rest) = subprogram rest

-- "BRACELET_LAB_"
abbrev pub label_prefix : Text
label_prefix = 66 ∷ 82 ∷ 65 ∷ 67 ∷ 69 ∷ 76 ∷ 69 ∷ 84 ∷ 95 ∷ 76 ∷ 65 ∷ 66 ∷ 95 ∷ []

module _ (get_as_integer : Text → Option ℕ) (addr_translate : ℕ → Result ℕ) where
  unfoldable pub parse_node_id_from_name : ℕ → Text → Result Node
  unfolding of_local
  parse_node_id_from_name symbol name = elim (get_as_integer (drop (length label_prefix) name)) [
    | none ↦ err bad_number
    | some out ↦ of_local symbol out
  ]

  unfoldable pub label_record : ℕ → Text → Die → Result (ℕ × CallsiteEdge)
  unfolding back parse_node_id_from_name
  label_record callsite_addr decoded_name die = do
    sub_low_attr ← back die.inlined_chain
    subsection_address ← required sub_low_attr
    function_addr ← addr_translate subsection_address
    translated ← addr_translate callsite_addr
    node_id ← parse_node_id_from_name function_addr decoded_name
    ok (function_addr, record { callsite_addr = translated; node_id = node_id })

  -- An entry without a low pc is abstract and has no record.
  unfoldable pub dwarf_label_die_to_record : Die → Result (Option (ℕ × CallsiteEdge))
  unfolding label_name label_record
  dwarf_label_die_to_record die = do
    decoded_name ← label_name die
    elim die.low_pc [
      | none ↦ ok none
      | some callsite_addr ↦ label_record callsite_addr decoded_name die >>= λ r. ok (some r)
    ]

  unfoldable pub label_of : Die → Result (Option (ℕ × CallsiteEdge))
  unfolding label_name has_prefix dwarf_label_die_to_record
  label_of die = elim die.tag [
    | label ↦ label_name die >>= λ name.
        if has_prefix label_prefix name then dwarf_label_die_to_record die else ok none
    | inlined_subroutine ↦ ok none
    | other_tag ↦ ok none
  ]

  abbrev pub insert_some {ℓ} : {A : Type ℓ} → Option (ℕ × A) → List (ℕ × A) → List (ℕ × A)
  insert_some none res = res
  insert_some (some r) res = insert_entry r.0 r.1 res

  unfoldable pub collect_cu_labels :
      List Die → List (ℕ × CallsiteEdge) → Result (List (ℕ × CallsiteEdge))
  unfolding label_of insert_entry
  collect_cu_labels [] res = ok res
  collect_cu_labels (die ∷ dies) res = do
    found ← label_of die
    collect_cu_labels dies (insert_some found res)

  -- Ranges that LLVM cannot read, and no ranges, are warned of and passed over.
  unfoldable pub inliner : Text → Result (List ℕ) → Result (Option (ℕ × InlineEdge))
  unfolding least of_symbol
  inliner name (err reason) = ok none
  inliner name (ok []) = ok none
  inliner name (ok (low ∷ lows)) = do
    function_addr ← addr_translate (least low lows)
    inliner_id ← of_symbol function_addr
    ok (some (function_addr, record { inliner_id = inliner_id; inlined_name = name }))

  unfoldable pub inline_edge_of : Die → Result (Option (ℕ × InlineEdge))
  unfolding subprogram inliner
  inline_edge_of die = elim die.tag [
    | label ↦ ok none
    | other_tag ↦ ok none
    | inlined_subroutine ↦
        if die.has_abstract_origin
        then elim die.linkage_name [
          | none ↦ ok none
          | some name ↦ subprogram die.parents >>= λ ranges. inliner name ranges
        ]
        else ok none
  ]

  unfoldable pub collect_cu_inline_edges :
      List Die → List (ℕ × InlineEdge) → Result (List (ℕ × InlineEdge))
  unfolding inline_edge_of insert_entry
  collect_cu_inline_edges [] res = ok res
  collect_cu_inline_edges (die ∷ dies) res = do
    found ← inline_edge_of die
    collect_cu_inline_edges dies (insert_some found res)
