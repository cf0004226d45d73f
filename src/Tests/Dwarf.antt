-- ===== src/Tests/Dwarf.antt =====
-- Examples for src/ObjectParsing/ObjectParsing.cpp: one labelled call site, in an inlined function.
use bracelet.Prelude.{
  ℕ, ◌-◌, ◌%◌, ◌^◌, ◌<◌, ◌≡◌, refl, true, false, Option, none, some, List, [], ◌∷◌, ◌++◌, Result,
  ok, arith,
}
use bracelet.Edges.Bytes.{Text}
use bracelet.Edges.Section.{has_prefix}
use bracelet.Edges.Node.{of_local, of_symbol}
use bracelet.ObjectParsing.Dwarf.{
  Die, label, inlined_subroutine, CallsiteEdge, InlineEdge, label_prefix, label_name, back, least,
  subprogram, parse_node_id_from_name, label_record, dwarf_label_die_to_record, label_of,
  insert_entry, collect_cu_labels, inliner, inline_edge_of, collect_cu_inline_edges,
}
use bracelet.ObjectParsing.Dwarf.Owners.{collect_cu-owned}
use bracelet.ObjectParsing.Dwarf.Order.{IsOrdered, AllOwned}
use bracelet.Tests.Static.{value_of}

abbrev as_integer : Text → Option ℕ
as_integer text = some 3

abbrev load_address : ℕ → Result ℕ
load_address addr = ok (addr % 2 ^ 48)

load_address_is_small : (a b : ℕ) → load_address a ≡ ok b → b < 2 ^ 64 - 1
load_address_is_small a b e = let same : a % 2 ^ 48 ≡ b = cc e in omega (arith, same)

abbrev dies : List Die
dies =
    record {
      tag = label;
      name = some (ok (label_prefix ++ 51 ∷ []));
      low_pc = some 4100;
      inlined_chain = some 8192 ∷ some 4096 ∷ [];
      has_abstract_origin = false;
      linkage_name = none;
      parents = [];
    }
    ∷ record {
      tag = inlined_subroutine;
      name = none;
      low_pc = none;
      inlined_chain = [];
      has_abstract_origin = true;
      linkage_name = some (102 ∷ []);
      parents = (false, ok []) ∷ (true, ok (4200 ∷ 4096 ∷ [])) ∷ [];
    }
    ∷ []

abbrev labels : List (ℕ × CallsiteEdge)
labels = value_of [] (collect_cu_labels as_integer load_address dies [])

abbrev inlines : List (ℕ × InlineEdge)
inlines = value_of [] (collect_cu_inline_edges as_integer load_address dies [])

labels_collected : collect_cu_labels as_integer load_address dies [] ≡ ok labels
unfolding collect_cu_labels label_of label_name has_prefix dwarf_label_die_to_record label_record
    back parse_node_id_from_name of_local insert_entry
labels_collected = refl

inlines_collected : collect_cu_inline_edges as_integer load_address dies [] ≡ ok inlines
unfolding collect_cu_inline_edges inline_edge_of subprogram inliner least of_symbol insert_entry
inlines_collected = refl

collect_cu-owned_example :
    IsOrdered labels
    × IsOrdered inlines
    × AllOwned (λ e. e.node_id) labels
    × AllOwned (λ e. e.inliner_id) inlines
collect_cu-owned_example =
    collect_cu-owned as_integer load_address load_address_is_small dies labels inlines
      labels_collected inlines_collected
