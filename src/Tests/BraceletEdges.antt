-- ===== src/Tests/BraceletEdges.antt =====
-- Examples for src/bracelet-edges/bracelet-edges.cpp: an object with one page of one pointer.
use bracelet.Prelude.{
  IsIn, ◌⊎◌, inl, Result, ◌==◌, ℕ, ◌≡◌, ◌↔◌, refl, true, false, Option, none, some, [], ◌∷◌, ok,
  ◌>>=◌, for_each, arith, if◌then◌else◌,
}
use bracelet.Edges.Bytes.{Text}
use bracelet.Edges.Node.{Node}
use bracelet.Edges.Node.Laws.{node}
use bracelet.Tracing.Simplify.{number_of_bytes}
use bracelet.BraceletEdges.Format.{print_node_pure}
use bracelet.BraceletEdges.Format.Print.{print_node_pure-injective}
use bracelet.BraceletEdges.Visitor.{
  Facts, PrintingOptions, EdgeOutputVisitor, no_tables, emit_own, emit_node_info,
}
use bracelet.BraceletEdges.Visitor.Once.{mark, IsEmitted, emit_node_info-once}
use bracelet.BraceletEdges.Pages.{assign_symbol, visit_pages}
use bracelet.BraceletEdges.Pages.Chain.{Chain, last, page, visit_pages-for_each}

print_node_pure-injective_example :
    ((text : Text) × (print_node_pure (node 4096 (some 2)) ≡ ok text))
    × ((print_node_pure (node 4096 (some 2)) ≡ print_node_pure (node 4096 none))
        ↔ ((◌≡◌ {A = ℕ} 4096 4096) × (◌≡◌ {A = Option ℕ} (some 2) none)))
print_node_pure-injective_example =
    print_node_pure-injective 4096 4096 (some 2) none (omega arith) (omega arith) (omega arith)
      (omega arith)

abbrev facts : Facts
facts = record {
  symbol_name = λ addr. ok (109 ∷ []);
  copy_data = λ n addr. ok (1 ∷ 0 ∷ 0 ∷ 0 ∷ 0 ∷ 0 ∷ 0 ∷ 0 ∷ []);
  resolve_pointers = λ n addr. ok (if n == 1 then 0 ∷ [] else 0 ∷ 7 ∷ []);
  slm = none;
  simple_atoi = λ text. none;
}

abbrev options : PrintingOptions
options = record { pretty_edges = false; print_call_argument_count = true }

abbrev visitor : EdgeOutputVisitor
visitor = record {
  seen_nodes = [];
  is_open = true;
  tables = no_tables;
  function = node 4096 none;
  function_name = 109 ∷ [];
  num_allocas = 1;
  debug_data = record { string_blob = []; local_indices = none; offsets = [] };
  outputs = [];
}

emit_node_info-once_example :
    IsEmitted facts options
      (node 4096 none)
      visitor
      (emit_node_info facts options (node 4096 none) visitor)
    × ((IsIn (node 4096 (some 2)) visitor.seen_nodes
          × (emit_node_info facts options (node 4096 (some 2)) visitor ≡ ok visitor))
        ⊎ ((¬ IsIn (node 4096 (some 2)) visitor.seen_nodes)
            × ((r : Result EdgeOutputVisitor) × IsEmitted facts options
                  (node 4096 none)
                  (mark facts options (node 4096 (some 2)) visitor)
                  r
                × (emit_node_info facts options (node 4096 (some 2)) visitor
                    ≡ (r >>= emit_own facts options (node 4096 (some 2)))))))
    × ((n : Node) (v' : EdgeOutputVisitor)
        → emit_node_info facts options n visitor ≡ ok v'
        → emit_node_info facts options n v' ≡ ok v')
emit_node_info-once_example =
    emit_node_info-once facts options 4096 2 visitor (omega arith) (omega arith)

one_page : Chain facts 4096 1 (0 ∷ [])
unfolding number_of_bytes
one_page =
    page 4096 0 0 _ (0 ∷ []) (7 ∷ []) [] (λ h. absurd (omega (arith, h))) refl refl
      (inl (refl, omega arith)) refl last

visit_pages-for_each_example :
    visit_pages facts options 2 (node 4096 (some 2)) 4096 visitor
    ≡ for_each (assign_symbol facts options (node 4096 (some 2))) (0 ∷ []) visitor
visit_pages-for_each_example =
    visit_pages-for_each facts options (node 4096 (some 2)) 2 4096 1 (0 ∷ []) visitor one_page
      (omega arith)
