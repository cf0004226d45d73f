-- ===== src/BraceletEdges/Pages.antt =====
-- src/bracelet-edges/bracelet-edges.cpp, `visit_edge`, with the list of pages that `dlsym` has filled,
-- and the functions of `mainResult`'s callback. A page is its next pointer, its count and 2046 words.
pub mod Chain
use bracelet.Prelude.{
  ℕ, zero, suc, ◌+◌, ◌%◌, ◌^◌, Bool, true, false, Option, none, some, List, [], ◌∷◌, ◌++◌, Result,
  ok, err, assertion, out_of_fuel, undefined, page_not_symbol, ◌>>=◌, ◌>>◌, assert, ensure,
  for_each, ltb, ◌==◌, if◌then◌else◌, take, not,
}
use bracelet.Edges.Bytes.{Text}
use bracelet.Edges.Node.{Node, of_symbol, symbol, local_idx}
use bracelet.Edges.Kind.{
  Kind, assign, load, store, call, return, argument_definition, argument_supply, dlsym_page_pointer,
  shape, Edge, make_edge, singleton,
}
use bracelet.Edges.Reader.{FunctionInfo, visit_all_edges}
use bracelet.Edges.Strings.{GraphDebugData}
use bracelet.Edges.Writer.{SbomInformation}
use bracelet.Tracing.Simplify.{number_of_bytes}
use bracelet.BraceletEdges.Visitor.{
  Facts, PrintingOptions, EdgeOutputVisitor, Tables, no_tables, print_node, print_singleton_edge,
  print_indexed_edge,
}

abbrev pub pointers_per_page : ℕ
pointers_per_page = 2046

-- The one pointer of a span of one.
abbrev one_pointer : List ℕ → Result ℕ
one_pointer [] = err undefined
one_pointer (p ∷ ps) = ok p

abbrev pub min_of : ℕ → ℕ → ℕ
min_of a b = if ltb b a then b else a

module _ (facts : Facts) where
  unfoldable pub pointer_at : ℕ → Result ℕ
  pointer_at addr = facts.resolve_pointers 1 addr >>= one_pointer

  -- The pointers that a page has.
  unfoldable pub page_pointers : ℕ → Result (List ℕ)
  unfolding number_of_bytes
  page_pointers page = do
    count ← facts.copy_data 8 ((page + 8) % 2 ^ 64)
    pointers ← facts.resolve_pointers pointers_per_page ((page + 16) % 2 ^ 64)
    ok (take (min_of (number_of_bytes count) pointers_per_page) pointers)

  module _ (options : PrintingOptions) where
    unfoldable pub assign_symbol : Node → ℕ → EdgeOutputVisitor → Result EdgeOutputVisitor
    unfolding of_symbol make_edge print_singleton_edge
    assign_symbol dlsym_output pointer v = do
      source ← of_symbol pointer
      edge ← make_edge singleton dlsym_output source tt
      print_singleton_edge facts options assign edge.to edge.from v

    -- The loop over the pages; nothing bounds it but the end of the list.
    unfoldable pub visit_pages : ℕ → Node → ℕ → EdgeOutputVisitor → Result EdgeOutputVisitor
    unfolding page_pointers pointer_at assign_symbol
    visit_pages zero dlsym_output page v = err out_of_fuel
    visit_pages (suc fuel) dlsym_output page v = elim (page == 0) [
      | true ↦ ok v
      | false ↦ do
        pointers ← page_pointers page
        v' ← for_each (assign_symbol dlsym_output) pointers v
        next ← pointer_at page
        visit_pages fuel dlsym_output next v'
    ]

    abbrev is_none : Option ℕ → Bool
    is_none none = true
    is_none (some x) = false

    unfoldable pub visit_dlsym : ℕ → Node → Node → EdgeOutputVisitor → Result EdgeOutputVisitor
    unfolding visit_pages pointer_at
    visit_dlsym fuel dlsym_output page_ptr v = do
      local ← local_idx page_ptr
      ensure (is_none local) page_not_symbol
      s ← symbol page_ptr
      page ← pointer_at s
      v' ← visit_pages fuel dlsym_output page v
      print_singleton_edge facts options dlsym_page_pointer dlsym_output page_ptr v'

    unfoldable pub visit_edge :
        ℕ → (k : Kind) → Edge (shape k) → EdgeOutputVisitor → Result EdgeOutputVisitor
    unfolding shape visit_dlsym
    visit_edge fuel dlsym_page_pointer e v = visit_dlsym fuel e.to e.from v
    visit_edge fuel call e v =
        if options.print_call_argument_count
        then print_indexed_edge facts options call e.to e.from e.label v
        else print_singleton_edge facts options call e.to e.from v
    visit_edge fuel argument_definition e v =
        print_indexed_edge facts options argument_definition e.to e.from e.label v
    visit_edge fuel argument_supply e v =
        print_indexed_edge facts options argument_supply e.to e.from e.label v
    visit_edge fuel assign e v = print_singleton_edge facts options assign e.to e.from v
    visit_edge fuel load e v = print_singleton_edge facts options load e.to e.from v
    visit_edge fuel store e v = print_singleton_edge facts options store e.to e.from v
    visit_edge fuel return e v = print_singleton_edge facts options return e.to e.from v

    unfoldable pub print_sbom_info :
        Option SbomInformation → Node → EdgeOutputVisitor → Result EdgeOutputVisitor
    unfolding print_node
    print_sbom_info none function v = ok v
    print_sbom_info (some info) function v = do
      text ← print_node facts options function v
      let row = text ∷ info.component_name ∷ info.version ∷ []
      ok (record v { tables = record v.tables { sbom_table = v.tables.sbom_table ++ row ∷ [] } })

    -- Opening a table empties it.
    unfoldable pub enter_function :
        Node
        → ℕ
        → GraphDebugData
        → Option SbomInformation
        → EdgeOutputVisitor
        → Result EdgeOutputVisitor
    unfolding print_sbom_info
    enter_function function num_allocas debug_data sbominfo v = do
      s ← symbol function
      name ← facts.symbol_name s
      assert (not v.is_open)
      print_sbom_info sbominfo function (record v {
        function = function;
        num_allocas = num_allocas;
        debug_data = debug_data;
        function_name = name;
        seen_nodes = [];
        is_open = true;
        tables = no_tables;
      })

  unfoldable pub exit_function : EdgeOutputVisitor → Result EdgeOutputVisitor
  exit_function v = do
    assert v.is_open
    s ← symbol v.function
    ok (record v { is_open = false; outputs = v.outputs ++ (s, v.function_name, v.tables) ∷ [] })

  -- The callback of `mainResult`, for each function that is read.
  unfoldable pub visit_function :
      PrintingOptions → ℕ → FunctionInfo → EdgeOutputVisitor → Result EdgeOutputVisitor
  unfolding enter_function visit_edge exit_function
  visit_function options fuel info v = do
    v₁ ← enter_function options info.function info.num_allocas info.debug_data info.sbom_info v
    v₂ ← visit_all_edges (visit_edge options fuel) info v₁
    exit_function v₂
