-- ===== src/BraceletEdges/Visitor.antt =====
-- src/bracelet-edges/bracelet-edges.cpp, `EdgeOutputVisitor`.
pub mod Once
pub mod Seen
use bracelet.Prelude.{
  ℕ, zero, suc, ◌+◌, ◌*◌, ◌%◌, ◌^◌, Bool, true, false, not, Option, none, some, List, [], ◌∷◌, ◌++◌,
  Result, Error, ok, err, assertion, undefined, out_of_fuel, page_not_symbol, ◌>>=◌, ◌>>◌, assert,
  ensure, for_each, ltb, ◌==◌, if◌then◌else◌, map, replicate, take,
}
use bracelet.Edges.Bytes.{Text}
use bracelet.Edges.Table.{find}
use bracelet.Edges.Node.{Node, empty, equal, of_symbol, symbol, local_idx}
use bracelet.Edges.Kind.{
  Kind, assign, load, store, call, return, argument_definition, argument_supply, dlsym_page_pointer,
  Shape, singleton, indexed, Label, shape, Edge, EdgeTuple, modify, make_edge,
}
use bracelet.Edges.Strings.{GraphDebugData, local_name}
use bracelet.Edges.Writer.{SbomInformation}
use bracelet.Tracing.Simplify.{number_of_bytes}
use bracelet.BraceletEdges.Format.{format_hex, decimal, print_node_pure}
use bracelet.BraceletEdges.Locations.{
  SourceLocation, AddressRange, SourceLocationMap, position_of, same_location, addresses_of,
}

-- A table of facts: its rows, each a list of columns.
abbrev pub Rows : Type 0
Rows = List (List Text)

pub record Tables : Type 0 where
  pub debug_table : Rows
  pub sbom_table : Rows
  pub is_symbol : Rows
  pub is_alloca : Rows
  pub value_name : Rows
  pub starred : Rows
  pub enclosing_function_for_local : Rows
  pub node_instructions : Rows
  pub output_tables : EdgeTuple (λ k. Rows)

abbrev pub no_tables : Tables
no_tables = record {
  debug_table = [];
  sbom_table = [];
  is_symbol = [];
  is_alloca = [];
  value_name = [];
  starred = [];
  enclosing_function_for_local = [];
  node_instructions = [];
  output_tables = ([], ([], ([], ([], ([], ([], ([], ([], tt))))))));
}

pub record PrintingOptions : Type 0 where
  pub pretty_edges : Bool
  pub print_call_argument_count : Bool

-- What the visitor asks of `object_parsing::Object`, and of `absl::SimpleAtoi`.
pub record Facts : Type 0 where
  pub symbol_name : ℕ → Result Text
  pub copy_data : ℕ → ℕ → Result Text
  pub resolve_pointers : ℕ → ℕ → Result (List ℕ)
  pub slm : Option SourceLocationMap
  pub simple_atoi : Text → Option ℕ

-- `outputs` are the directories that were written, one for each function.
pub record EdgeOutputVisitor : Type 0 where
  pub seen_nodes : List Node
  pub is_open : Bool
  pub tables : Tables
  pub function : Node
  pub function_name : Text
  pub num_allocas : ℕ
  pub debug_data : GraphDebugData
  pub outputs : List (ℕ × Text × Tables)

abbrev pub star_count : ℕ
star_count = 3

unfoldable pub holds_node : Node → List Node → Bool
unfolding equal
holds_node n [] = false
holds_node n (m ∷ ms) = if equal n m then true else holds_node n ms

abbrev pub stars : ℕ → Text
stars n = replicate n 42

module _ (facts : Facts) (options : PrintingOptions) where
  -- "<DebugDataMissing>"
  abbrev debug_data_missing : Text
  debug_data_missing =
      60 ∷ 68 ∷ 101 ∷ 98 ∷ 117 ∷ 103 ∷ 68 ∷ 97 ∷ 116 ∷ 97 ∷ 77 ∷ 105 ∷ 115 ∷ 115 ∷ 105 ∷ 110 ∷ 103
      ∷ 62 ∷ []

  -- The name of a local, which is one of the function's.
  unfoldable pub local_text : Node → ℕ → EdgeOutputVisitor → Result Text
  local_text n idx v = elim v.debug_data.local_indices [
    | none ↦ ok debug_data_missing
    | some indices ↦ do
      s ← symbol n
      own ← symbol v.function
      assert (s == own)
      local_name v.debug_data idx
  ]

  -- "<UnknownSymbol>" for no name.
  abbrev pub known_name : Text → Text
  known_name [] =
      60 ∷ 85 ∷ 110 ∷ 107 ∷ 110 ∷ 111 ∷ 119 ∷ 110 ∷ 83 ∷ 121 ∷ 109 ∷ 98 ∷ 111 ∷ 108 ∷ 62 ∷ []
  known_name (x ∷ xs) = x ∷ xs

  -- " -> " comes before the name of a local.
  unfoldable pub print_debug_node : Node → EdgeOutputVisitor → Result Text
  unfolding local_text
  print_debug_node n v = do
    s ← symbol n
    symbol_name ← facts.symbol_name s
    local ← local_idx n
    elim local [
      | none ↦ ok (known_name symbol_name)
      | some idx ↦
          local_text n idx v >>= λ name. ok (known_name symbol_name ++ 32 ∷ 45 ∷ 62 ∷ 32 ∷ name)
    ]

  unfoldable pub print_node : Node → EdgeOutputVisitor → Result Text
  unfolding print_debug_node
  print_node n v = if options.pretty_edges then print_debug_node n v else print_node_pure n

  unfoldable pub print_starred_node : ℕ → Node → EdgeOutputVisitor → Result Text
  unfolding print_node
  print_starred_node count n v = print_node n v >>= λ text. ok (stars count ++ text)

  -- '$' comes before the last.
  unfoldable pub print_final_starred_node : Node → EdgeOutputVisitor → Result Text
  unfolding print_starred_node
  print_final_starred_node n v = print_starred_node star_count n v >>= λ text. ok (36 ∷ text)

  -- The rows of the tables of a node, but for its stars and its addresses.
  unfoldable pub emit_kind : Node → EdgeOutputVisitor → Result EdgeOutputVisitor
  unfolding print_node
  emit_kind n v = do
    local ← local_idx n
    text ← print_node n v
    let t = v.tables
    elim local [
      | none ↦ ok (record v { tables = record t { is_symbol = t.is_symbol ++ (text ∷ []) ∷ [] } })
      | some idx ↦ do
        own ← print_node v.function v
        ok (record v {
          tables = record t {
            is_alloca =
                if ltb idx v.num_allocas then t.is_alloca ++ (text ∷ []) ∷ [] else t.is_alloca;
            enclosing_function_for_local = t.enclosing_function_for_local ++ (own ∷ text ∷ []) ∷ [];
          };
        })
    ]

  -- A symbol without a name has no row, and a warning is logged.
  unfoldable pub emit_debug : Node → EdgeOutputVisitor → Result EdgeOutputVisitor
  unfolding print_node print_debug_node
  emit_debug n v = do
    s ← symbol n
    elim (facts.symbol_name s) [
      | err reason ↦ ok v
      | ok name ↦ do
        text ← print_node n v
        debug ← print_debug_node n v
        pure ← print_node_pure n
        let rows = v.tables.debug_table ++ (text ∷ debug ∷ []) ∷ []
        let more = if options.pretty_edges then rows ++ (pure ∷ debug ∷ []) ∷ [] else rows
        ok (record v { tables = record v.tables { debug_table = more } })
    ]

  unfoldable pub star_rows : ℕ → Node → EdgeOutputVisitor → Result EdgeOutputVisitor
  unfolding print_starred_node
  star_rows count n v = do
    next ← print_starred_node (count + 1) n v
    this ← print_starred_node count n v
    text ← print_node n v
    let t = v.tables
    ok (record v {
      tables = record t {
        starred = t.starred ++ (next ∷ this ∷ []) ∷ [];
        value_name = t.value_name ++ (text ∷ this ∷ []) ∷ [];
      };
    })

  -- What follows the loop over the stars.
  unfoldable pub final_stars : Node → EdgeOutputVisitor → Result EdgeOutputVisitor
  unfolding print_final_starred_node
  final_stars n v = do
    final ← print_final_starred_node n v
    last ← print_starred_node star_count n v
    text ← print_node n v
    let t = v.tables
    ok (record v {
      tables = record t {
        starred = t.starred ++ (final ∷ last ∷ []) ∷ (final ∷ final ∷ []) ∷ [];
        value_name = t.value_name ++ (text ∷ final ∷ []) ∷ [];
      };
    })

  unfoldable pub emit_stars : Node → EdgeOutputVisitor → Result EdgeOutputVisitor
  unfolding star_rows final_stars
  emit_stars n v = for_each (λ count. star_rows count n) (0 ∷ 1 ∷ 2 ∷ []) v >>= final_stars n

  unfoldable pub instruction_rows : Text → List ℕ → Rows
  unfolding format_hex
  instruction_rows text [] = []
  instruction_rows text (addr ∷ addrs) = (format_hex addr ∷ text ∷ []) ∷ instruction_rows text addrs

  unfoldable pub print_addresses :
      Node
      → SourceLocationMap
      → Option SourceLocation
      → EdgeOutputVisitor
      → Result EdgeOutputVisitor
  unfolding print_node instruction_rows find addresses_of same_location
  print_addresses n slm none v = ok v
  print_addresses n slm (some position) v = elim (find same_location position slm) [
    | none ↦ ok v
    | some ranges ↦ do
      addrs ← addresses_of ranges
      text ← print_node n v
      let t = v.tables
      ok (record v {
        tables = record t {
          node_instructions = t.node_instructions ++ instruction_rows text addrs;
        };
      })
  ]

  unfoldable pub emit_addresses : Node → EdgeOutputVisitor → Result EdgeOutputVisitor
  unfolding print_addresses position_of
  emit_addresses n v = elim facts.slm [
    | none ↦ ok v
    | some slm ↦ local_idx n >>= λ local. elim local [
      | none ↦ ok v
      | some idx ↦ elim v.debug_data.local_indices [
        | none ↦ ok v
        | some indices ↦ do
          name ← local_name v.debug_data idx
          position ← position_of facts.simple_atoi name
          print_addresses n slm position v
      ]
    ]
  ]

  unfoldable pub emit_own : Node → EdgeOutputVisitor → Result EdgeOutputVisitor
  unfolding emit_kind emit_debug emit_stars emit_addresses
  emit_own n v = emit_kind n v >>= emit_debug n >>= emit_stars n >>= emit_addresses n

  -- The call for the symbol comes back at its own call for the symbol, so a depth of three is enough.
  unfoldable pub emit_at_depth : ℕ → Node → EdgeOutputVisitor → Result EdgeOutputVisitor
  unfolding holds_node emit_own
  emit_at_depth zero n v = err out_of_fuel
  emit_at_depth (suc fuel) n v = elim (holds_node n v.seen_nodes) [
    | true ↦ ok v
    | false ↦ do
      s ← symbol n
      symbol_node ← of_symbol s
      v' ← emit_at_depth fuel symbol_node (record v { seen_nodes = n ∷ v.seen_nodes })
      emit_own n v'
  ]

  unfoldable pub emit_node_info : Node → EdgeOutputVisitor → Result EdgeOutputVisitor
  unfolding emit_at_depth
  emit_node_info n v = emit_at_depth 3 n v

  unfoldable pub add_row : Kind → List Text → EdgeOutputVisitor → EdgeOutputVisitor
  unfolding modify
  add_row kind row v = record v {
    tables = record v.tables {
      output_tables = modify (λ k. Rows) kind (λ rows. rows ++ row ∷ []) v.tables.output_tables;
    };
  }

  unfoldable pub print_singleton_edge :
      Kind → Node → Node → EdgeOutputVisitor → Result EdgeOutputVisitor
  unfolding print_node add_row emit_node_info
  print_singleton_edge kind to from v = do
    to_text ← print_node to v
    from_text ← print_node from v
    v' ← emit_node_info to (add_row kind (to_text ∷ from_text ∷ []) v)
    emit_node_info from v'

  unfoldable pub print_indexed_edge :
      Kind → Node → Node → ℕ → EdgeOutputVisitor → Result EdgeOutputVisitor
  unfolding print_node add_row emit_node_info decimal
  print_indexed_edge kind to from idx v = do
    to_text ← print_node to v
    from_text ← print_node from v
    v' ← emit_node_info to (add_row kind (to_text ∷ from_text ∷ decimal idx ∷ []) v)
    emit_node_info from v'
