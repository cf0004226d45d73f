-- ===== src/Tests/RoundTrip.antt =====
-- Examples for the round trip of src/Edges: a function with a load and two calls.
use bracelet.Prelude.{
  ℕ, ◌+◌, ◌^◌, ◌<◌, ◌≡◌, refl, true, false, none, List, [], ◌∷◌, ◌++◌, Result, ok, Returns, arith,
  for_each,
}
use mathlib.Core.List.{Perm}
use mathlib.Core.List.Perm
use bracelet.Edges.Bytes.{c_string}
use bracelet.Edges.Node.Laws.{node}
use bracelet.Edges.Kind.{Shape, indexed, Kind, shape, any_edge, Edge, EdgeTuple, get}
use bracelet.Edges.Symbols.{no_symbols}
use bracelet.Edges.Strings.{GraphDebugData, no_strings, string}
use bracelet.Edges.Writer.{
  Row, Storage, GraphWriter, FunctionWriter, Sort, row_less, encode_node, encode_rows, finish,
}
use bracelet.Edges.Reader.{Frame, decode_node, read_function, sbom_of, visit_words, visit_edges}
use bracelet.Edges.Section.{GraphHeader, graph_magic_number, header_of_bytes}
use bracelet.Edges.Image.{AreFields, header_bytes, header_of_bytes-header_bytes}
use bracelet.Edges.RoundTrip.Rows.{AreWords, read_row, visit_words-encode_rows}
use bracelet.Edges.RoundTrip.Nodes.{own, to_node, place, decode_node-encode_node}
use bracelet.Edges.RoundTrip.Words.{at, AreCounted}
use bracelet.Edges.RoundTrip.Function.{is_strict_weak, Describes, visit_edges-finish}

abbrev texts : GraphDebugData
texts = record {
  string_blob = 104 ∷ 105 ∷ 0 ∷ 120 ∷ 0 ∷ [];
  local_indices = none;
  offsets = 0 ∷ 3 ∷ [];
}

abbrev frame : Frame
frame = record {
  num_functions = 1;
  function_data = [];
  symbol_addresses = 4096 ∷ 8192 ∷ [];
  debug_data = texts;
}

abbrev calls : List (Row indexed)
calls = record { to = 2; from = 1; label = 1 } ∷ record { to = 0; from = 3; label = 2 } ∷ []

-- The callback that counts the edges.
abbrev count : {s : Shape} → Edge s → ℕ → Result ℕ
count e n = ok (n + 1)

decode_node-encode_node_example :
    Returns
      (encode_node 1 (to_node 1 (own 6)))
      λ w. (w < 2 ^ 32) × (decode_node frame w 8192 ≡ place frame 8192 (own 6))
decode_node-encode_node_example =
    decode_node-encode_node frame 1 8192 (own 6) (omega arith) (omega arith)

calls-AreWords : AreWords calls
calls-AreWords = (omega arith, omega arith, (omega arith, omega arith, tt))

visit_words-encode_rows_example :
    visit_words indexed frame (node 8192 none) count 0 (encode_rows indexed 0 calls) 0
    ≡ for_each (read_row indexed frame (node 8192 none) count) calls 0
visit_words-encode_rows_example =
    visit_words-encode_rows indexed frame (node 8192 none) count 0 calls 0 (omega arith)
      calls-AreWords

abbrev edges : EdgeTuple Storage
unfolding shape
edges =
    ([], (record { to = 4; from = 1; label = tt } ∷ [], ([], (calls, ([], ([], ([], ([], tt))))))))

abbrev function_writer : FunctionWriter
function_writer = record {
  this_symbol_idx = 1;
  sbom_component_idx = 0;
  sbom_version_idx = 1;
  written = false;
  record_debug_data = false;
  num_locals = 3;
  edges = edges;
}

abbrev graph_writer : GraphWriter
graph_writer = record {
  strings = no_strings;
  symbols = no_symbols;
  local_names = [];
  function_data = 9 ∷ [];
  sbom_info = none;
  file_to_sbom_info = [];
  record_debug_data = false;
  num_functions = 1;
  output_comdat = none;
  has_active_function_writer = true;
}

-- A sort that leaves the rows where they are.
abbrev as_they_are : Sort
as_they_are s less rows = rows

function-Describes : Describes frame function_writer 2 8192 (104 ∷ 105 ∷ []) (120 ∷ [])
unfolding string c_string
function-Describes = record {
  symbol = refl;
  low = omega arith;
  allocas = omega arith;
  locals = tt;
  component_text = refl;
  version_text = refl;
}

edges-AreCounted : AreCounted as_they_are any_edge edges
unfolding shape
edges-AreCounted = omega arith

stored-AreWords : AreWords (get Storage Kind.call edges)
unfolding get shape
stored-AreWords = calls-AreWords

edges_are_weak : (j : Kind) → is_strict_weak (row_less (shape j)) (get Storage j edges) ≡ true
unfolding get shape row_less
edges_are_weak Kind.assign = refl
edges_are_weak Kind.load = refl
edges_are_weak Kind.store = refl
edges_are_weak Kind.call = refl
edges_are_weak Kind.return = refl
edges_are_weak Kind.argument_definition = refl
edges_are_weak Kind.argument_supply = refl
edges_are_weak Kind.dlsym_page_pointer = refl

visit_edges-finish_example : Returns (finish as_they_are 2 function_writer graph_writer) λ r.
    (words : List ℕ) × (r.1.function_data ≡ (9 ∷ []) ++ words)
    × Returns (read_function (at frame (words ++ 7 ∷ []))) λ q.
      (q.0.function ≡ node 8192 none)
      × (q.0.num_allocas ≡ 2)
      × (q.0.num_locals ≡ 3)
      × (q.0.sbom_info ≡ sbom_of (104 ∷ 105 ∷ []) (120 ∷ []))
      × (q.1.function_data ≡ 7 ∷ [])
      × ((rows : List (Row (shape Kind.call))) × Perm rows (get Storage Kind.call edges)
          × (visit_edges Kind.call q.0 count 0
              ≡ for_each (read_row (shape Kind.call) q.0.frame q.0.function count) rows 0))
visit_edges-finish_example =
    visit_edges-finish as_they_are 2 function_writer graph_writer frame 8192 (104 ∷ 105 ∷ [])
      (120 ∷ []) (7 ∷ []) Kind.call count 0 (λ s less rows weak. Perm.refl rows) edges_are_weak refl
      (omega arith) edges-AreCounted stored-AreWords function-Describes

abbrev header : GraphHeader
header = record {
  magic_number = graph_magic_number;
  function_data_compressed_size = 1234567;
  debug_data_compressed_size = 70000;
  num_symbols = 2;
  string_blob_length = 5;
  has_debug_locals = 1;
  total_num_locals = 3;
  num_functions = 1;
  function_array_length = 300;
}

header-AreFields : AreFields header
header-AreFields = record {
  magic = refl;
  function_size = omega arith;
  debug_size = omega arith;
  symbols = omega arith;
  blob = omega arith;
  has_locals = omega arith;
  locals = omega arith;
  functions = omega arith;
  array = omega arith;
}

header_of_bytes-header_bytes_example : header_of_bytes (header_bytes header) ≡ header
header_of_bytes-header_bytes_example = header_of_bytes-header_bytes header header-AreFields
