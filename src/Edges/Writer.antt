-- ===== src/Edges/Writer.antt =====
-- src/Edges/Writer.h and Writer.cpp: `GraphWriter` and `FunctionWriter`, up to the arrays that
-- `writeTo` compresses. A `FunctionWriter` refers to its `GraphWriter`: its methods take and return
-- both records. Numbers are `uint32_t` words unless a comment says otherwise.
use bracelet.Prelude.{
  ℕ, ◌+◌, ◌-◌, ◌*◌, ◌%◌, ◌^◌, bit_or, Bool, true, false, not, ◌&&◌, Option, none, some, List, [],
  ◌∷◌, ◌++◌, Result, ok, ◌>>=◌, ◌>>◌, assert, ltb, ◌==◌, if◌then◌else◌, length,
}
use bracelet.Edges.Bytes.{Text, equal}
use bracelet.Edges.Node.{Node, of_local, symbol, local_idx}
use bracelet.Edges.Kind.{
  Shape, singleton, indexed, Kind, shape, any_edge, Label, Edge, EdgeTuple, visit_tuple, modify,
}
use bracelet.Edges.Encoding.{zigzag_encode}
use bracelet.Edges.Table.{find}
use bracelet.Edges.Symbols.{GlobalValue, Comdat, SymbolTable, no_symbols, add_symbol}
use bracelet.Edges.Strings.{StringTable, no_strings, add_string}

pub record SbomInformation : Type 0 where
  pub component_name : Text
  pub version : Text

-- What the code asks LLVM of a function: its value, and the directory and name of its source file.
pub record Function : Type 0 where
  pub value : GlobalValue
  pub file : Option (Text × Text)

-- `std::array<uint32_t, NUM_COMPONENTS>`
pub record Row (s : Shape) : Type 0 where
  pub to : ℕ
  pub from : ℕ
  pub label : Label s

-- `EdgeStorage<E>::data`
abbrev pub Storage : Kind → Type 0
Storage k = List (Row (shape k))

pub record GraphWriter : Type 0 where
  pub strings : StringTable
  pub symbols : SymbolTable
  pub local_names : List ℕ
  pub function_data : List ℕ
  pub sbom_info : Option SbomInformation
  pub file_to_sbom_info : List (Text × SbomInformation)
  pub record_debug_data : Bool
  pub num_functions : ℕ
  pub output_comdat : Option Comdat
  pub has_active_function_writer : Bool

pub record FunctionWriter : Type 0 where
  pub this_symbol_idx : ℕ
  pub sbom_component_idx : ℕ
  pub sbom_version_idx : ℕ
  pub written : Bool
  pub record_debug_data : Bool
  pub num_locals : ℕ
  pub edges : EdgeTuple Storage

-- The constructors of `GraphWriter`; the shorter one has no SBOM information.
unfoldable pub new_graph :
    Option Comdat → Option SbomInformation → List (Text × SbomInformation) → Bool → GraphWriter
new_graph comdat sbom files record_debug_data = record {
  strings = no_strings;
  symbols = no_symbols;
  local_names = [];
  function_data = [];
  sbom_info = sbom;
  file_to_sbom_info = files;
  record_debug_data = record_debug_data;
  num_functions = 0;
  output_comdat = comdat;
  has_active_function_writer = false;
}

-- `as_u32`
unfoldable pub as_u32 : ℕ → Result ℕ
as_u32 x = assert (ltb x (2 ^ 32)) >> ok x

-- `GraphWriter::symbol`
unfoldable pub graph_symbol : GlobalValue → GraphWriter → Result (Node × GraphWriter)
graph_symbol gv gw = do
  (n, t) ← add_symbol gw.output_comdat gv gw.symbols
  ok (n, record gw { symbols = t })

-- `GraphWriter::string`
unfoldable pub graph_string : Text → GraphWriter → ℕ × GraphWriter
graph_string s gw = let (i, t) = add_string s gw.strings in (i, record gw { strings = t })

-- `getSbomInfoOfFunction`; `weakly_canonical` makes one path of a directory and a name.
unfoldable pub sbom_info_of_function :
    (Text → Text → Text) → Function → GraphWriter → Option SbomInformation
sbom_info_of_function weakly_canonical f gw = elim f.file [
  | none ↦ gw.sbom_info
  | some (dir, file) ↦ elim (find equal (weakly_canonical dir file) gw.file_to_sbom_info) [
    | some info ↦ some info
    | none ↦ gw.sbom_info
  ]
]

-- The two indices that a function's record names: of its component and its version.
unfoldable pub sbom_indices : Option SbomInformation → GraphWriter → ℕ × ℕ × GraphWriter
unfolding graph_string
sbom_indices (some info) gw =
    let (c, gw₁) = graph_string info.component_name gw in
    let (v, gw₂) = graph_string info.version gw₁ in (c, v, gw₂)
sbom_indices none gw = let (e, gw₁) = graph_string [] gw in (e, e, gw₁)

-- The constructor of `FunctionWriter`.
unfoldable pub new_function :
    (Text → Text → Text) → Function → Bool → GraphWriter → Result (FunctionWriter × GraphWriter)
unfolding graph_symbol sbom_info_of_function sbom_indices
new_function weakly_canonical f record_debug_data gw = do
  assert (not gw.has_active_function_writer)
  (n, gw₁) ← graph_symbol f.value (record gw {
    has_active_function_writer = true;
    num_functions = (gw.num_functions + 1) % 2 ^ 32;
  })
  this ← symbol n
  let info = sbom_info_of_function weakly_canonical f gw₁
  let indices = sbom_indices info gw₁
  ok (
    record {
      this_symbol_idx = this;
      sbom_component_idx = indices.0;
      sbom_version_idx = indices.1;
      written = false;
      record_debug_data = record_debug_data;
      num_locals = 0;
      edges = ([], ([], ([], ([], ([], ([], ([], ([], tt))))))));
    },
    indices.2,
  )

unfoldable pub fresh_local :
    Text → FunctionWriter → GraphWriter → Result (Node × FunctionWriter × GraphWriter)
unfolding graph_string
fresh_local name fw gw = do
  let fw₁ = record fw { num_locals = (fw.num_locals + 1) % 2 ^ 32 }
  let named = graph_string name gw
  let gw₁ =
      if fw.record_debug_data
      then record (named.1) { local_names = gw.local_names ++ named.0 ∷ [] }
      else gw
  n ← of_local fw.this_symbol_idx fw.num_locals
  ok (n, fw₁, gw₁)

-- `static_cast<uint32_t>(*Local) << 1`, or the low word of the 64-bit `(symbol << 1) | 1`.
unfoldable pub encode_node : ℕ → Node → Result ℕ
encode_node this n = do
  l ← local_idx n
  s ← symbol n
  elim l [
    | some i ↦ assert (s == this) >> ok (i * 2 % 2 ^ 32)
    | none ↦ ok (bit_or (s * 2 % 2 ^ 64) 1 % 2 ^ 32)
  ]

-- What `addEdge` pushes to the storage of the edge's kind.
unfoldable pub encode_edge : (s : Shape) → ℕ → Edge s → Result (Row s)
unfolding encode_node
encode_edge s this e = do
  to ← encode_node this e.to
  from ← encode_node this e.from
  ok (record { to = to; from = from; label = e.label })

unfoldable pub add_edge : (k : Kind) → Edge (shape k) → FunctionWriter → Result FunctionWriter
unfolding encode_edge
add_edge k e fw = do
  row ← encode_edge (shape k) fw.this_symbol_idx e
  ok (record fw { edges = modify Storage k (λ rows. rows ++ row ∷ []) fw.edges })

-- The comparison that `finish` hands to the sort.
unfoldable pub row_less : (s : Shape) → Row s → Row s → Bool
row_less singleton x y = ltb x.to y.to && ltb x.from y.from
row_less indexed x y = ltb x.to y.to && ltb x.from y.from && ltb x.label y.label

-- What stands behind the two deltas.
abbrev pub label_words : (s : Shape) → Label s → List ℕ
label_words singleton label = []
label_words indexed label = label ∷ []

-- The loop over a kind's edges: one running value for both ends, and wrapping differences.
unfoldable pub encode_rows : (s : Shape) → ℕ → List (Row s) → List ℕ
encode_rows s previous_value [] = []
encode_rows s previous_value (edge ∷ rest) =
    zigzag_encode ((edge.to + 2 ^ 32 - previous_value) % 2 ^ 32)
    ∷ zigzag_encode ((edge.from + 2 ^ 32 - edge.to) % 2 ^ 32)
    ∷ (label_words s edge.label ++ encode_rows s edge.from rest)

-- `pdqsort_branchless` of Boost, which takes the comparison.
abbrev pub Sort : Type 0
Sort = (s : Shape) → (Row s → Row s → Bool) → List (Row s) → List (Row s)

module _ (sort : Sort) where
  -- One kind's edges: sorted in place, counted, and encoded at the end of the data.
  unfoldable pub finish_kind : (k : Kind) → Storage k → List ℕ → Result (Storage k × List ℕ)
  unfolding as_u32
  finish_kind k rows data_words = do
    let sorted = sort (shape k) (row_less (shape k)) rows
    count ← as_u32 (length sorted)
    ok (sorted, data_words ++ count ∷ encode_rows (shape k) 0 sorted)

  unfoldable pub finish : ℕ → FunctionWriter → GraphWriter → Result (FunctionWriter × GraphWriter)
  unfolding as_u32
  finish num_allocas fw gw = do
    assert (not fw.written)
    this ← as_u32 fw.this_symbol_idx
    let head = this ∷ fw.sbom_component_idx ∷ fw.sbom_version_idx ∷ fw.num_locals ∷ num_allocas ∷ []
    (edges, words) ← visit_tuple finish_kind any_edge fw.edges (gw.function_data ++ head)
    ok (
      record fw { written = true; edges = edges },
      record gw { has_active_function_writer = false; function_data = words },
    )
