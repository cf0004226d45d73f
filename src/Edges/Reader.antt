-- ===== src/Edges/Reader.antt =====
-- src/Edges/Reader.h and Reader.cpp: a `Frame` with the words of one graph, the functions that
-- `readEdges` takes from it, and their edges. `function_data` of a frame is what is left to read.
-- A callback takes and returns a state; its error ends the visit.
use bracelet.Prelude.{
  ℕ, zero, suc, ◌+◌, ◌*◌, ◌/◌, ◌%◌, ◌^◌, bit_and, Option, none, some, List, [], ◌∷◌, Result, ok,
  err, ◌>>=◌, ◌>>◌, ensure, leb, ◌==◌, if◌then◌else◌, length, get_elem?, take, drop,
  symbol_out_of_bounds, end_of_function_data, local_range, too_many_allocas, undefined,
}
use bracelet.Edges.Bytes.{Text}
use bracelet.Edges.Node.{Node, of_symbol, of_local, symbol}
use bracelet.Edges.Kind.{
  Shape, singleton, indexed, Kind, shape, any_edge, Edge, make_edge, EdgeTuple, visit_tuple, get,
  num_components, Label,
}
use bracelet.Edges.Encoding.{zigzag_decode}
use bracelet.Edges.Strings.{GraphDebugData, string}
use bracelet.Edges.Writer.{SbomInformation}

pub record Frame : Type 0 where
  pub num_functions : ℕ
  pub function_data : List ℕ
  pub symbol_addresses : List ℕ
  pub debug_data : GraphDebugData

-- The words of one kind's edges.
abbrev pub EdgeData : Kind → Type 0
EdgeData k = List ℕ

pub record FunctionInfo : Type 0 where
  pub function : Node
  pub num_allocas : ℕ
  pub num_locals : ℕ
  pub debug_data : GraphDebugData
  pub sbom_info : Option SbomInformation
  pub edge_data : EdgeTuple EdgeData
  pub frame : Frame

unfoldable pub symbol_address : Frame → ℕ → Result ℕ
symbol_address f idx = elim (get_elem? f.symbol_addresses idx) [
  | none ↦ err symbol_out_of_bounds
  | some address ↦ ok address
]

unfoldable pub decode_node : Frame → ℕ → ℕ → Result Node
unfolding symbol_address
decode_node f number function_address =
    if bit_and number 1 == 1
    then (symbol_address f (number / 2) >>= of_symbol)
    else of_local function_address (number / 2)

unfoldable pub next_words : ℕ → Frame → Result (List ℕ × Frame)
next_words count f =
    ensure (leb count (length f.function_data)) end_of_function_data
    >> ok (take count f.function_data, record f { function_data = drop count f.function_data })

unfoldable pub next_word : Frame → Result (ℕ × Frame)
unfolding next_words
next_word f = do (out, f₁) ← next_words 1 f; elim out [ [] ↦ err undefined | w ∷ ws ↦ ok (w, f₁) ]

-- `debug_data_split_at`; the code calls it only where there are local indices.
unfoldable pub debug_data_split_at : GraphDebugData → ℕ → Result (GraphDebugData × GraphDebugData)
debug_data_split_at d pos = elim d.local_indices [
  | none ↦ err undefined
  | some indices ↦
      ensure (leb pos (length indices)) local_range
      >> ok (
        record d { local_indices = some (take pos indices) },
        record d { local_indices = some (drop pos indices) },
      )
]

unfoldable pub next_locals : ℕ → Frame → Result (GraphDebugData × Frame)
unfolding debug_data_split_at
next_locals num_locals f = elim f.debug_data.local_indices [
  | none ↦ ok (f.debug_data, f)
  | some _ ↦ do
    (out, rest) ← debug_data_split_at f.debug_data num_locals
    ok (out, record f { debug_data = rest })
]

-- One kind's part of a function: the count, and that many edges of words; the product is a `size_t`.
unfoldable pub read_kind : (k : Kind) → List ℕ → Frame → Result (List ℕ × Frame)
unfolding next_word
read_kind k old f = do
  (edge_count, f₁) ← next_word f
  next_words (num_components (shape k) * edge_count) f₁

abbrev pub no_edge_data : EdgeTuple EdgeData
no_edge_data = ([], ([], ([], ([], ([], ([], ([], ([], tt))))))))

unfoldable pub sbom_of : Text → Text → Option SbomInformation
sbom_of [] version = none
sbom_of component [] = none
sbom_of component version = some (record { component_name = component; version = version })

-- The body of the loop of `readEdges`, up to the callback.
unfoldable pub read_function : Frame → Result (FunctionInfo × Frame)
read_function f = do
  (function_symbol_index, f₁) ← next_word f
  (component_string_index, f₂) ← next_word f₁
  (version_string_index, f₃) ← next_word f₂
  function_address ← symbol_address f₃ function_symbol_index
  (num_locals, f₄) ← next_word f₃
  (num_allocas, f₅) ← next_word f₄
  ensure (leb num_allocas num_locals) too_many_allocas
  (debug_data, f₆) ← next_locals num_locals f₅
  function ← of_symbol function_address
  component ← string debug_data component_string_index
  version ← string debug_data version_string_index
  (edge_data, f₇) ← visit_tuple read_kind any_edge no_edge_data f₆
  ok (
    record {
      function = function;
      num_allocas = num_allocas;
      num_locals = num_locals;
      debug_data = debug_data;
      sbom_info = sbom_of component version;
      edge_data = edge_data;
      frame = f₇;
    },
    f₇,
  )

-- The functions of a frame, each handed to the callback.
unfoldable pub read_functions :
    {S : Type 0} → (FunctionInfo → S → Result S) → ℕ → Frame → S → Result S
read_functions callback zero f s = ok s
read_functions callback (suc n) f s = do
  (info, f') ← read_function f
  s' ← callback info s
  read_functions callback n f' s'

-- The callback of `runOnSection` in `readEdges`.
unfoldable pub read_frame : {S : Type 0} → (FunctionInfo → S → Result S) → Frame → S → Result S
read_frame callback f s = read_functions callback f.num_functions f s

-- One edge from its two numbers.
unfoldable pub decode_edge : (s : Shape) → Frame → Node → ℕ → ℕ → Label s → Result (Edge s)
unfolding decode_node
decode_edge s f function to_number from_number label = do
  address ← symbol function
  to ← decode_node f to_number address
  from ← decode_node f from_number address
  make_edge s to from label

-- `visitEdgesInner` over the words, with the running number. A last edge that lacks words would be
-- read out of bounds.
unfoldable pub visit_words :
    {S : Type 0} (s : Shape) → Frame → Node → (Edge s → S → Result S) → ℕ → List ℕ → S → Result S
visit_words singleton f function cb prev [] st = ok st
visit_words singleton f function cb prev (to ∷ []) st = err undefined
visit_words singleton f function cb prev (to ∷ from ∷ words) st = do
  let to_number = (prev + zigzag_decode to) % 2 ^ 32
  let from_number = (to_number + zigzag_decode from) % 2 ^ 32
  edge ← decode_edge singleton f function to_number from_number tt
  st' ← cb edge st
  visit_words singleton f function cb from_number words st'
visit_words indexed f function cb prev [] st = ok st
visit_words indexed f function cb prev (to ∷ []) st = err undefined
visit_words indexed f function cb prev (to ∷ from ∷ []) st = err undefined
visit_words indexed f function cb prev (to ∷ from ∷ idx ∷ words) st = do
  let to_number = (prev + zigzag_decode to) % 2 ^ 32
  let from_number = (to_number + zigzag_decode from) % 2 ^ 32
  edge ← decode_edge indexed f function to_number from_number idx
  st' ← cb edge st
  visit_words indexed f function cb from_number words st'

-- `ConcreteFunctionInfo::visitEdges` of one kind.
unfoldable pub visit_edges :
    {S : Type 0} (k : Kind) → FunctionInfo → (Edge (shape k) → S → Result S) → S → Result S
visit_edges k info cb st =
    visit_words (shape k) info.frame info.function cb 0 (get EdgeData k info.edge_data) st

-- `visitAllEdges`: the kinds in their order.
unfoldable pub visit_all_edges :
    {S : Type 0} → ((k : Kind) → Edge (shape k) → S → Result S) → FunctionInfo → S → Result S
visit_all_edges cb info st = do
  (_, st') ←
      visit_tuple {T = EdgeData} {U = EdgeData}
        (λ k words s. visit_edges k info (cb k) s >>= λ s'. ok (words, s')) any_edge info.edge_data
        st
  ok st'
