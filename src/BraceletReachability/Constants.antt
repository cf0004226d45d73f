-- ===== src/BraceletReachability/Constants.antt =====
-- `nameWithLocation`, `freshLocalForValue`, `MultiConstantNodeBuilder` and `constantNode` of
-- src/BraceletReachability/BraceletReachability.cpp. The two writers stand together, since a
-- `FunctionWriter` refers to its `GraphWriter`.
pub mod Later
pub mod Flow
pub mod Reached
pub mod Silent
use bracelet.Prelude.{
  ℕ, Bool, true, false, Option, none, some, List, [], ◌∷◌, ◌++◌, Result, ok, err, assertion, ◌>>=◌,
  if◌then◌else◌,
}
use bracelet.Edges.Bytes.{Text}
use bracelet.Edges.Node.{Node, empty, of_symbol, is_set}
use bracelet.Edges.Kind.{Kind, Label, shape, make_edge, assign}
use bracelet.Edges.Symbols.{GlobalValue}
use bracelet.Edges.Writer.{FunctionWriter, GraphWriter, fresh_local, graph_symbol, add_edge}
use bracelet.BraceletReachability.Values.{
  Constant, global_value, compound, ignored, unknown_constant, Operands, end, operand, non_constant,
  Local,
}

pub record Writers : Type 0 where
  pub function : FunctionWriter
  pub graph : GraphWriter

-- `FW.freshLocal(name)`
unfoldable pub fresh : Text → Writers → Result (Node × Writers)
fresh name w = do
  (n, fw, gw) ← fresh_local name w.function w.graph
  ok (n, record { function = fw; graph = gw })

-- `FW.getGraphWriter().symbol(gv)`
unfoldable pub symbol_node : GlobalValue → Writers → Result (Node × Writers)
symbol_node gv w = do (n, gw) ← graph_symbol gv w.graph; ok (n, record w { graph = gw })

-- `FW.thisFunction()`
unfoldable pub this_function : Writers → Result Node
this_function w = of_symbol w.function.this_symbol_idx

-- `FW.addEdge(edges::Kind(to, from, label))`
unfoldable pub push : (k : Kind) → Node → Node → Label (shape k) → Writers → Result Writers
push k to from label w = do
  e ← make_edge (shape k) to from label
  fw ← add_edge k e w.function
  ok (record w { function = fw })

unfoldable pub name_with_location : Bool → Local → Text → Text
name_with_location no_include_debug_data i local_name =
    if no_include_debug_data
    then []
    else (elim i.debug_loc [ none ↦ [] | some text ↦ text ])
      ++ 124 ∷ (elim local_name [ [] ↦ i.operand_text | c ∷ cs ↦ c ∷ cs ])

-- The name that `freshLocalForValue` gives its local.
unfoldable pub local_name_of : Bool → Local → Text
unfolding name_with_location
local_name_of no_include_debug_data v = elim v.debug_loc [
  | some loc ↦
      name_with_location no_include_debug_data v (elim v.name [ none ↦ [] | some name ↦ name ])
  | none ↦ elim v.name [
    | some name ↦ name
    | none ↦ if no_include_debug_data then [] else v.operand_text
  ]
]

unfoldable pub fresh_local_for_value : Bool → Local → Writers → Result (Node × Writers)
fresh_local_for_value no_include_debug_data v w = fresh (local_name_of no_include_debug_data v) w

-- `MultiConstantNodeBuilder`, without its writer and its parent.
pub record Builder : Type 0 where
  pub fresh_node_created : Bool
  pub out : Node

abbrev pub new_builder : Builder
new_builder = record { fresh_node_created = false; out = empty }

abbrev pub bracelet_constant : Text
bracelet_constant =
    60 ∷ 98 ∷ 114 ∷ 97 ∷ 99 ∷ 101 ∷ 108 ∷ 101 ∷ 116 ∷ 32 ∷ 99 ∷ 111 ∷ 110 ∷ 115 ∷ 116 ∷ 97 ∷ 110
    ∷ 116 ∷ 62 ∷ []

abbrev pub parent_name : Option Text → Text
parent_name none = bracelet_constant
parent_name (some name) = name

-- The node that stands for the whole, made on the second node that is added.
unfoldable pub make_fresh : Option Text → Builder → Writers → Result (Builder × Writers)
unfolding shape
make_fresh parent b w = if b.fresh_node_created then ok (b, w) else do
  (out, w₁) ← fresh (parent_name parent) w
  w₂ ← push assign out b.out tt w₁
  ok (record { fresh_node_created = true; out = out }, w₂)

-- `MultiConstantNodeBuilder::add`, of a node that is set and of any node.
unfoldable pub add_set : Option Text → Node → Builder → Writers → Result (Builder × Writers)
unfolding shape
add_set parent n b w =
    if is_set b.out
    then (do (b₁, w₁) ← make_fresh parent b w; w₂ ← push assign b₁.out n tt w₁; ok (b₁, w₂))
    else ok (record b { out = n }, w)

unfoldable pub add_node : Option Text → Node → Builder → Writers → Result (Builder × Writers)
add_node parent n b w = if is_set n then add_set parent n b w else ok (b, w)

-- `constantNode`, which may return a null node, and its loop over the operands.
unfoldable mutual
  pub constant_node : Constant → Writers → Result (Node × Writers)
  constant_node (global_value gv) w = symbol_node gv w
  constant_node (compound name operands) w = do
    (b, w₁) ← add_operands name operands new_builder w
    ok (b.out, w₁)
  constant_node ignored w = ok (empty, w)
  constant_node unknown_constant w = err assertion

  pub add_operands : Option Text → Operands → Builder → Writers → Result (Builder × Writers)
  add_operands parent end b w = ok (b, w)
  add_operands parent (operand c rest) b w = do
    (n, w₁) ← constant_node c w
    (b₁, w₂) ← add_node parent n b w₁
    add_operands parent rest b₁ w₂
  add_operands parent (non_constant rest) b w = err assertion
