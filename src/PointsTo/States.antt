-- ===== src/PointsTo/States.antt =====
-- src/PointsTo/PointsTo.cpp, `NodeState` and `EmitC`: the first pass over the edges, which finds for
-- each symbol whether it is a function and of how many arguments, and the prototypes that come of it.
-- Hash maps keyed by nodes are lists keyed by the nodes' words, in the order of insertion.
pub mod Join
use bracelet.Prelude.{
  ℕ, suc, ◌+◌, ◌-◌, ◌%◌, ◌^◌, Bool, true, false, not, Option, none, some, List, [], ◌∷◌, ◌++◌,
  Result, ok, err, nargs_mismatch, ◌>>=◌, ◌>>◌, assert, ensure, ltb, ◌==◌, if◌then◌else◌,
}
use bracelet.Edges.Bytes.{Text, equal}
use bracelet.Edges.Table.{find}
use bracelet.Edges.Node.{Node, symbol, local_idx}
use bracelet.Edges.Kind.{
  Kind, assign, load, store, call, return, argument_definition, argument_supply, dlsym_page_pointer,
  Edge, shape,
}
use bracelet.Edges.Section.{Object, Codecs, read_edges}
use bracelet.Edges.Reader.{FunctionInfo, visit_all_edges}

-- `NodeStateUndefined`, `NodeStateGlobalData` and `NodeStateFunction`.
pub data NodeState : Type 0 where
  undefined_state : NodeState
  global_data : NodeState
  function_state : ℕ → NodeState

-- `NodeStateFunction(nargs)`, of a `uint16_t`.
unfoldable pub of_nargs : ℕ → NodeState
of_nargs nargs = function_state (nargs % 2 ^ 16)

-- `operator==` of the variant.
unfoldable pub same_state : NodeState → NodeState → Bool
same_state undefined_state undefined_state = true
same_state global_data global_data = true
same_state (function_state n) (function_state m) = n == m
same_state _ _ = false

abbrev pub NodeStates : Type 0
NodeStates = List (ℕ × NodeState)

-- Write to a map: the entry of a key that it has is changed in place.
unfoldable pub assign_entry {ℓ} : {V : Type ℓ} → ℕ → V → List (ℕ × V) → List (ℕ × V)
assign_entry k v [] = (k, v) ∷ []
assign_entry k v ((j, w) ∷ m) = if k == j then (j, v) ∷ m else (j, w) ∷ assign_entry k v m

-- The state that `setNargs` leaves in an entry that is there.
unfoldable pub merge : NodeState → NodeState → Result NodeState
unfolding same_state
merge undefined_state new = ok new
merge old undefined_state = ok old
merge old new = ensure (same_state old new) nargs_mismatch >> ok old

-- `setNargs`, on the map.
unfoldable pub set_nargs : Node → NodeState → NodeStates → Result NodeStates
set_nargs node new m = do
  l ← local_idx node
  assert (elim l [ none ↦ true | some i ↦ false ])
  elim (find ◌==◌ node.raw m) [
    | none ↦ ok (assign_entry node.raw new m)
    | some old ↦ merge old new >>= λ state. ok (assign_entry node.raw state m)
  ]

pub record EmitC : Type 0 where
  pub node_states : NodeStates
  pub checked_for_override : List ℕ
  pub override_nodes : List (ℕ × Text)

abbrev pub set_state : Node → NodeState → EmitC → Result EmitC
set_state node state e = do
  m ← set_nargs node state e.node_states
  ok (record e { node_states = m })

-- `full_name.substr(0, full_name.find('@'))`
unfoldable pub before_at : Text → Text
before_at [] = []
before_at (c ∷ cs) = if c == 64 then [] else c ∷ before_at cs

unfoldable pub holds_word : ℕ → List ℕ → Bool
holds_word k [] = false
holds_word k (j ∷ js) = if k == j then true else holds_word k js

-- The state that a kind of edge tells of its ends, and the number of arguments that it tells of the
-- function: `max` and the sum are of `unsigned`.
unfoldable pub state_of_edge : (k : Kind) → Edge (shape k) → EmitC → Result EmitC
unfolding of_nargs shape
state_of_edge call edge e = do
  l ← local_idx edge.from
  elim l [ some i ↦ ok e | none ↦ set_state edge.from (of_nargs edge.label) e ]
state_of_edge store edge e = do
  l ← local_idx edge.to
  elim l [ some i ↦ ok e | none ↦ set_state edge.to global_data e ]
state_of_edge _ edge e = ok e

unfoldable pub nargs_of_edge : (k : Kind) → Edge (shape k) → ℕ → ℕ
unfolding shape
nargs_of_edge argument_definition edge nargs =
    let next = (edge.label + 1) % 2 ^ 32 in if ltb nargs next then next else nargs
nargs_of_edge _ edge nargs = nargs

module _ (symbol_name : ℕ → Result Text) (override_nargs : List (Text × ℕ)) where
  -- The lookup of an override by the name of a symbol.
  unfoldable pub override : Node → EmitC → Result EmitC
  unfolding before_at of_nargs
  override out e = do
    address ← symbol out
    full_name ← symbol_name address
    let name = before_at full_name
    elim (find equal name override_nargs) [
      | none ↦ ok e
      | some nargs ↦
          set_state out (of_nargs nargs)
            (record e { override_nodes = assign_entry out.raw name e.override_nodes })
    ]

  unfoldable pub check_override : Node → EmitC → Result EmitC
  unfolding holds_word
  check_override out e =
      if holds_word out.raw e.checked_for_override
      then ok e
      else override out (record e { checked_for_override = out.raw ∷ e.checked_for_override })

  -- One end of an edge: a symbol other than the function's own has an entry.
  unfoldable pub visit_end : Node → Node → EmitC → Result EmitC
  visit_end function out e = do
    s ← symbol out
    this ← symbol function
    if s == this then ok e else (do
      l ← local_idx out
      assert (elim l [ none ↦ true | some i ↦ false ])
      e₁ ← set_state out undefined_state e
      check_override out e₁)

  -- The callback on edges of `initial_pass`, with the number of arguments so far.
  unfoldable pub visit_state_edge :
      Node → (k : Kind) → Edge (shape k) → ℕ × EmitC → Result (ℕ × EmitC)
  visit_state_edge function k edge (nargs, e) = do
    e₁ ← state_of_edge k edge e
    e₂ ← visit_end function edge.to e₁
    e₃ ← visit_end function edge.from e₂
    ok (nargs_of_edge k edge nargs, e₃)

  -- The callback on functions.
  unfoldable pub visit_state_function : FunctionInfo → EmitC → Result EmitC
  visit_state_function fi e = do
    (nargs, e₁) ← visit_all_edges (visit_state_edge fi.function) fi (0, e)
    set_state fi.function (of_nargs nargs) e₁

  unfoldable pub initial_pass : Object → Codecs → Result EmitC
  initial_pass target codecs =
      read_edges target codecs visit_state_function
        (record { node_states = []; checked_for_override = []; override_nodes = [] })

abbrev pub is_function : NodeState → Bool
is_function (function_state n) = true
is_function _ = false

-- The functions to declare before the files of the functions are written: those without an override.
unfoldable pub declared_functions : NodeStates → List (ℕ × Text) → List ℕ
declared_functions [] overrides = []
declared_functions ((k, state) ∷ m) overrides =
    let rest = declared_functions m overrides in
    if is_function state
    then (elim (find ◌==◌ k overrides) [ none ↦ k ∷ rest | some name ↦ rest ])
    else rest
