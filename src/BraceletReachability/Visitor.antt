-- ===== src/BraceletReachability/Visitor.antt =====
-- src/BraceletReachability/BraceletReachability.cpp: the state of `EdgeVisitor`, the node of a value,
-- its edges and its trace sites. What the visitor changes in the module is in the state: the labels of
-- calls, the sites, and the calls of the runtime in the order in which they are made.
pub mod Next
pub mod Edges
use bracelet.Prelude.{
  ℕ, ◌+◌, ◌*◌, ◌%◌, ◌^◌, Bool, true, false, not, ◌&&◌, ◌||◌, Option, none, some, List, [], ◌∷◌,
  ◌++◌, Result, ok, err, assertion, ◌>>=◌, ◌>>◌, assert, for_each, ltb, ◌==◌, if◌then◌else◌,
}
use bracelet.Edges.Bytes.{Text}
use bracelet.Edges.Table.{find}
use bracelet.Edges.Node.{Node, empty, is_set, local_idx}
use bracelet.Edges.Kind.{Kind, Label, shape, assign, load, store}
use bracelet.BraceletReachability.Values.{
  Local, Value, constant, local_value, inline_asm, unknown_value, ValueType,
}
use bracelet.BraceletReachability.Constants.{
  Writers, fresh, fresh_local_for_value, constant_node, push,
}

pub data TraceMode : Type 0 where
  off indirect_callees full : TraceMode

-- The options of the pass and what the target's data layout says: the type of a value, the bytes of
-- a pointer, and the address of the page pointer that a call of `dlsym` gets.
pub record Setting : Type 0 where
  pub no_include_debug_data : Bool
  pub trace_mode : TraceMode
  pub type_of : Value → ValueType
  pub pointer_size : ℕ
  pub page_address : ℕ → ℕ

-- `BraceletTraceSite` of the function that is visited.
pub record TraceSite : Type 0 where
  pub site_local_idx : ℕ

-- A call that the pass inserts.
pub data Inserted : Type 0 where
  alloca_allocate : TraceSite → ℕ → Inserted
  alloca_free : ℕ → Inserted
  tag_allocation : TraceSite → ℕ → Inserted
  word_traced : TraceSite → Value → Inserted
  buffer_traced : TraceSite → Value → ℕ → Inserted
  page_insert : ℕ → ℕ → Inserted

pub record EdgeVisitor : Type 0 where
  pub writers : Writers
  pub locals : List (ℕ × Node)
  pub trace_sites : List (ℕ × TraceSite)
  pub var_args : Node
  pub call_void_number : ℕ
  pub num_allocas : ℕ
  pub allocas_to_free : List ℕ
  pub labels : List (ℕ × Text)
  pub inserted : List Inserted

abbrev pub Visited : Type 0
Visited = Result (Node × EdgeVisitor)

abbrev pub is_full : TraceMode → Bool
is_full full = true
is_full _ = false

abbrev pub is_off : TraceMode → Bool
is_off off = true
is_off _ = false

-- An operation of the writers, in a visitor.
abbrev pub in_writers : (Writers → Result (Node × Writers)) → EdgeVisitor → Visited
in_writers f v = do (n, w) ← f v.writers; ok (n, record v { writers = w })

unfoldable pub push_edge :
    (k : Kind) → Node → Node → Label (shape k) → EdgeVisitor → Result EdgeVisitor
push_edge k to from label v = do w ← push k to from label v.writers; ok (record v { writers = w })

unfoldable pub insert_call : Inserted → EdgeVisitor → EdgeVisitor
insert_call call v = record v { inserted = v.inserted ++ call ∷ [] }

-- `traceSite`
unfoldable pub trace_site : Node → EdgeVisitor → Result (TraceSite × EdgeVisitor)
trace_site n v = assert (is_set n) >> elim (find ◌==◌ n.raw v.trace_sites) [
  | some site ↦ ok (site, v)
  | none ↦ local_idx n >>= λ l. elim l [
    | none ↦ err assertion
    | some i ↦
        let site : TraceSite = record { site_local_idx = i } in
        ok (site, record v { trace_sites = v.trace_sites ++ (n.raw, site) ∷ [] })
  ]
]

module _ (s : Setting) where
  -- The node of an instruction or an argument, entered on its first use.
  unfoldable pub local_node : Local → EdgeVisitor → Visited
  local_node l v = elim (find ◌==◌ l.address v.locals) [
    | some n ↦ ok (n, v)
    | none ↦ do
      (n, w) ← fresh_local_for_value s.no_include_debug_data l v.writers
      ok (n, record v { writers = w; locals = v.locals ++ (l.address, n) ∷ [] })
  ]

  -- `EdgeVisitor::node`, which may return a null node.
  unfoldable pub node : Value → EdgeVisitor → Visited
  node (constant c) v = in_writers (constant_node c) v
  node (local_value l) v = local_node l v
  node inline_asm v = ok (empty, v)
  node unknown_value v = err assertion

  -- What is inserted to trace a value of a type: the word, a buffer, or nothing.
  unfoldable pub traced : TraceSite → Value → ValueType → Option Inserted
  traced site value ty =
      if ltb ty.store_size s.pointer_size
      then none
      else some (
          if ty.is_pointer
            || (elim ty.integer_bits [ none ↦ false | some bits ↦ bits == s.pointer_size * 8 ])
          then word_traced site value
          else buffer_traced site value ty.store_size)

  unfoldable pub trace_local : Node → Value → EdgeVisitor → Result EdgeVisitor
  unfolding trace_site traced insert_call
  trace_local n value v = do
    (site, v₁) ← trace_site n v
    ok (elim (traced site value (s.type_of value)) [ none ↦ v₁ | some call ↦ insert_call call v₁ ])

  -- `traceValue`: a value with no local is not traced.
  unfoldable pub trace_node : Value → Node → EdgeVisitor → Result EdgeVisitor
  trace_node value n v =
      local_idx n >>= (λ l. elim l [ none ↦ ok v | some i ↦ trace_local n value v ])

  unfoldable pub trace_value : Value → EdgeVisitor → Result EdgeVisitor
  trace_value value v = do
    assert (not (is_off s.trace_mode))
    (n, v₁) ← node value v
    if is_set n then trace_node value n v₁ else ok v₁

  -- `FW.addEdge(edges::Kind(node(To), from))`
  unfoldable pub push_to :
      (k : Kind) → Label (shape k) → Value → Node → EdgeVisitor → Result EdgeVisitor
  push_to k label to from_n v = do (to_n, v₁) ← node to v; push_edge k to_n from_n label v₁

  unfoldable pub trace_store : Value → Value → EdgeVisitor → Result EdgeVisitor
  trace_store to from v =
      if is_full s.trace_mode then trace_value to v >>= trace_value from else ok v

  unfoldable pub add_store_edge : Value → Value → EdgeVisitor → Result EdgeVisitor
  unfolding shape
  add_store_edge to from v = do
    (from_n, v₁) ← node from v
    (to_n, v₂) ← node to v₁
    if is_set from_n && is_set to_n
        then push_edge store to_n from_n tt v₂ >>= trace_store to from
        else ok v₂

  -- A load from a null node is only warned about.
  unfoldable pub add_load_edge : Value → Value → EdgeVisitor → Result EdgeVisitor
  unfolding shape
  add_load_edge to from v = do
    (from_n, v₁) ← node from v
    if is_set from_n then push_to load tt to from_n v₁ else ok v₁

  unfoldable pub add_assign_edge : Value → Value → EdgeVisitor → Result EdgeVisitor
  unfolding shape
  add_assign_edge to from v = do
    (from_n, v₁) ← node from v
    if is_set from_n then push_to assign tt to from_n v₁ else ok v₁
