-- ===== src/BraceletReachability/Calls/Supply.antt =====
-- The indices of the `ArgumentSupply` edges of a call in
-- src/BraceletReachability/BraceletReachability.cpp against the arguments of its `Call` edge.
use bracelet.Prelude.{
  ℕ, suc, ◌<◌, ◌≡◌, refl, sym, ap, ◌∙◌, subst, Bool, List, [], ◌∷◌, ◌++◌, append_assoc, append-nil,
  ok, ◌==◌, arith, Yields, Yields-bind, Yields-ok, Yields-run, weaken, Option,
}
use bracelet.Edges.Bytes.{Text}
use bracelet.Edges.Table.{find}
use bracelet.Edges.Node.{Node, of_local, is_set}
use bracelet.Edges.Symbols.{GlobalValue}
use bracelet.Edges.Kind.{Label, shape, Edge, assign, argument_supply, make_edge, get, modify}
use bracelet.Edges.Writer.{
  Row, Storage, FunctionWriter, GraphWriter, fresh_local, graph_symbol, encode_node, encode_edge,
  add_edge,
}
use bracelet.BraceletReachability.Values.{
  Constant, global_value, compound, ignored, unknown_constant, Operands, end, operand, non_constant,
  Value, constant, local_value, inline_asm, unknown_value, FunctionType,
}
use bracelet.BraceletReachability.Constants.{
  Writers, Builder, new_builder, fresh, symbol_node, push, fresh_local_for_value, local_name_of,
  parent_name, make_fresh, add_set, add_node, constant_node, add_operands,
}
use bracelet.BraceletReachability.Visitor.{Setting, EdgeVisitor, push_edge, local_node, node}
use bracelet.BraceletReachability.Visitor.Next.{Yields-option, Yields-if}
use bracelet.BraceletReachability.Calls.{edge_idx, call_nargs, supply_argument, supply_arguments}

abbrev pub supplied : Writers → Storage argument_supply
supplied w = get Storage argument_supply w.function.edges

abbrev Quiet : Writers → Writers → Type 0
Quiet w u = supplied u ≡ supplied w

-- Constants, fresh locals and symbols supply no arguments.
fresh-Quiet : (name : Text) (w : Writers) → Yields (λ r. Quiet w r.1) (fresh name w)
unfolding fresh fresh_local
fresh-Quiet name w =
    Yields-bind
      (λ (q : Node × FunctionWriter × GraphWriter).
        Quiet w (record { function = q.1; graph = q.2 }))
      _ (fresh_local name w.function w.graph) _
      (Yields-bind _ _ (of_local w.function.this_symbol_idx w.function.num_locals) _ (Yields-run _)
        (λ n e. refl))
      (λ q p. p)

symbol_node-Quiet : (gv : GlobalValue) (w : Writers) → Yields (λ r. Quiet w r.1) (symbol_node gv w)
unfolding symbol_node
symbol_node-Quiet gv w = Yields-bind _ _ (graph_symbol gv w.graph) _ (Yields-run _) (λ r e. refl)

assign-Quiet :
    (to from : Node) (label : Label (shape assign)) (w : Writers)
    → Yields (Quiet w) (push assign to from label w)
unfolding push add_edge get modify
assign-Quiet to from label w =
    Yields-bind _ _ (make_edge (shape assign) to from label) _ (Yields-run _) (λ e h.
      Yields-bind (λ fw. Quiet w (record w { function = fw })) _ (add_edge assign e w.function) _
        (Yields-bind _ _ (encode_edge (shape assign) w.function.this_symbol_idx e) _ (Yields-run _)
          (λ row q. refl))
        (λ fw p. p))

make_fresh-Quiet :
    (parent : Option Text) (b : Builder) (w : Writers)
    → Yields (λ r. Quiet w r.1) (make_fresh parent b w)
unfolding make_fresh
make_fresh-Quiet parent b w = Yields-if _ b.fresh_node_created _ _ refl (
    Yields-bind _ _ (fresh (parent_name parent) w) _ (fresh-Quiet (parent_name parent) w) (λ q h.
      Yields-bind _ _ (push assign q.0 b.out tt q.1) _ (assign-Quiet q.0 b.out tt q.1)
        (λ u k. k ∙ h)))

add_node-Quiet :
    (parent : Option Text) (n : Node) (b : Builder) (w : Writers)
    → Yields (λ r. Quiet w r.1) (add_node parent n b w)
unfolding add_node add_set
add_node-Quiet parent n b w =
    Yields-if _ (is_set n) _ _
      (Yields-if _ (is_set b.out) _ _
        (Yields-bind _ _ (make_fresh parent b w) _ (make_fresh-Quiet parent b w) (λ q h.
          Yields-bind _ _ (push assign q.0.out n tt q.1) _ (assign-Quiet q.0.out n tt q.1)
            (λ u k. k ∙ h)))
        refl)
      refl

mutual
  unfolding constant_node

  constant_node-Quiet : (c : Constant) (w : Writers) → Yields (λ r. Quiet w r.1) (constant_node c w)
  constant_node-Quiet (global_value gv) w = symbol_node-Quiet gv w
  constant_node-Quiet (compound name os) w =
      Yields-bind _ _ (add_operands name os new_builder w) _
        (add_operands-Quiet name os new_builder w) (λ r h. h)
  constant_node-Quiet ignored w = refl
  constant_node-Quiet unknown_constant w = tt

  add_operands-Quiet :
      (parent : Option Text) (os : Operands) (b : Builder) (w : Writers)
      → Yields (λ r. Quiet w r.1) (add_operands parent os b w)
  add_operands-Quiet parent end b w = refl
  add_operands-Quiet parent (operand c rest) b w =
      Yields-bind _ _ (constant_node c w) _ (constant_node-Quiet c w) (λ q h.
        Yields-bind _ _ (add_node parent q.0 b q.1) _ (add_node-Quiet parent q.0 b q.1) (λ q' k.
          weaken (add_operands parent rest q'.0 q'.1) (λ r l. l ∙ k ∙ h)
            (add_operands-Quiet parent rest q'.0 q'.1)))
  add_operands-Quiet parent (non_constant rest) b w = tt

-- Rows of `ArgumentSupply` edges with indices below a number.
unfoldable pub supply_index : Row (shape argument_supply) → ℕ
unfolding shape
supply_index row = row.label

abbrev pub AreBelow : ℕ → List (Row (shape argument_supply)) → Type 0
AreBelow nargs [] = Unit {0}
AreBelow nargs (row ∷ rows) = (supply_index row < nargs) × AreBelow nargs rows

AreBelow-append :
    (nargs : ℕ) (xs ys : List (Row (shape argument_supply)))
    → AreBelow nargs xs
    → AreBelow nargs ys
    → AreBelow nargs (xs ++ ys)
AreBelow-append nargs [] ys h k = k
AreBelow-append nargs (x ∷ xs) ys h k = (h.0, AreBelow-append nargs xs ys h.1 k)

-- What supplying arguments adds.
pub record IsSupplied (nargs : ℕ) (v u : EdgeVisitor) : Type 0 where
  pub added : List (Row (shape argument_supply))
  pub rows_eq : supplied u.writers ≡ supplied v.writers ++ added
  pub below : AreBelow nargs added

IsSupplied-trans :
    {nargs : ℕ} {v u w : EdgeVisitor}
    → IsSupplied nargs v u
    → IsSupplied nargs u w
    → IsSupplied nargs v w
IsSupplied-trans {v = v} h k = record {
  added = h.added ++ k.added;
  rows_eq =
      k.rows_eq
      ∙ ap (λ rows. rows ++ k.added) h.rows_eq
      ∙ append_assoc (supplied v.writers) h.added k.added;
  below = AreBelow-append _ h.added k.added h.below k.below;
}

Quiet-IsSupplied :
    {nargs : ℕ} {v u : EdgeVisitor} → Quiet v.writers u.writers → IsSupplied nargs v u
Quiet-IsSupplied q = record { added = []; rows_eq = q ∙ sym (append-nil _); below = tt }

edge_idx_lem :
    (b : Bool) (num_params idx : ℕ)
    → Yields (λ label. label < call_nargs b num_params) (edge_idx b num_params idx)
unfolding edge_idx
edge_idx_lem b num_params idx = ground arith

unfoldable supply_label : ℕ → Label (shape argument_supply)
unfolding shape
supply_label label = label

index_small :
    (row : Row (shape argument_supply)) (nargs label : ℕ)
    → row.label ≡ supply_label label
    → label < nargs
    → supply_index row < nargs
unfolding supply_index supply_label shape
index_small row nargs label e small = subst (λ l. l < nargs) (sym e) small

made_label :
    (to from : Node) (label : Label (shape argument_supply))
    → Yields (λ e. e.label ≡ label) (make_edge (shape argument_supply) to from label)
unfolding make_edge
made_label to from label = ground arith

encoded_label :
    (this : ℕ) (e : Edge (shape argument_supply))
    → Yields (λ row. row.label ≡ e.label) (encode_edge (shape argument_supply) this e)
unfolding encode_edge
encoded_label this e =
    Yields-bind _ _ (encode_node this e.to) _ (Yields-run _)
      (λ to h. Yields-bind _ _ (encode_node this e.from) _ (Yields-run _) (λ from k. refl))

supply_push :
    (to from : Node) (nargs label : ℕ) (v : EdgeVisitor)
    → label < nargs
    → Yields (IsSupplied nargs v) (push_edge argument_supply to from (supply_label label) v)
unfolding push_edge push add_edge get modify supply_index supply_label
supply_push to from nargs label v small =
    let w = v.writers in
    let added : Writers → Type 0 = λ u.
      (row : Row (shape argument_supply)) × (supplied u ≡ supplied w ++ row ∷ [])
      × (row.label ≡ supply_label label) in
    Yields-bind added _ (push argument_supply to from (supply_label label) w) _
      (Yields-bind _ _ (make_edge (shape argument_supply) to from (supply_label label)) _
        (made_label to from (supply_label label))
        (λ e h.
          Yields-bind (λ fw. added (record w { function = fw })) _
            (add_edge argument_supply e w.function) _
            (Yields-bind _ _ (encode_edge (shape argument_supply) w.function.this_symbol_idx e) _
              (encoded_label w.function.this_symbol_idx e) (λ row k. (row, refl, k ∙ h)))
            (λ fw p. p)))
      (λ u a. record {
        added = a.0 ∷ [];
        rows_eq = a.1;
        below = (index_small a.0 nargs label a.2 small, tt);
      })

module _ (s : Setting) where
  node-Quiet :
      (x : Value) (v : EdgeVisitor) → Yields (λ r. Quiet v.writers r.1.writers) (node s x v)
  unfolding node local_node fresh_local_for_value
  node-Quiet (constant c) v =
      Yields-bind _ _ (constant_node c v.writers) _ (constant_node-Quiet c v.writers) (λ r h. h)
  node-Quiet (local_value l) v =
      Yields-option _ (find ◌==◌ l.address v.locals) _ _
        (Yields-bind _ _ (fresh (local_name_of s.no_include_debug_data l) v.writers) _
          (fresh-Quiet (local_name_of s.no_include_debug_data l) v.writers) (λ r h. h))
        (λ n. refl)
  node-Quiet inline_asm v = refl
  node-Quiet unknown_value v = tt

  supply_argument-IsSupplied :
      (ty : FunctionType) (b : Bool) (i_node : Node) (idx : ℕ) (arg : Value) (v : EdgeVisitor)
      → Yields (IsSupplied (call_nargs b ty.num_params) v) (supply_argument s ty b i_node idx arg v)
  unfolding supply_argument supply_label
  supply_argument-IsSupplied ty b i_node idx arg v =
      let nargs = call_nargs b ty.num_params in
      Yields-bind _ _ (edge_idx b ty.num_params idx) _ (edge_idx_lem b ty.num_params idx)
        (λ label small. Yields-bind _ _ (node s arg v) _ (node-Quiet arg v) (λ r q.
          Yields-if (IsSupplied nargs v) (is_set r.0) _ _
            (weaken (push_edge argument_supply i_node r.0 label r.1)
              (λ u h. IsSupplied-trans (Quiet-IsSupplied q) h)
              (supply_push i_node r.0 nargs label r.1 small))
            (Quiet-IsSupplied q)))

  arguments-IsSupplied :
      (ty : FunctionType) (b : Bool) (i_node : Node) (idx : ℕ) (args : List Value) (v : EdgeVisitor)
      → Yields
          (IsSupplied (call_nargs b ty.num_params) v)
          (supply_arguments s ty b i_node idx args v)
  unfolding supply_arguments
  arguments-IsSupplied ty b i_node idx [] v = Quiet-IsSupplied refl
  arguments-IsSupplied ty b i_node idx (arg ∷ args) v =
      let nargs = call_nargs b ty.num_params in
      Yields-bind (IsSupplied nargs v) (IsSupplied nargs v)
        (supply_argument s ty b i_node idx arg v) _
        (supply_argument-IsSupplied ty b i_node idx arg v)
        (λ u h.
          weaken (supply_arguments s ty b i_node (suc idx) args u) (λ w k. IsSupplied-trans h k)
            (arguments-IsSupplied ty b i_node (suc idx) args u))

-- The rows that the arguments of a call add to the `ArgumentSupply` edges stand behind those that were
-- there, and their indices are below the number of arguments that the call's `Call` edge gets, for
-- variadic calls as for others.
pub supply_arguments-IsSupplied :
    (s : Setting) (ty : FunctionType) (b : Bool) (i_node : Node) (args : List Value)
    (v : EdgeVisitor) {u : EdgeVisitor}
    → supply_arguments s ty b i_node 0 args v ≡ ok u
    → IsSupplied (call_nargs b ty.num_params) v u
supply_arguments-IsSupplied s ty b i_node args v run =
    Yields-ok _ (supply_arguments s ty b i_node 0 args v) run
      (arguments-IsSupplied s ty b i_node 0 args v)
