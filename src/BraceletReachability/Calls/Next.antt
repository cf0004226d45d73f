-- ===== src/BraceletReachability/Calls/Next.antt =====
-- `visitCallBase` of src/BraceletReachability/BraceletReachability.cpp keeps the table of locals.
use bracelet.Prelude.{
  ℕ, suc, ◌&&◌, ◌||◌, not, Bool, List, [], ◌∷◌, assert, refl, Result, ok, weaken,
}
use bracelet.Edges.Bytes.{Text}
use bracelet.Edges.Node.{Node, is_set, local_idx}
use bracelet.Edges.Kind.{load, store, call, argument_supply, dlsym_page_pointer}
use bracelet.BraceletReachability.Values.{
  Local, Value, local_value, IntrinsicId, not_intrinsic, vastart, vacopy, vaend, memmove, memcpy,
  other_intrinsic, FunctionType, CallBase,
}
use bracelet.BraceletReachability.Constants.{fresh}
use bracelet.BraceletReachability.Constants.Later.{fresh-IsFresh}
use bracelet.BraceletReachability.Names.{
  vastart_tmp, va_copy_tmp, memcpy_tmp, alloc_function_names, contains,
}
use bracelet.BraceletReachability.Visitor.{
  Setting, EdgeVisitor, is_full, is_off, tag_allocation, page_insert, in_writers, trace_value,
}
use bracelet.BraceletReachability.Visitor.Next.{
  IsNext, IsNext-refl, IsNext-trans, IsNext-same, Steps, Gives, Steps-then, Gives-then,
  Yields-value, Yields-option, Yields-if, IsNext-if, Steps-for_each, Steps-ok, in_writers-IsNext,
  push_edge-IsNext, insert_call-IsNext,
}
use bracelet.BraceletReachability.Visitor.Edges.{trace_site-IsNext, node-IsNext, trace_value-IsNext}
use bracelet.BraceletReachability.Calls.{
  is_runtime, is_dlsym, arg_operand, without_alias, is_var_arg_call, edge_idx, call_nargs,
  page_pointer, copy_between, visit_vastart, visit_copy, call_node, annotate, visit_dlsym_call,
  supply_argument, supply_arguments, trace_call_fully, trace_call, visit_plain_call, visit_call,
  visit_by_intrinsic, visit_call_base,
}

pub fresh-IsNext : (name : Text) (v : EdgeVisitor) → Gives v (in_writers (fresh name) v)
fresh-IsNext name v =
    in_writers-IsNext (fresh name) v
      (weaken (fresh name v.writers) (λ r f. f.later) (fresh-IsFresh name v.writers))

-- An operation after a change that keeps the writers and the table.
Gives-after :
    {A : Type 0} (v u : EdgeVisitor) (m : Result (A × EdgeVisitor))
    → IsNext v u
    → Gives u m
    → Gives v m
Gives-after v u m h k = weaken m (λ r q. IsNext-trans v u r.1 h q) k

module _ (s : Setting) where
  copy_between-IsNext :
      (name : Text) (src dst : Value) (v : EdgeVisitor) → Steps v (copy_between s name src dst v)
  unfolding copy_between
  copy_between-IsNext name src dst v = Gives-then v _ _ (fresh-IsNext name v) (λ tmp u.
      Gives-then u _ _ (node-IsNext s src u) (λ n t.
        Steps-then t _ _ (push_edge-IsNext load tmp n tt t)
          (λ w. Gives-then w _ _ (node-IsNext s dst w) (λ m z. push_edge-IsNext store m tmp tt z))))

  visit_vastart-IsNext : (c : CallBase) (v : EdgeVisitor) → Steps v (visit_vastart s c v)
  unfolding visit_vastart
  visit_vastart-IsNext c v = Yields-value (IsNext v) (assert (is_set v.var_args)) _ (λ t.
      Gives-then v _ _ (fresh-IsNext vastart_tmp v) (λ tmp u.
        Steps-then u _ _ (push_edge-IsNext load tmp v.var_args tt u) (λ w.
          Yields-value (IsNext w) (arg_operand 0 c) _ (λ dst.
            Gives-then w _ _ (node-IsNext s dst w) (λ n z. push_edge-IsNext store n tmp tt z)))))

  visit_copy-IsNext :
      (name : Text) (c : CallBase) (v : EdgeVisitor) → Steps v (visit_copy s name c v)
  unfolding visit_copy
  visit_copy-IsNext name c v = Yields-value (IsNext v) (arg_operand 1 c) _ (λ src.
      Yields-value (IsNext v) (arg_operand 0 c) _ (λ dst. copy_between-IsNext name src dst v))

  call_node-IsNext :
      (self : Local) (c : CallBase) (v : EdgeVisitor) → Gives v (call_node s self c v)
  unfolding call_node
  call_node-IsNext self c v =
      Yields-if _ c.function_type.returns_void _ _
        (Gives-after v _ _ (IsNext-same refl refl refl) (fresh-IsNext _ _))
        (node-IsNext s (local_value self) v)

  annotate-IsNext :
      (self : Local) (c : CallBase) (n : Node) (v : EdgeVisitor) → Steps v (annotate s self c n v)
  unfolding annotate
  annotate-IsNext self c n v = Yields-value (IsNext v) (local_idx n) _ (λ l.
      Yields-option (IsNext v) l _ _ tt
        (λ idx. IsNext-if v c.has_label_scope _ v (IsNext-same refl refl refl) (IsNext-refl v)))

  visit_dlsym_call-IsNext :
      (self : Local) (n : Node) (v : EdgeVisitor) → Steps v (visit_dlsym_call s self n v)
  unfolding visit_dlsym_call
  visit_dlsym_call-IsNext self n v =
      let page = s.page_address self.address in
      Gives-then v _ _
        (Gives-after v _ _ (insert_call-IsNext (page_insert self.address page) v)
          (node-IsNext s (page_pointer page) _))
        (λ m u. push_edge-IsNext dlsym_page_pointer n m tt u)

  supply_argument-IsNext :
      (ty : FunctionType) (b : Bool) (n : Node) (idx : ℕ) (arg : Value) (v : EdgeVisitor)
      → Steps v (supply_argument s ty b n idx arg v)
  unfolding supply_argument
  supply_argument-IsNext ty b n idx arg v =
      Yields-value (IsNext v) (edge_idx b ty.num_params idx) _ (λ label.
        Gives-then v _ _ (node-IsNext s arg v) (λ m u.
          Yields-if (IsNext u) (is_set m) _ _ (push_edge-IsNext argument_supply n m label u)
            (Steps-ok u)))

  pub supply_arguments-IsNext :
      (ty : FunctionType) (b : Bool) (n : Node) (idx : ℕ) (args : List Value) (v : EdgeVisitor)
      → Steps v (supply_arguments s ty b n idx args v)
  unfolding supply_arguments
  supply_arguments-IsNext ty b n idx [] v = Steps-ok v
  supply_arguments-IsNext ty b n idx (arg ∷ args) v =
      Steps-then v _ _ (supply_argument-IsNext ty b n idx arg v)
        (supply_arguments-IsNext ty b n (suc idx) args)

  trace_call_fully-IsNext :
      (self : Local) (c : CallBase) (v : EdgeVisitor) → Steps v (trace_call_fully s self c v)
  unfolding trace_call_fully
  trace_call_fully-IsNext self c v =
      Yields-if (IsNext v) (contains c.callee_name alloc_function_names) _ _
        (Gives-then v _ _ (node-IsNext s (local_value self) v) (λ n u.
          Gives-then u _ _ (trace_site-IsNext n u)
            (λ site w. insert_call-IsNext (tag_allocation site self.address) w)))
        (Steps-for_each (trace_value s) c.arg_operands v (trace_value-IsNext s))

  trace_call-IsNext :
      (self : Local) (c : CallBase) (callee : Value) (v : EdgeVisitor)
      → Steps v (trace_call s self c callee v)
  unfolding trace_call
  trace_call-IsNext self c callee v = Yields-if (IsNext v) (is_off s.trace_mode) _ _ (Steps-ok v) (
      Steps-then v _ _
        (Yields-if (IsNext v) (c.is_indirect_call || is_full s.trace_mode) _ _
          (trace_value-IsNext s callee v) (Steps-ok v))
        (λ u.
          Yields-if (IsNext u) (is_full s.trace_mode) _ _ (trace_call_fully-IsNext self c u)
            (Steps-ok u)))

  visit_plain_call-IsNext :
      (self : Local) (c : CallBase) (n : Node) (v : EdgeVisitor)
      → Steps v (visit_plain_call s self c n v)
  unfolding visit_plain_call
  visit_plain_call-IsNext self c n v =
      let callee = without_alias c.called_operand in
      let nargs = call_nargs (is_var_arg_call c) c.function_type.num_params in
      Steps-then v _ _
        (supply_arguments-IsNext c.function_type (is_var_arg_call c) n 0 c.arg_operands v)
        (λ u. Gives-then u _ _ (node-IsNext s callee u) (λ m w.
          Steps-then w _ _ (push_edge-IsNext call n m nargs w) (trace_call-IsNext self c callee)))

  visit_call-IsNext :
      (self : Local) (c : CallBase) (v : EdgeVisitor) → Steps v (visit_call s self c v)
  unfolding visit_call
  visit_call-IsNext self c v = Gives-then v _ _ (call_node-IsNext self c v) (λ n u.
      Steps-then u _ _ (annotate-IsNext self c n u) (λ w.
        Yields-if (IsNext w) (is_dlsym c.called_function) _ _ (visit_dlsym_call-IsNext self n w)
          (visit_plain_call-IsNext self c n w)))

  visit_by_intrinsic-IsNext :
      (self : Local) (c : CallBase) (v : EdgeVisitor) → Steps v (visit_by_intrinsic s self c v)
  unfolding visit_by_intrinsic
  visit_by_intrinsic-IsNext self c v = go c.intrinsic_id
    where
      go :
          (i : IntrinsicId)
          → Steps v (elim i [
            | not_intrinsic ↦ visit_call s self c v
            | vastart ↦ visit_vastart s c v
            | vacopy ↦ visit_copy s va_copy_tmp c v
            | vaend ↦ ok v
            | memmove ↦ visit_copy s memcpy_tmp c v
            | memcpy ↦ visit_copy s memcpy_tmp c v
            | other_intrinsic ↦ ok v
          ])
      go not_intrinsic = visit_call-IsNext self c v
      go vastart = visit_vastart-IsNext c v
      go vacopy = visit_copy-IsNext va_copy_tmp c v
      go vaend = Steps-ok v
      go memmove = visit_copy-IsNext memcpy_tmp c v
      go memcpy = visit_copy-IsNext memcpy_tmp c v
      go other_intrinsic = Steps-ok v

  pub visit_call_base-IsNext :
      (self : Local) (c : CallBase) (v : EdgeVisitor) → Steps v (visit_call_base s self c v)
  unfolding visit_call_base
  visit_call_base-IsNext self c v = Yields-if (IsNext v) c.is_inline_asm _ _ (Steps-ok v) (
      Yields-if (IsNext v) (not (is_off s.trace_mode) && is_runtime c.called_function) _ _
        (Steps-ok v) (visit_by_intrinsic-IsNext self c v))
