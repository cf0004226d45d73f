-- ===== src/BraceletReachability/Calls.antt =====
-- src/BraceletReachability/BraceletReachability.cpp: `EdgeVisitor::visitCallBase`.
pub mod Next
pub mod Supply
use bracelet.Prelude.{
  ℕ, suc, ◌+◌, ◌%◌, ◌^◌, Bool, true, false, not, ◌&&◌, ◌||◌, Option, none, some, List, [], ◌∷◌,
  ◌++◌, Result, ok, err, assertion, undefined, ◌>>=◌, ◌>>◌, assert, ltb, if◌then◌else◌, length,
  for_each, get_elem?,
}
use bracelet.Edges.Bytes.{Text, equal}
use bracelet.Edges.Node.{Node, is_set, local_idx}
use bracelet.Edges.Kind.{shape, load, store, call, argument_supply, dlsym_page_pointer}
use bracelet.Edges.Symbols.{GlobalObject, object, alias}
use bracelet.BraceletReachability.Values.{
  Constant, global_value, Local, Value, constant, local_value, CalledFunction, function,
  not_intrinsic, vastart, vacopy, vaend, memmove, memcpy, other_intrinsic, FunctionType, CallBase,
}
use bracelet.BraceletReachability.Constants.{fresh, name_with_location}
use bracelet.BraceletReachability.Names.{
  vastart_tmp, va_copy_tmp, memcpy_tmp, dlsym_name, void_call_name, callsite_label,
  alloc_function_names, contains,
}
use bracelet.BraceletReachability.Visitor.{
  Setting, EdgeVisitor, Visited, is_full, is_off, tag_allocation, page_insert, in_writers,
  push_edge, insert_call, trace_site, node, trace_value,
}

-- The calls that the visitor itself inserts are not visited.
abbrev pub is_runtime : Option CalledFunction → Bool
is_runtime none = false
is_runtime (some (function name)) = false
is_runtime (some _) = true

abbrev pub is_dlsym : Option CalledFunction → Bool
is_dlsym (some (function name)) = equal name dlsym_name
is_dlsym _ = false

-- `getArgOperand(i)`
abbrev pub arg_operand : ℕ → CallBase → Result Value
arg_operand i c = elim (get_elem? c.arg_operands i) [ none ↦ err undefined | some x ↦ ok x ]

-- `getAliaseeObject` is no alias, so that the loop over aliases runs once at most.
unfoldable pub without_alias : Value → Value
without_alias (constant (global_value (alias aliasee))) = constant (global_value (object aliasee))
without_alias callee = callee

abbrev pub is_var_arg_call : CallBase → Bool
is_var_arg_call c = c.function_type.is_var_arg && ltb 0 (length c.arg_operands)

-- The index of the `ArgumentSupply` edge of the argument at `idx`.
unfoldable pub edge_idx : Bool → ℕ → ℕ → Result ℕ
edge_idx is_var_arg num_params idx =
    if is_var_arg
    then ok (if ltb num_params idx then num_params else idx)
    else assert (ltb idx num_params) >> ok idx

-- The number of arguments of the `Call` edge.
abbrev pub call_nargs : Bool → ℕ → ℕ
call_nargs is_var_arg num_params = if is_var_arg then num_params + 1 else num_params

-- The page pointer of a call of `dlsym`, a new global variable.
abbrev pub page_pointer : ℕ → Value
page_pointer address = constant (
    global_value (
      object (record {
        address = address;
        comdat = none;
        internal_linkage = true;
        private_linkage = false;
      })))

module _ (s : Setting) where
  -- `Load(Tmp, node(Src))` and `Store(node(Dst), Tmp)` with a fresh `Tmp`.
  unfoldable pub copy_between : Text → Value → Value → EdgeVisitor → Result EdgeVisitor
  unfolding shape
  copy_between name src dst v = do
    (tmp, v₁) ← in_writers (fresh name) v
    (src_n, v₂) ← node s src v₁
    v₃ ← push_edge load tmp src_n tt v₂
    (dst_n, v₄) ← node s dst v₃
    push_edge store dst_n tmp tt v₄

  unfoldable pub visit_vastart : CallBase → EdgeVisitor → Result EdgeVisitor
  unfolding shape
  visit_vastart c v = do
    assert (is_set v.var_args)
    (tmp, v₁) ← in_writers (fresh vastart_tmp) v
    v₂ ← push_edge load tmp v.var_args tt v₁
    dst ← arg_operand 0 c
    (dst_n, v₃) ← node s dst v₂
    push_edge store dst_n tmp tt v₃

  unfoldable pub visit_copy : Text → CallBase → EdgeVisitor → Result EdgeVisitor
  unfolding copy_between
  visit_copy name c v = do src ← arg_operand 1 c; dst ← arg_operand 0 c; copy_between name src dst v

  -- The local of a call: a fresh one for a call that returns nothing.
  unfoldable pub call_node : Local → CallBase → EdgeVisitor → Visited
  call_node self c v =
      if c.function_type.returns_void
      then in_writers
          (fresh
            (name_with_location s.no_include_debug_data self (void_call_name v.call_void_number)))
          (record v { call_void_number = (v.call_void_number + 1) % 2 ^ 32 })
      else node s (local_value self) v

  unfoldable pub annotate : Local → CallBase → Node → EdgeVisitor → Result EdgeVisitor
  annotate self c i_node v = do
    l ← local_idx i_node
    elim l [
      | none ↦ err undefined
      | some idx ↦ ok (
          if c.has_label_scope
          then record v { labels = v.labels ++ (self.address, callsite_label idx) ∷ [] }
          else v)
    ]

  unfoldable pub visit_dlsym_call : Local → Node → EdgeVisitor → Result EdgeVisitor
  unfolding shape
  visit_dlsym_call self i_node v = do
    let page = s.page_address self.address
    (page_n, v₁) ← node s (page_pointer page) (insert_call (page_insert self.address page) v)
    push_edge dlsym_page_pointer i_node page_n tt v₁

  unfoldable pub supply_argument :
      FunctionType → Bool → Node → ℕ → Value → EdgeVisitor → Result EdgeVisitor
  unfolding shape
  supply_argument ty is_var_arg i_node idx arg v = do
    label ← edge_idx is_var_arg ty.num_params idx
    (arg_n, v₁) ← node s arg v
    if is_set arg_n then push_edge argument_supply i_node arg_n label v₁ else ok v₁

  -- The loop over the arguments from `idx` on.
  unfoldable pub supply_arguments :
      FunctionType → Bool → Node → ℕ → List Value → EdgeVisitor → Result EdgeVisitor
  supply_arguments ty is_var_arg i_node idx [] v = ok v
  supply_arguments ty is_var_arg i_node idx (arg ∷ args) v = do
    v₁ ← supply_argument ty is_var_arg i_node idx arg v
    supply_arguments ty is_var_arg i_node (suc idx) args v₁

  -- The tracing of a call when everything is traced: an allocation is tagged, and of any other call
  -- the arguments are traced.
  unfoldable pub trace_call_fully : Local → CallBase → EdgeVisitor → Result EdgeVisitor
  trace_call_fully self c v =
      if contains c.callee_name alloc_function_names
      then (do
        (n, v₁) ← node s (local_value self) v
        (site, v₂) ← trace_site n v₁
        ok (insert_call (tag_allocation site self.address) v₂))
      else for_each (trace_value s) c.arg_operands v

  unfoldable pub trace_call : Local → CallBase → Value → EdgeVisitor → Result EdgeVisitor
  trace_call self c callee v = if is_off s.trace_mode then ok v else (do
    v₁ ← (if c.is_indirect_call || is_full s.trace_mode then trace_value s callee v else ok v)
    if is_full s.trace_mode then trace_call_fully self c v₁ else ok v₁)

  -- The arguments, the callee and the tracing of a call other than of `dlsym`.
  unfoldable pub visit_plain_call : Local → CallBase → Node → EdgeVisitor → Result EdgeVisitor
  unfolding shape
  visit_plain_call self c i_node v = do
    let callee = without_alias c.called_operand
    let is_var_arg = is_var_arg_call c
    v₁ ← supply_arguments c.function_type is_var_arg i_node 0 c.arg_operands v
    (callee_n, v₂) ← node s callee v₁
    v₃ ← push_edge call i_node callee_n (call_nargs is_var_arg c.function_type.num_params) v₂
    trace_call self c callee v₃

  unfoldable pub visit_call : Local → CallBase → EdgeVisitor → Result EdgeVisitor
  visit_call self c v = do
    (i_node, v₁) ← call_node self c v
    v₂ ← annotate self c i_node v₁
    if is_dlsym c.called_function
        then visit_dlsym_call self i_node v₂
        else visit_plain_call self c i_node v₂

  unfoldable pub visit_by_intrinsic : Local → CallBase → EdgeVisitor → Result EdgeVisitor
  visit_by_intrinsic self c v = elim c.intrinsic_id [
    | not_intrinsic ↦ visit_call self c v
    | vastart ↦ visit_vastart c v
    | vacopy ↦ visit_copy va_copy_tmp c v
    | vaend ↦ ok v
    | memmove ↦ visit_copy memcpy_tmp c v
    | memcpy ↦ visit_copy memcpy_tmp c v
    | other_intrinsic ↦ ok v
  ]

  -- `visitCallBase`
  unfoldable pub visit_call_base : Local → CallBase → EdgeVisitor → Result EdgeVisitor
  visit_call_base self c v =
      if c.is_inline_asm
      then ok v
      else if not (is_off s.trace_mode) && is_runtime c.called_function
      then ok v
      else visit_by_intrinsic self c v
