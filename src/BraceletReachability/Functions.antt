-- ===== src/BraceletReachability/Functions.antt =====
-- src/BraceletReachability/BraceletReachability.cpp: the constructor of `EdgeVisitor`, its visit of
-- each instruction, and the visit of a whole function.
pub mod Next
pub mod Allocas
pub mod Layout
pub mod Bounds
use bracelet.Prelude.{
  ℕ, suc, ◌+◌, ◌%◌, ◌^◌, Bool, true, false, not, Option, none, some, List, [], ◌∷◌, ◌++◌, Result,
  ok, err, assertion, ◌>>=◌, ◌>>◌, assert, for_each, ◌==◌, if◌then◌else◌, map, length,
}
use bracelet.Edges.Bytes.{Text}
use bracelet.Edges.Node.{Node, empty, is_set, local_idx}
use bracelet.Edges.Kind.{shape, store, return, argument_definition}
use bracelet.Edges.Writer.{Function, GraphWriter, FunctionWriter, Sort, new_function, finish}
use bracelet.BraceletReachability.Values
use bracelet.BraceletReachability.Values.{Local, Value, local_value, Operation, Instruction}
use bracelet.BraceletReachability.Names.{
  alloca_prefix, var_args_alloca, var_args_area, var_args_name,
}
use bracelet.BraceletReachability.Constants.{Writers, fresh, symbol_node, this_function}
use bracelet.BraceletReachability.Visitor.{
  Setting, TraceMode, EdgeVisitor, is_full, alloca_allocate, alloca_free, in_writers, push_edge,
  insert_call, trace_site, node, push_to, add_store_edge, add_load_edge, add_assign_edge,
}
use bracelet.BraceletReachability.Calls.{visit_call_base}

-- A function with a body: what the writer asks of it, its arguments, and its instructions in order.
pub record Body : Type 0 where
  pub function : Function
  pub is_var_arg : Bool
  pub args : List Local
  pub instructions : List Instruction

abbrev pub name_or_empty : Option Text → Text
name_or_empty none = []
name_or_empty (some name) = name

abbrev pub new_visitor : Writers → EdgeVisitor
new_visitor w = record {
  writers = w;
  locals = [];
  trace_sites = [];
  var_args = empty;
  call_void_number = 0;
  num_allocas = 0;
  allocas_to_free = [];
  labels = [];
  inserted = [];
}

module _ (s : Setting) where
  -- The rest of `preprocessVisitAllocaInst` for a static `alloca` when everything is traced. The call
  -- that replaces the `alloca` keeps its address here, since every use of the one becomes a use of the
  -- other.
  unfoldable pub replace_alloca : Local → Node → ℕ → EdgeVisitor → Result EdgeVisitor
  replace_alloca self n size v = do
    (site, v₁) ← trace_site n v
    ok (record (insert_call (alloca_allocate site size) v₁) {
      allocas_to_free = v₁.allocas_to_free ++ self.address ∷ [];
    })

  abbrev pub traced_size : Option ℕ → Option ℕ
  traced_size size = if is_full s.trace_mode then size else none

  -- `preprocessVisitAllocaInst`
  unfoldable pub preprocess_visit_alloca : Local → Option ℕ → EdgeVisitor → Result EdgeVisitor
  preprocess_visit_alloca self size v = do
    (n, v₁) ← in_writers (fresh (alloca_prefix ++ name_or_empty self.name)) v
    l ← local_idx n
    assert (elim l [ none ↦ false | some i ↦ i == length v₁.locals ])
    v₂ ← (elim (traced_size size) [ none ↦ ok v₁ | some bytes ↦ replace_alloca self n bytes v₁ ])
    ok (record v₂ { locals = v₂.locals ++ (self.address, n) ∷ [] })

  unfoldable pub pre_process : Instruction → EdgeVisitor → Result EdgeVisitor
  pre_process i v = elim i.operation [
    | Values.alloca size ↦ preprocess_visit_alloca i.self size v
    | _ ↦ ok v
  ]

  -- The model of a `va_list`: two allocations, and the local to which every variadic argument flows.
  unfoldable pub set_up_var_args : ℕ → EdgeVisitor → Result EdgeVisitor
  unfolding shape
  set_up_var_args arg_size v = do
    (var_args, v₁) ← in_writers (fresh var_args_alloca) v
    (save_space, v₂) ← in_writers (fresh var_args_area) v₁
    (arg_data, v₃) ← in_writers (fresh var_args_name) v₂
    this ← this_function v₃.writers
    v₄ ← push_edge argument_definition arg_data this arg_size v₃
    v₅ ← push_edge store save_space arg_data tt v₄
    v₆ ← push_edge store var_args save_space tt v₅
    ok (record v₆ { var_args = var_args; num_allocas = (v.num_allocas + 2) % 2 ^ 32 })

  -- The edges of the arguments from `idx` on.
  unfoldable pub define_arguments : ℕ → List Local → EdgeVisitor → Result EdgeVisitor
  unfolding shape
  define_arguments idx [] v = ok v
  define_arguments idx (arg ∷ args) v = do
    this ← this_function v.writers
    v₁ ← push_to s argument_definition idx (local_value arg) this v
    define_arguments (suc idx) args v₁

  -- The constructor.
  unfoldable pub new_edge_visitor : Body → Writers → Result EdgeVisitor
  new_edge_visitor f w = do
    v ← for_each pre_process f.instructions (new_visitor w)
    v₁ ←
        (let counted = record v { num_allocas = length v.locals % 2 ^ 32 } in
          if f.is_var_arg then set_up_var_args (length f.args) counted else ok counted)
    define_arguments 0 f.args v₁

  -- `visitReturnInst`
  unfoldable pub free_allocas : List ℕ → EdgeVisitor → EdgeVisitor
  free_allocas freed v = record v { inserted = v.inserted ++ map alloca_free freed }

  unfoldable pub add_return_edge : Function → Value → EdgeVisitor → Result EdgeVisitor
  unfolding shape
  add_return_edge f value v = do
    (n, v₁) ← node s value v
    if is_set n
        then in_writers (symbol_node f.value) v₁ >>= (λ r. push_edge return r.0 n tt r.1)
        else ok v₁

  unfoldable pub visit_return : Function → Option Value → EdgeVisitor → Result EdgeVisitor
  visit_return f value v =
      let v₁ = free_allocas v.allocas_to_free v in
      elim value [ none ↦ ok v₁ | some x ↦ add_return_edge f x v₁ ]

  -- Two loads or assignments into the instruction's own node.
  unfoldable pub assign_both : Value → Value → Value → EdgeVisitor → Result EdgeVisitor
  assign_both to first second v = add_assign_edge s to first v >>= add_assign_edge s to second

  unfoldable pub load_and_store : Value → Value → Value → EdgeVisitor → Result EdgeVisitor
  load_and_store to pointer value v =
      add_load_edge s to pointer v >>= add_store_edge s pointer value

  -- The visitors of the instructions by their class.
  unfoldable pub visit_operation : Function → Local → Operation → EdgeVisitor → Result EdgeVisitor
  visit_operation f self (Values.alloca size) v = ok v
  visit_operation f self (Values.store pointer value) v = add_store_edge s pointer value v
  visit_operation f self (Values.load pointer) v = add_load_edge s (local_value self) pointer v
  visit_operation f self (Values.atomic_cmp_xchg pointer value) v =
      load_and_store (local_value self) pointer value v
  visit_operation f self (Values.atomic_rmw pointer value) v =
      load_and_store (local_value self) pointer value v
  visit_operation f self (Values.get_element_ptr pointer) v =
      add_assign_edge s (local_value self) pointer v
  visit_operation f self (Values.phi_node incoming) v =
      for_each (add_assign_edge s (local_value self)) incoming v
  visit_operation f self (Values.ptr_to_int x) v = add_assign_edge s (local_value self) x v
  visit_operation f self (Values.int_to_ptr x) v = add_assign_edge s (local_value self) x v
  visit_operation f self (Values.bit_cast x) v = add_assign_edge s (local_value self) x v
  visit_operation f self (Values.addr_space_cast x) v = add_assign_edge s (local_value self) x v
  visit_operation f self (Values.select x y) v = assign_both (local_value self) x y v
  visit_operation f self Values.va_arg v = err assertion
  visit_operation f self (Values.extract_element x) v = add_assign_edge s (local_value self) x v
  visit_operation f self (Values.insert_element x y) v = assign_both (local_value self) x y v
  visit_operation f self (Values.shuffle_vector x y) v = assign_both (local_value self) x y v
  visit_operation f self (Values.extract_value x) v = add_assign_edge s (local_value self) x v
  visit_operation f self (Values.insert_value x y) v = assign_both (local_value self) x y v
  visit_operation f self (Values.freeze x) v = add_assign_edge s (local_value self) x v
  visit_operation f self (Values.return_value value) v = visit_return f value v
  visit_operation f self (Values.cast_value x) v = add_assign_edge s (local_value self) x v
  visit_operation f self (Values.unary_operator x) v = add_assign_edge s (local_value self) x v
  visit_operation f self (Values.binary_operator x y) v = assign_both (local_value self) x y v
  visit_operation f self (Values.call_base c) v = visit_call_base s self c v
  visit_operation f self Values.other_operation v = ok v

  unfoldable pub visit : Function → Instruction → EdgeVisitor → Result EdgeVisitor
  visit f i v = visit_operation f i.self i.operation v

  unfoldable pub run_visitor : Body → Writers → Result EdgeVisitor
  run_visitor f w = new_edge_visitor f w >>= for_each (visit f.function) f.instructions

  -- A function's writer, its visit, and `finish`.
  unfoldable pub write_function :
      Sort → (Text → Text → Text) → Body → GraphWriter → Result (EdgeVisitor × GraphWriter)
  write_function sort weakly_canonical f gw = do
    (fw, gw₁) ← new_function weakly_canonical f.function (not s.no_include_debug_data) gw
    v ← run_visitor f (record { function = fw; graph = gw₁ })
    (fw₁, gw₂) ← finish sort v.num_allocas v.writers.function v.writers.graph
    ok (v, gw₂)
