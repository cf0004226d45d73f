-- ===== src/Tests/BraceletReachability.antt =====
-- Runs and examples for src/BraceletReachability/BraceletReachability.cpp.
use bracelet.Prelude.{
  ◌≤◌, length, ℕ, ◌+◌, ◌≡◌, refl, true, false, none, some, [], ◌∷◌, Result, ok, err, arith,
}
use bracelet.Edges.Table.{find}
use bracelet.Edges.Node.{Node, empty, is_set, of_symbol, of_local, symbol, local_idx}
use bracelet.Edges.Kind.{shape, make_edge, modify}
use bracelet.Edges.Symbols.{
  GlobalObject, object, required_comdat, assert_comdat, resolve, add_object, add_symbol,
}
use bracelet.Edges.Writer.{
  new_graph, fresh_local, graph_string, graph_symbol, encode_node, encode_edge, add_edge,
}
use bracelet.Edges.Strings.{add_string}
use bracelet.BraceletReachability.Values
use bracelet.BraceletReachability.Values.{
  Constant, global_value, compound, ignored, Operands, end, operand, Local, Value, constant,
  local_value, FunctionType, CallBase, not_intrinsic, ValueType, Instruction,
}
use bracelet.BraceletReachability.Constants.{
  Writers, fresh, symbol_node, this_function, push, fresh_local_for_value, make_fresh, add_set,
  add_node, constant_node,
}
use bracelet.BraceletReachability.Constants.Flow.{IsReached}
use bracelet.BraceletReachability.Constants.Reached.{
  here, below, at_head, in_tail, constant_node-IsReached,
}
use bracelet.BraceletReachability.Constants.Silent.{
  bare_ignored, bare_compound, bare_end, bare_operand, constant_node-empty,
}
use bracelet.BraceletReachability.Visitor.{
  Setting, EdgeVisitor, off, push_edge, local_node, node, push_to, trace_store, add_store_edge,
  add_load_edge,
}
use bracelet.BraceletReachability.Calls.{
  without_alias, edge_idx, call_nargs, call_node, annotate, supply_argument, supply_arguments,
  trace_call, visit_plain_call, visit_call, visit_by_intrinsic, visit_call_base,
}
use bracelet.BraceletReachability.Calls.Supply.{IsSupplied, supply_arguments-IsSupplied}
use bracelet.BraceletReachability.Functions.{
  Body, new_visitor, preprocess_visit_alloca, pre_process, set_up_var_args, define_arguments,
  new_edge_visitor, visit_return, free_allocas, add_return_edge, visit_operation, visit,
  run_visitor,
}
use bracelet.BraceletReachability.Functions.Bounds.{run_visitor-le}
use bracelet.BraceletReachability.Functions.Layout.{IsLaidOut, run_visitor-IsLaidOut}

abbrev value_or : {A : Type 0} → Result A → A → A
value_or (ok a) other = a
value_or (err e) other = other

abbrev global_at : ℕ → GlobalObject
global_at address = record {
  address = address;
  comdat = none;
  internal_linkage = false;
  private_linkage = false;
}

abbrev writers : Writers
writers = record {
  function = record {
    this_symbol_idx = 0;
    sbom_component_idx = 0;
    sbom_version_idx = 0;
    written = false;
    record_debug_data = false;
    num_locals = 0;
    edges = ([], ([], ([], ([], ([], ([], ([], ([], tt))))))));
  };
  graph = new_graph none none [] false;
}

-- An array of the addresses of two global values.
abbrev two_addresses : Constant
two_addresses = compound none (
    operand (global_value (object (global_at 64)))
      (operand ignored (operand (global_value (object (global_at 128))) end)))

abbrev two_addresses_run : Node × Writers
two_addresses_run = value_or (constant_node two_addresses writers) (empty, writers)

two_addresses_runs :
    constant_node two_addresses writers ≡ ok (two_addresses_run.0, two_addresses_run.1)
unfolding constant_node symbol_node graph_symbol add_symbol required_comdat assert_comdat resolve
    add_object of_symbol find fresh fresh_local graph_string push add_edge encode_edge encode_node
    make_edge make_fresh add_set add_node is_set shape of_local symbol local_idx modify new_graph
    add_string
two_addresses_runs = refl

constant_node-IsReached_example :
    IsReached (two_addresses_run.1) (object (global_at 128)) (two_addresses_run.0)
unfolding constant_node symbol_node graph_symbol add_symbol required_comdat assert_comdat resolve
    add_object of_symbol find fresh fresh_local graph_string push add_edge encode_edge encode_node
    make_edge make_fresh add_set add_node is_set shape of_local symbol local_idx modify new_graph
    add_string
constant_node-IsReached_example =
    constant_node-IsReached two_addresses writers (λ a i h. absurd (cc h)) two_addresses_runs
      (omega arith) (object (global_at 128)) (below (in_tail (in_tail (at_head here))))

abbrev numbers_only : Constant
numbers_only = compound none (operand ignored (operand ignored end))

constant_node-empty_example : (empty ≡ empty) × (writers ≡ writers)
unfolding constant_node add_node is_set
constant_node-empty_example =
    constant_node-empty numbers_only writers
      (bare_compound (bare_operand bare_ignored (bare_operand bare_ignored bare_end))) refl

abbrev local_at : ℕ → Local
local_at address = record { address = address; name = none; operand_text = []; debug_loc = none }

abbrev setting : Setting
setting = record {
  no_include_debug_data = true;
  trace_mode = off;
  type_of = λ value. record { is_pointer = true; integer_bits = none; store_size = 8 };
  pointer_size = 8;
  page_address = λ address. address + 1;
}

abbrev instruction : ℕ → Values.Operation → Instruction
instruction address operation = record { self = local_at address; operation = operation }

-- A call of a variadic function with one fixed parameter.
abbrev printf_call : CallBase
printf_call = record {
  is_inline_asm = false;
  called_function = none;
  callee_name = [];
  intrinsic_id = not_intrinsic;
  called_operand = constant (global_value (object (global_at 64)));
  function_type = record { returns_void = true; is_var_arg = true; num_params = 1 };
  arg_operands = local_value (local_at 12) ∷ local_value (local_at 9) ∷ [];
  is_indirect_call = false;
  has_label_scope = true;
}

-- A variadic function that stores its argument to an `alloca`, loads it and prints it.
abbrev body : Body
body = record {
  function = record { value = object (global_at 256); file = none };
  is_var_arg = true;
  args = local_at 9 ∷ [];
  instructions =
      instruction 10 (Values.alloca (some 8))
      ∷ instruction 11 (Values.alloca none)
      ∷ instruction 13 (Values.store (local_value (local_at 11)) (local_value (local_at 9)))
      ∷ instruction 12 (Values.load (local_value (local_at 11)))
      ∷ instruction 14 (Values.call_base printf_call)
      ∷ instruction 15 (Values.return_value (some (local_value (local_at 12))))
      ∷ [];
}

abbrev visited : EdgeVisitor
visited = value_or (run_visitor setting body writers) (new_visitor writers)

body_runs : run_visitor setting body writers ≡ ok visited
unfolding constant_node symbol_node graph_symbol add_symbol required_comdat assert_comdat resolve
    add_object of_symbol find fresh fresh_local graph_string push add_edge encode_edge encode_node
    make_edge make_fresh add_set add_node is_set shape of_local symbol local_idx modify new_graph
    add_string run_visitor new_edge_visitor pre_process preprocess_visit_alloca set_up_var_args
    define_arguments this_function push_to push_edge node local_node fresh_local_for_value visit
    visit_operation add_store_edge add_load_edge trace_store visit_call_base visit_by_intrinsic
    visit_call call_node annotate visit_plain_call supply_arguments supply_argument edge_idx
    trace_call without_alias visit_return free_allocas add_return_edge
body_runs = refl

run_visitor-IsLaidOut_example : IsLaidOut body visited
run_visitor-IsLaidOut_example = run_visitor-IsLaidOut setting body writers refl body_runs

abbrev supplied_visitor : EdgeVisitor
supplied_visitor =
    value_or
      (supply_arguments setting printf_call.function_type true (record { raw = 65537 }) 0
        printf_call.arg_operands (new_visitor writers))
      (new_visitor writers)

printf_supplied :
    supply_arguments setting printf_call.function_type true
      (record { raw = 65537 })
      0
      printf_call.arg_operands
      (new_visitor writers)
    ≡ ok supplied_visitor
unfolding find fresh fresh_local graph_string push add_edge encode_edge encode_node make_edge is_set
    shape of_local symbol local_idx modify new_graph add_string push_edge node local_node
    fresh_local_for_value supply_arguments supply_argument edge_idx
printf_supplied = refl

supply_arguments-IsSupplied_example :
    IsSupplied (call_nargs true 1) (new_visitor writers) supplied_visitor
supply_arguments-IsSupplied_example =
    supply_arguments-IsSupplied setting printf_call.function_type true (record { raw = 65537 })
      printf_call.arg_operands (new_visitor writers) printf_supplied

run_visitor-le_example :
    (visited.num_allocas ≤ visited.writers.function.num_locals)
    × (length visited.locals ≤ visited.writers.function.num_locals)
run_visitor-le_example = run_visitor-le setting body writers refl body_runs
