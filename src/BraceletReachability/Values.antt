-- ===== src/BraceletReachability/Values.antt =====
-- What src/BraceletReachability/BraceletReachability.cpp reads of LLVM's constants, values,
-- instructions and functions. A value that is no constant has an address, by which the code
-- compares values.
use bracelet.Prelude.{ℕ, Bool, Option, List}
use bracelet.Edges.Bytes.{Text}
use bracelet.Edges.Symbols.{GlobalValue}

-- `compound` is a `ConstantExpr` or a `ConstantAggregate` with its name, if any, and its operands;
-- `ignored` a `ConstantData`, `BlockAddress`, `NoCFIValue`, `DSOLocalEquivalent` or
-- `ConstantPtrAuth`.
mutual
  pub data Constant : Type 0 where
    global_value : GlobalValue → Constant
    compound : Option Text → Operands → Constant
    ignored : Constant
    unknown_constant : Constant

  pub data Operands : Type 0 where
    end : Operands
    operand : Constant → Operands → Operands
    non_constant : Operands → Operands

-- An instruction or an argument: its name, what `printAsOperand` prints, and, for an instruction,
-- what its stable debug location prints.
pub record Local : Type 0 where
  pub address : ℕ
  pub name : Option Text
  pub operand_text : Text
  pub debug_loc : Option Text

pub data Value : Type 0 where
  constant : Constant → Value
  local_value : Local → Value
  inline_asm : Value
  unknown_value : Value

-- `getCalledFunction()`: one of the four functions of the tracing runtime, or one with a name.
pub data CalledFunction : Type 0 where
  trace_tag_allocation trace_word trace_alloca_allocate trace_alloca_free : CalledFunction
  function : Text → CalledFunction

pub data IntrinsicId : Type 0 where
  not_intrinsic vastart vacopy vaend memmove memcpy other_intrinsic : IntrinsicId

pub record FunctionType : Type 0 where
  pub returns_void : Bool
  pub is_var_arg : Bool
  pub num_params : ℕ

-- `has_label_scope` tells whether the call has a debug location, or its function a subprogram.
pub record CallBase : Type 0 where
  pub is_inline_asm : Bool
  pub called_function : Option CalledFunction
  pub callee_name : Text
  pub intrinsic_id : IntrinsicId
  pub called_operand : Value
  pub function_type : FunctionType
  pub arg_operands : List Value
  pub is_indirect_call : Bool
  pub has_label_scope : Bool

-- One constructor for each class of instruction that has a visitor; a static `alloca` has the size
-- of its allocation.
pub data Operation : Type 0 where
  alloca : Option ℕ → Operation
  store : Value → Value → Operation
  load : Value → Operation
  atomic_cmp_xchg : Value → Value → Operation
  atomic_rmw : Value → Value → Operation
  get_element_ptr : Value → Operation
  phi_node : List Value → Operation
  ptr_to_int : Value → Operation
  int_to_ptr : Value → Operation
  bit_cast : Value → Operation
  addr_space_cast : Value → Operation
  select : Value → Value → Operation
  va_arg : Operation
  extract_element : Value → Operation
  insert_element : Value → Value → Operation
  shuffle_vector : Value → Value → Operation
  extract_value : Value → Operation
  insert_value : Value → Value → Operation
  freeze : Value → Operation
  return_value : Option Value → Operation
  cast_value : Value → Operation
  unary_operator : Value → Operation
  binary_operator : Value → Value → Operation
  call_base : CallBase → Operation
  other_operation : Operation

pub record Instruction : Type 0 where
  pub self : Local
  pub operation : Operation

-- The type of a value, as far as tracing reads it: the bytes that a store of it writes, and the bits
-- of an integer type.
pub record ValueType : Type 0 where
  pub is_pointer : Bool
  pub integer_bits : Option ℕ
  pub store_size : ℕ
