-- ===== src/PointsTo/Text.antt =====
-- src/PointsTo/PointsTo.cpp: the C text that `EmitC` writes outside its templates, the report of
-- missing functions, and the names that the check of traces prints.
use bracelet.Prelude.{
  ℕ, zero, suc, ◌+◌, Option, none, some, List, [], ◌∷◌, ◌++◌, Result, ok, err, ◌>>=◌, ◌>>◌, assert,
  ◌==◌, if◌then◌else◌,
}
use bracelet.Edges.Bytes.{Text}
use bracelet.Edges.Table.{find}
use bracelet.Edges.Node.{Node, symbol, local_idx, of_local}
use bracelet.Edges.Strings.{local_name}
use bracelet.Edges.Section.{Object, Codecs, read_edges}
use bracelet.Edges.Reader.{FunctionInfo}
use bracelet.BraceletEdges.Format.{format_hex, decimal}
use bracelet.PointsTo.States.{
  NodeState, undefined_state, global_data, function_state, NodeStates, assign_entry, is_function,
}

abbrev unknown_name : Text
unknown_name = 60 ∷ 117 ∷ 110 ∷ 107 ∷ 110 ∷ 111 ∷ 119 ∷ 110 ∷ 62 ∷ []

abbrev node_prefix : Text
node_prefix = 78 ∷ 79 ∷ 68 ∷ 69 ∷ 95 ∷ []

abbrev comment_open : Text
comment_open = 32 ∷ 47 ∷ 42 ∷ 32 ∷ []

abbrev comment_close : Text
comment_close = 32 ∷ 42 ∷ 47 ∷ []

abbrev local_prefix : Text
local_prefix = 108 ∷ 111 ∷ 99 ∷ 97 ∷ 108 ∷ 95 ∷ []

abbrev underscore : Text
underscore = 95 ∷ []

abbrev type_open : Text
type_open = 84 ∷ 32 ∷ []

abbrev void_text : Text
void_text = 118 ∷ 111 ∷ 105 ∷ 100 ∷ []

abbrev first_arg : Text
first_arg = 84 ∷ 32 ∷ 97 ∷ 114 ∷ 103 ∷ 48 ∷ []

abbrev next_arg : Text
next_arg = 44 ∷ 32 ∷ 84 ∷ 32 ∷ 97 ∷ 114 ∷ 103 ∷ []

abbrev extern_open : Text
extern_open = 101 ∷ 120 ∷ 116 ∷ 101 ∷ 114 ∷ 110 ∷ 32 ∷ 84 ∷ 32 ∷ []

abbrev define_open : Text
define_open = 35 ∷ 100 ∷ 101 ∷ 102 ∷ 105 ∷ 110 ∷ 101 ∷ 32 ∷ []

abbrev override_open : Text
override_open = 32 ∷ 79 ∷ 86 ∷ 69 ∷ 82 ∷ 82 ∷ 73 ∷ 68 ∷ 69 ∷ 40 ∷ []

abbrev line_end : Text
line_end = 59 ∷ 10 ∷ []

abbrev close_line : Text
close_line = 41 ∷ 10 ∷ []

abbrev init_open : Text
init_open =
    59 ∷ 10 ∷ 118 ∷ 111 ∷ 105 ∷ 100 ∷ 32 ∷ 98 ∷ 114 ∷ 97 ∷ 99 ∷ 101 ∷ 108 ∷ 101 ∷ 116 ∷ 95 ∷ 103
    ∷ 108 ∷ 111 ∷ 98 ∷ 97 ∷ 108 ∷ 95 ∷ 105 ∷ 110 ∷ 105 ∷ 116 ∷ 95 ∷ []

abbrev init_body : Text
init_body = 40 ∷ 118 ∷ 111 ∷ 105 ∷ 100 ∷ 41 ∷ 32 ∷ 123 ∷ 32 ∷ []

abbrev init_end : Text
init_end =
    32 ∷ 61 ∷ 32 ∷ 109 ∷ 97 ∷ 108 ∷ 108 ∷ 111 ∷ 99 ∷ 40 ∷ 95 ∷ 95 ∷ 110 ∷ 111 ∷ 110 ∷ 100 ∷ 101
    ∷ 116 ∷ 101 ∷ 114 ∷ 109 ∷ 105 ∷ 110 ∷ 105 ∷ 115 ∷ 116 ∷ 105 ∷ 99 ∷ 95 ∷ 99 ∷ 104 ∷ 111 ∷ 105
    ∷ 99 ∷ 101 ∷ 40 ∷ 41 ∷ 41 ∷ 59 ∷ 32 ∷ 125 ∷ 10 ∷ []

abbrev include_prelude : Text
include_prelude =
    35 ∷ 105 ∷ 110 ∷ 99 ∷ 108 ∷ 117 ∷ 100 ∷ 101 ∷ 32 ∷ 34 ∷ 112 ∷ 114 ∷ 101 ∷ 108 ∷ 117 ∷ 100 ∷ 101
    ∷ 46 ∷ 104 ∷ 34 ∷ 10 ∷ []

abbrev undefined_text : Text
undefined_text =
    78 ∷ 111 ∷ 100 ∷ 101 ∷ 83 ∷ 116 ∷ 97 ∷ 116 ∷ 101 ∷ 85 ∷ 110 ∷ 100 ∷ 101 ∷ 102 ∷ 105 ∷ 110 ∷ 101
    ∷ 100 ∷ []

abbrev global_data_text : Text
global_data_text =
    78 ∷ 111 ∷ 100 ∷ 101 ∷ 83 ∷ 116 ∷ 97 ∷ 116 ∷ 101 ∷ 71 ∷ 108 ∷ 111 ∷ 98 ∷ 97 ∷ 108 ∷ 68 ∷ 97
    ∷ 116 ∷ 97 ∷ []

abbrev function_text : Text
function_text =
    78 ∷ 111 ∷ 100 ∷ 101 ∷ 83 ∷ 116 ∷ 97 ∷ 116 ∷ 101 ∷ 70 ∷ 117 ∷ 110 ∷ 99 ∷ 116 ∷ 105 ∷ 111 ∷ 110
    ∷ 40 ∷ []

-- `AbslStringify` of a `NodeState`.
unfoldable pub state_text : NodeState → Text
state_text undefined_state = undefined_text
state_text global_data = global_data_text
state_text (function_state nargs) = function_text ++ decimal nargs ++ 41 ∷ []

module _ (symbol_name : ℕ → Result Text) where
  -- `SymbolRendering`: a symbol without a name is only warned about.
  unfoldable pub name_or_unknown : ℕ → Text
  name_or_unknown address = elim (symbol_name address) [ err e ↦ unknown_name | ok name ↦ name ]

  unfoldable pub render_symbol : ℕ → Text
  unfolding name_or_unknown
  render_symbol address =
      node_prefix ++ format_hex address ++ comment_open ++ name_or_unknown address ++ comment_close

  -- `NodeRendering`, in the function of a node.
  unfoldable pub render_node : Node → Node → Result Text
  unfolding render_symbol
  render_node function n = do
    l ← local_idx n
    s ← symbol n
    this ← symbol function
    elim l [
      | none ↦ ok (render_symbol s)
      | some i ↦
          assert (s == this) >> ok (local_prefix ++ decimal i ++ underscore ++ render_symbol s)
    ]

  -- The parameters from `i` on, of which there are `count`.
  unfoldable pub more_args : ℕ → ℕ → Text
  more_args zero i = []
  more_args (suc count) i = next_arg ++ decimal i ++ more_args count (i + 1)

  -- `writePrototype`
  unfoldable pub prototype_args : ℕ → Text
  unfolding more_args
  prototype_args zero = void_text
  prototype_args (suc n) = first_arg ++ more_args n 1

  unfoldable pub write_prototype : ℕ → ℕ → Text
  unfolding render_symbol prototype_args
  write_prototype address nargs =
      type_open ++ render_symbol address ++ 40 ∷ (prototype_args nargs ++ 41 ∷ [])

  -- The declaration of a symbol in `prelude.h`; the name of an undefined symbol is asked for to warn.
  unfoldable pub declaration : ℕ → NodeState → Result Text
  unfolding write_prototype
  declaration address (function_state nargs) = ok (write_prototype address nargs ++ line_end)
  declaration address global_data = ok (extern_open ++ render_symbol address ++ line_end)
  declaration address undefined_state =
      symbol_name address >>= λ name. ok (extern_open ++ render_symbol address ++ line_end)

  unfoldable pub declarations : NodeStates → Result Text
  unfolding declaration
  declarations [] = ok []
  declarations ((k, state) ∷ m) = do
    address ← symbol (record { raw = k })
    text ← declaration address state
    rest ← declarations m
    ok (text ++ rest)

  -- The lines that put an override in a symbol's place.
  unfoldable pub override_lines : List (ℕ × Text) → Result Text
  unfolding render_symbol
  override_lines [] = ok []
  override_lines ((k, name) ∷ m) = do
    address ← symbol (record { raw = k })
    rest ← override_lines m
    ok (define_open ++ render_symbol address ++ override_open ++ name ++ close_line ++ rest)

  -- `globals.c`: the variables, each with a function that initializes it.
  unfoldable pub global_line : ℕ → Text
  unfolding render_symbol
  global_line address =
      let name = render_symbol address in
      type_open ++ name ++ init_open ++ name ++ init_body ++ name ++ init_end

  unfoldable pub global_lines : NodeStates → Result Text
  unfolding global_line
  global_lines [] = ok []
  global_lines ((k, state) ∷ m) = do
    address ← symbol (record { raw = k })
    rest ← global_lines m
    ok (if is_function state then rest else global_line address ++ rest)

  unfoldable pub globals_text : NodeStates → Result Text
  unfolding global_lines
  globals_text m = global_lines m >>= λ lines. ok (include_prelude ++ lines)

  -- `missing.txt`: the functions that are declared and have no file.
  unfoldable pub missing_lines : List ℕ → Result Text
  unfolding name_or_unknown
  missing_lines [] = ok []
  missing_lines (k ∷ ks) = do
    address ← symbol (record { raw = k })
    rest ← missing_lines ks
    ok (format_hex address ++ 9 ∷ (name_or_unknown address ++ 10 ∷ rest))

-- The functions that are left when one is written to its file.
unfoldable pub erase : ℕ → List ℕ → List ℕ
erase k [] = []
erase k (j ∷ js) = let rest = erase k js in if k == j then rest else j ∷ rest

-- The names of the locals of a function from `i` on, of which there are `count`.
unfoldable pub local_names_from :
    FunctionInfo → ℕ → ℕ → ℕ → List (ℕ × Text) → Result (List (ℕ × Text))
local_names_from fi this zero i names = ok names
local_names_from fi this (suc count) i names = do
  n ← of_local this i
  name ← local_name fi.debug_data i
  local_names_from fi this count (i + 1) (assign_entry n.raw name names)

-- The names of all locals that have one, which both warnings and the report of missing edges read.
unfoldable pub collect_local_names : FunctionInfo → List (ℕ × Text) → Result (List (ℕ × Text))
collect_local_names fi names = elim fi.debug_data.local_indices [
  | none ↦ ok names
  | some indices ↦ symbol fi.function >>= λ this. local_names_from fi this fi.num_locals 0 names
]

unfoldable pub debug_names : Object → Codecs → Result (List (ℕ × Text))
debug_names target codecs = read_edges target codecs collect_local_names []

-- `print`: the symbol, and the local by its name or its number.
unfoldable pub print_local : List (ℕ × Text) → Node → Option ℕ → Text
print_local names n none = []
print_local names n (some i) =
    58 ∷ (elim (find ◌==◌ n.raw names) [ none ↦ 60 ∷ (decimal i ++ 62 ∷ []) | some name ↦ name ])

unfoldable pub print_endpoint : (ℕ → Result Text) → List (ℕ × Text) → Node → Result Text
unfolding print_local
print_endpoint symbol_name names n = do
  address ← symbol n
  name ← symbol_name address
  l ← local_idx n
  ok (name ++ print_local names n l)

-- The printing of a node that the check of traces is given.
unfoldable pub print_with_names : Object → Codecs → (ℕ → Result Text) → Node → Result (Unit {0})
print_with_names target codecs symbol_name n = do
  names ← debug_names target codecs
  text ← print_endpoint symbol_name names n
  ok tt
