-- ===== src/BraceletReachability/Names.antt =====
-- The names that src/BraceletReachability/BraceletReachability.cpp gives its locals and labels, and
-- those of src/BraceletReachability/AllocFunctions.h, as the numbers of their characters.
use bracelet.Prelude.{ℕ, Bool, false, ◌||◌, List, [], ◌∷◌, ◌++◌}
use bracelet.Edges.Bytes.{Text, equal}
use bracelet.BraceletEdges.Format.{decimal}

abbrev pub var_args_alloca : Text
var_args_alloca =
    84 ∷ 104 ∷ 101 ∷ 86 ∷ 97 ∷ 114 ∷ 65 ∷ 114 ∷ 103 ∷ 115 ∷ 65 ∷ 108 ∷ 108 ∷ 111 ∷ 99 ∷ 97 ∷ []

abbrev pub var_args_area : Text
var_args_area = 84 ∷ 104 ∷ 101 ∷ 86 ∷ 97 ∷ 114 ∷ 65 ∷ 114 ∷ 103 ∷ 115 ∷ 65 ∷ 114 ∷ 101 ∷ 97 ∷ []

abbrev pub var_args_name : Text
var_args_name = 84 ∷ 104 ∷ 101 ∷ 86 ∷ 97 ∷ 114 ∷ 65 ∷ 114 ∷ 103 ∷ 115 ∷ []

abbrev pub vastart_tmp : Text
vastart_tmp = 118 ∷ 97 ∷ 115 ∷ 116 ∷ 97 ∷ 114 ∷ 116 ∷ 40 ∷ 41 ∷ 32 ∷ 116 ∷ 109 ∷ 112 ∷ []

abbrev pub va_copy_tmp : Text
va_copy_tmp = 118 ∷ 97 ∷ 95 ∷ 99 ∷ 111 ∷ 112 ∷ 121 ∷ 40 ∷ 41 ∷ 32 ∷ 116 ∷ 109 ∷ 112 ∷ []

abbrev pub memcpy_tmp : Text
memcpy_tmp = 109 ∷ 101 ∷ 109 ∷ 99 ∷ 112 ∷ 121 ∷ 32 ∷ 116 ∷ 109 ∷ 112 ∷ []

abbrev pub void_call_prefix : Text
void_call_prefix = 86 ∷ 111 ∷ 105 ∷ 100 ∷ 67 ∷ 97 ∷ 108 ∷ 108 ∷ 95 ∷ []

abbrev pub alloca_prefix : Text
alloca_prefix = 65 ∷ 76 ∷ 76 ∷ 79 ∷ 67 ∷ 65 ∷ 95 ∷ []

abbrev pub callsite_label_prefix : Text
callsite_label_prefix = 66 ∷ 82 ∷ 65 ∷ 67 ∷ 69 ∷ 76 ∷ 69 ∷ 84 ∷ 95 ∷ 76 ∷ 65 ∷ 66 ∷ 95 ∷ []

abbrev pub dlsym_name : Text
dlsym_name = 100 ∷ 108 ∷ 115 ∷ 121 ∷ 109 ∷ []

abbrev pub globals_prefix : Text
globals_prefix =
    98 ∷ 114 ∷ 97 ∷ 99 ∷ 101 ∷ 108 ∷ 101 ∷ 116 ∷ 95 ∷ 114 ∷ 101 ∷ 97 ∷ 99 ∷ 104 ∷ 97 ∷ 98 ∷ 105
    ∷ 108 ∷ 105 ∷ 116 ∷ 121 ∷ 95 ∷ 103 ∷ 108 ∷ 111 ∷ 98 ∷ 97 ∷ 108 ∷ 115 ∷ []

abbrev pub liballocs_prefix : Text
liballocs_prefix = 95 ∷ 95 ∷ 108 ∷ 105 ∷ 98 ∷ 97 ∷ 108 ∷ 108 ∷ 111 ∷ 99 ∷ 115 ∷ []

abbrev pub llvm_prefix : Text
llvm_prefix = 108 ∷ 108 ∷ 118 ∷ 109 ∷ 46 ∷ []

unfoldable pub void_call_name : ℕ → Text
void_call_name number = void_call_prefix ++ decimal number

unfoldable pub callsite_label : ℕ → Text
callsite_label local_idx = callsite_label_prefix ++ decimal local_idx

-- `BRACELET_ALLOC_FUNCTION_NAMES`
abbrev pub alloc_function_names : List Text
alloc_function_names =
    (97 ∷ 108 ∷ 105 ∷ 103 ∷ 110 ∷ 101 ∷ 100 ∷ 95 ∷ 97 ∷ 108 ∷ 108 ∷ 111 ∷ 99 ∷ [])
    ∷ (114 ∷ 101 ∷ 97 ∷ 108 ∷ 108 ∷ 111 ∷ 99 ∷ [])
    ∷ (95 ∷ 90 ∷ 110 ∷ 97 ∷ 109 ∷ [])
    ∷ (95 ∷ 95 ∷ 108 ∷ 105 ∷ 98 ∷ 99 ∷ 95 ∷ 109 ∷ 97 ∷ 108 ∷ 108 ∷ 111 ∷ 99 ∷ [])
    ∷ (95 ∷ 90 ∷ 110 ∷ 97 ∷ 109 ∷ 82 ∷ 75 ∷ 83 ∷ 116 ∷ 57 ∷ 110 ∷ 111 ∷ 116 ∷ 104 ∷ 114 ∷ 111 ∷ 119
        ∷ 95 ∷ 116 ∷ [])
    ∷ (95 ∷ 90 ∷ 110 ∷ 119 ∷ 109 ∷ 82 ∷ 75 ∷ 83 ∷ 116 ∷ 57 ∷ 110 ∷ 111 ∷ 116 ∷ 104 ∷ 114 ∷ 111 ∷ 119
        ∷ 95 ∷ 116 ∷ [])
    ∷ (95 ∷ 95 ∷ 108 ∷ 105 ∷ 98 ∷ 99 ∷ 95 ∷ 109 ∷ 101 ∷ 109 ∷ 97 ∷ 108 ∷ 105 ∷ 103 ∷ 110 ∷ [])
    ∷ (109 ∷ 101 ∷ 109 ∷ 97 ∷ 108 ∷ 105 ∷ 103 ∷ 110 ∷ [])
    ∷ (95 ∷ 95 ∷ 108 ∷ 105 ∷ 98 ∷ 99 ∷ 95 ∷ 114 ∷ 101 ∷ 97 ∷ 108 ∷ 108 ∷ 111 ∷ 99 ∷ [])
    ∷ (114 ∷ 101 ∷ 97 ∷ 108 ∷ 108 ∷ 111 ∷ 99 ∷ 97 ∷ 114 ∷ 114 ∷ 97 ∷ 121 ∷ [])
    ∷ (95 ∷ 95 ∷ 108 ∷ 105 ∷ 98 ∷ 99 ∷ 95 ∷ 114 ∷ 101 ∷ 97 ∷ 108 ∷ 108 ∷ 111 ∷ 99 ∷ 97 ∷ 114 ∷ 114
        ∷ 97 ∷ 121 ∷ [])
    ∷ (99 ∷ 97 ∷ 108 ∷ 108 ∷ 111 ∷ 99 ∷ [])
    ∷ (95 ∷ 90 ∷ 110 ∷ 119 ∷ 109 ∷ [])
    ∷ (109 ∷ 97 ∷ 108 ∷ 108 ∷ 111 ∷ 99 ∷ [])
    ∷ (95 ∷ 95 ∷ 108 ∷ 105 ∷ 98 ∷ 99 ∷ 95 ∷ 99 ∷ 97 ∷ 108 ∷ 108 ∷ 111 ∷ 99 ∷ [])
    ∷ []

unfoldable pub contains : Text → List Text → Bool
contains name [] = false
contains name (other ∷ names) = equal name other || contains name names
