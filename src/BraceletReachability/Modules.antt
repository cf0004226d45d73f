-- ===== src/BraceletReachability/Modules.antt =====
-- src/BraceletReachability/BraceletReachability.cpp: `runBraceletReachability` up to the writing of the
-- graphs, and `getSbomInfo`. A module has one comdat of a name, so that names stand for the pointers
-- by which the maps of writers find them; the maps are lists in the order of insertion.
use bracelet.Prelude.{
  Bool, true, false, not, ◌&&◌, ◌||◌, Option, none, some, List, [], ◌∷◌, Result, ok, ◌>>=◌,
  for_each, if◌then◌else◌,
}
use bracelet.Edges.Bytes.{Text, equal}
use bracelet.Edges.Section.{has_prefix}
use bracelet.Edges.Node.{is_set}
use bracelet.Edges.Kind.{shape, store}
use bracelet.Edges.Table.{find}
use bracelet.Edges.Symbols.{Comdat, GlobalObject, object}
use bracelet.Edges.Writer.{
  SbomInformation, Function, GraphWriter, FunctionWriter, Sort, new_graph, new_function, finish,
}
use bracelet.BraceletReachability.Values.{Constant, global_value}
use bracelet.BraceletReachability.Names.{globals_prefix, liballocs_prefix, llvm_prefix}
use bracelet.BraceletReachability.Constants.{Writers, constant_node, push}
use bracelet.BraceletReachability.Visitor.{Setting}
use bracelet.BraceletReachability.Functions.{Body, write_function}

pub record GlobalVariable : Type 0 where
  pub variable : GlobalObject
  pub name : Text
  pub is_externally_initialized : Bool
  pub initializer : Option Constant

pub record ModuleFunction : Type 0 where
  pub body : Body
  pub name : Text
  pub comdat : Option Comdat
  pub is_intrinsic : Bool
  pub is_declaration : Bool

-- The global variables and the functions of a module before the pass.
pub record LlvmModule : Type 0 where
  pub variables : List GlobalVariable
  pub functions : List ModuleFunction

-- `getSbomInfo`, of the two options.
unfoldable pub get_sbom_info : Text → Text → Option SbomInformation
get_sbom_info [] version = none
get_sbom_info (c ∷ cs) [] = none
get_sbom_info (c ∷ cs) (v ∷ vs) = some (record { component_name = c ∷ cs; version = v ∷ vs })

unfoldable pub same_comdat : Option Comdat → Option Comdat → Bool
same_comdat none none = true
same_comdat none (some d) = false
same_comdat (some c) none = false
same_comdat (some c) (some d) = equal c.name d.name

-- Write to a map of writers, which keeps the place of a comdat that it has.
unfoldable pub put :
    {V : Type 0} → Option Comdat → V → List (Option Comdat × V) → List (Option Comdat × V)
unfolding same_comdat
put c x [] = (c, x) ∷ []
put c x ((d, y) ∷ m) = if same_comdat c d then (d, x) ∷ m else (d, y) ∷ put c x m

pub record ModuleWriters : Type 0 where
  pub graph_writers : List (Option Comdat × GraphWriter)
  pub global_writers : List (Option Comdat × FunctionWriter)

-- What the pass gets from outside: the table of files, the sort and the paths of the writers, and the
-- function that it makes for the initializers of the variables of a comdat.
pub record Surroundings : Type 0 where
  pub setting : Setting
  pub sbom_info : Option SbomInformation
  pub sbom_map : List (Text × SbomInformation)
  pub sort : Sort
  pub weakly_canonical : Text → Text → Text
  pub globals_function : Option Comdat → Function

module _ (e : Surroundings) where
  -- `GraphWriterForComdat`
  unfoldable pub graph_writer_for_comdat : Option Comdat → ModuleWriters → GraphWriter
  unfolding same_comdat
  graph_writer_for_comdat c m = elim (find same_comdat c m.graph_writers) [
    | some gw ↦ gw
    | none ↦ new_graph c e.sbom_info e.sbom_map (not e.setting.no_include_debug_data)
  ]

  -- The writer of the initializers of a comdat, made with its function on its first use.
  unfoldable pub global_writer : Option Comdat → ModuleWriters → Result Writers
  unfolding same_comdat
  global_writer c m = elim (find same_comdat c m.global_writers) [
    | some fw ↦ ok (record { function = fw; graph = graph_writer_for_comdat c m })
    | none ↦ do
      (fw, gw) ←
          new_function e.weakly_canonical (e.globals_function c)
            (not e.setting.no_include_debug_data) (graph_writer_for_comdat c m)
      ok (record { function = fw; graph = gw })
  ]

  -- A variable's initializer, stored to the variable unless its node is null.
  unfoldable pub write_initializer : GlobalObject → Constant → Writers → Result Writers
  unfolding shape
  write_initializer variable c w = do
    (n, w₁) ← constant_node c w
    if is_set n
        then constant_node (global_value (object variable)) w₁ >>= (λ r. push store r.0 n tt r.1)
        else ok w₁

  unfoldable pub is_written : GlobalVariable → Bool
  is_written v = not v.is_externally_initialized && not (has_prefix llvm_prefix v.name)

  unfoldable pub visit_variable : GlobalVariable → ModuleWriters → Result ModuleWriters
  visit_variable v m = elim (if is_written v then v.initializer else none) [
    | none ↦ ok m
    | some c ↦ do
      w ← global_writer v.variable.comdat m
      w₁ ← write_initializer v.variable c w
      ok (record {
        graph_writers = put v.variable.comdat w₁.graph m.graph_writers;
        global_writers = put v.variable.comdat w₁.function m.global_writers;
      })
  ]

  unfoldable pub finish_globals :
      Option Comdat × FunctionWriter → ModuleWriters → Result ModuleWriters
  finish_globals (c, fw) m = do
    (fw₁, gw) ← finish e.sort 0 fw (graph_writer_for_comdat c m)
    ok (record {
      graph_writers = put c gw m.graph_writers;
      global_writers = put c fw₁ m.global_writers;
    })

  -- The functions that get no graph: the functions of the initializers are among them by their names.
  unfoldable pub is_skipped : ModuleFunction → Bool
  is_skipped f =
      f.is_intrinsic
      || f.is_declaration
      || has_prefix globals_prefix f.name
      || has_prefix liballocs_prefix f.name

  unfoldable pub visit_module_function : ModuleFunction → ModuleWriters → Result ModuleWriters
  visit_module_function f m = if is_skipped f then ok m else (do
    (v, gw) ←
        write_function e.setting e.sort e.weakly_canonical f.body
          (graph_writer_for_comdat f.comdat m)
    ok (record m { graph_writers = put f.comdat gw m.graph_writers }))

  -- `runBraceletReachability` with `-bracelet-emit-edges`, up to `writeTo` of each graph.
  unfoldable pub run_bracelet_reachability : LlvmModule → Result ModuleWriters
  run_bracelet_reachability l = do
    m ← for_each visit_variable l.variables (record { graph_writers = []; global_writers = [] })
    m₁ ← for_each finish_globals m.global_writers m
    for_each visit_module_function l.functions m₁
