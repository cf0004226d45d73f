-- ===== src/Tests/PointsTo.antt =====
-- Runs and examples for src/PointsTo/PointsTo.cpp.
use bracelet.Prelude.{
  ◌≢◌, some, arith, ℕ, ◌+◌, ◌*◌, ◌/◌, ◌%◌, ◌≡◌, ◌⊎◌, ◌↔◌, refl, List, [], ◌∷◌, ok, err,
  nargs_mismatch, for_each,
}
use bracelet.Edges.Bytes.{equal, Text}
use bracelet.Edges.Table.{find}
use bracelet.Edges.Node.{Node, local_idx, of_local}
use bracelet.Edges.Section.{Section}
use bracelet.Tracing.HashSet.{TraceEdge}
use bracelet.PointsTo.States.{
  NodeState, undefined_state, global_data, function_state, NodeStates, set_nargs, merge, same_state,
  assign_entry,
}
use bracelet.PointsTo.States.Join.{set_all, AreGlobal, IsJoin, IsConflict, set_all-IsJoin}
use bracelet.PointsTo.Trace.{
  Edges, SiteFormat, read_sites, section_sites, invalid_address, check_points_to_against_trace,
}
use bracelet.Edges.Node.Laws.{node, of_local_eq}
use bracelet.PointsTo.Trace.Sites.{AreSiteNodes, enter_sites, section_sites-enter_sites}
use bracelet.PointsTo.Trace.Chain.{All}
use bracelet.PointsTo.Trace.Entries.{IsCovered}
use bracelet.PointsTo.Trace.Covered.{check-IsCovered}

abbrev symbol_at : ℕ → Node
symbol_at number = record { raw = (number + 1) * 65536 }

-- A function of two arguments that is called twice, and a variable that is stored to.
abbrev asked : List (Node × NodeState)
asked =
    (symbol_at 4, undefined_state)
    ∷ (symbol_at 4, function_state 2)
    ∷ (symbol_at 9, global_data)
    ∷ (symbol_at 4, function_state 2)
    ∷ []

asked-AreGlobal : AreGlobal asked
unfolding local_idx
asked-AreGlobal = (refl, (refl, (refl, (refl, tt))))

set_all-IsJoin_example :
    ((m : NodeStates) × (set_all asked [] ≡ ok m) × IsJoin asked m)
    ⊎ ((set_all asked [] ≡ err nargs_mismatch) × IsConflict asked)
set_all-IsJoin_example = set_all-IsJoin asked asked-AreGlobal

asked_states :
    set_all asked []
    ≡ ok (((4 + 1) * 65536, function_state 2) ∷ ((9 + 1) * 65536, global_data) ∷ [])
unfolding set_nargs find local_idx assign_entry merge same_state
asked_states = refl

-- Two trace sites of the function at 4, and a trace that relates the first to the second.
abbrev format : SiteFormat
format = record { size_of_site = 16; load_site = λ addr. ok (4, addr / 16 % 4) }

abbrev site_section : List Section
site_section = record { name = 115 ∷ []; start = 64; size = 32 } ∷ []

abbrev sites : List (ℕ × Node)
sites = (64, record { raw = 5 * 65536 + 1 }) ∷ (80, record { raw = 5 * 65536 + 2 }) ∷ []

sites_read : for_each (section_sites format (115 ∷ [])) site_section [] ≡ ok sites
unfolding section_sites read_sites equal of_local assign_entry
sites_read = refl

abbrev trace : List (List TraceEdge)
trace = (record { trace_site = 65; value = 80 } ∷ record { trace_site = 1; value = 7 } ∷ []) ∷ []

abbrev graph : Edges
graph = (record { raw = 5 * 65536 + 1 }, record { raw = 5 * 65536 + 2 }) ∷ []

check-IsCovered_example :
    (check_points_to_against_trace
        (λ a. invalid_address)
        (λ n. ok tt)
        graph
        format
        (115 ∷ [])
        site_section
        trace
      ≡ ok tt)
    ↔ All (All (IsCovered (λ a. invalid_address) (λ n. ok tt) graph sites)) trace
check-IsCovered_example =
    check-IsCovered (λ a. invalid_address) (λ n. ok tt) graph format (115 ∷ []) site_section trace
      sites sites_read

abbrev site_at : ℕ → Node
site_at addr = node 4 (some (addr / 16 % 4))

format-AreSiteNodes : (start end : ℕ) → AreSiteNodes format site_at start end
format-AreSiteNodes start end addr within =
    let number = addr / 16 % 4 in
    ((4, number), refl, of_local_eq 4 number (omega arith) (omega arith))

abbrev small_section : Section
small_section = record { name = 115 ∷ []; start = 64; size = 40 }

section_sites-enter_sites_example :
    ((◌≡◌ {A = Text} (115 ∷ []) (115 ∷ []))
      × (section_sites format (115 ∷ []) small_section []
          ≡ ok (enter_sites site_at 16 (40 / 16) 64 [])))
    ⊎ ((◌≢◌ {A = Text} (115 ∷ []) (115 ∷ []))
        × (section_sites format (115 ∷ []) small_section [] ≡ ok []))
section_sites-enter_sites_example =
    section_sites-enter_sites format site_at (115 ∷ []) small_section [] (omega arith) (omega arith)
      (λ e. format-AreSiteNodes 64 104)
