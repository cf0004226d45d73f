-- ===== src/PointsTo/Trace.antt =====
-- src/PointsTo/PointsTo.cpp: the edges of the points-to graph as `computePointsTo` reads them, and
-- `checkPointsToAgainstTrace`. Hash sets of edges are lists without copies.
pub mod Chain
pub mod Entries
pub mod Covered
pub mod Sites
use bracelet.Prelude.{
  ℕ, zero, suc, ◌+◌, ◌-◌, ◌*◌, ◌/◌, ◌%◌, ◌^◌, Bool, true, false, ◌&&◌, ◌||◌, Option, none, some,
  List, [], ◌∷◌, ◌++◌, Result, ok, err, out_of_fuel, unparsed_points_to, unknown_trace_site,
  no_start_address, missing_edges, ◌>>=◌, ◌>>◌, ensure, for_each, leb, ltb, ◌==◌, if◌then◌else◌,
}
use bracelet.Edges.Bytes.{Text, equal}
use bracelet.Edges.Table.{find}
use bracelet.Edges.Node.{Node, of_symbol, of_local}
use bracelet.Edges.Section.{Section}
use bracelet.Tracing.HashSet.{TraceEdge}
use bracelet.PointsTo.States.{assign_entry}

abbrev pub Edges : Type 0
Edges = List (Node × Node)

unfoldable pub same_pair : Node × Node → Node × Node → Bool
same_pair (a, b) (c, d) = a.raw == c.raw && b.raw == d.raw

unfoldable pub holds_pair : Node × Node → Edges → Bool
unfolding same_pair
holds_pair e [] = false
holds_pair e (x ∷ xs) = same_pair e x || holds_pair e xs

unfoldable pub insert_pair : Node × Node → Edges → Edges
unfolding holds_pair
insert_pair e es = if holds_pair e es then es else es ++ e ∷ []

-- A line of `pts.csv`, cut by the expression into two addresses, each with a local or `-`.
unfoldable pub entry_node : ℕ → Option ℕ → Result Node
entry_node address none = of_symbol address
entry_node address (some local_idx) = of_local address local_idx

unfoldable pub add_line :
    (Text → Option ((ℕ × Option ℕ) × (ℕ × Option ℕ))) → Text → Edges → Result Edges
unfolding insert_pair
add_line match line out = elim (match line) [
  | none ↦ err unparsed_points_to
  | some (src, dst) ↦ do
    s ← entry_node src.0 src.1
    d ← entry_node dst.0 dst.1
    ok (insert_pair (s, d) out)
]

-- The loop over the lines of `pts.csv`.
unfoldable pub read_points_to :
    (Text → Option ((ℕ × Option ℕ) × (ℕ × Option ℕ))) → List Text → Result Edges
read_points_to match lines = for_each (add_line match) lines []

-- `sizeof(BraceletTraceSite)` and its `load`, which gives the function's pointer and the local.
pub record SiteFormat : Type 0 where
  pub size_of_site : ℕ
  pub load_site : ℕ → Result (ℕ × ℕ)

-- The loop over the trace sites of a section; addresses wrap at 64 bits.
unfoldable pub read_sites : SiteFormat → ℕ → ℕ → ℕ → List (ℕ × Node) → Result (List (ℕ × Node))
read_sites format zero end addr sites = err out_of_fuel
read_sites format (suc fuel) end addr sites =
    elim (leb ((addr + format.size_of_site) % 2 ^ 64) end) [
      | false ↦ ok sites
      | true ↦ do
        (function, local_idx) ← format.load_site addr
        n ← of_local function local_idx
        read_sites format fuel end ((addr + format.size_of_site) % 2 ^ 64)
            (assign_entry addr n sites)
    ]

-- A section has no more sites than bytes.
unfoldable pub section_sites :
    SiteFormat → Text → Section → List (ℕ × Node) → Result (List (ℕ × Node))
section_sites format trace_site_name s sites =
    if equal s.name trace_site_name
    then read_sites format (suc s.size) ((s.start + s.size) % 2 ^ 64) s.start sites
    else ok sites

-- `ResolveLoadAddress` of LLDB and the symbol at the address: nothing, an address without a symbol, a
-- symbol without a start, or the start of a symbol.
pub data Resolved : Type 0 where
  invalid_address : Resolved
  no_symbol : Resolved
  no_start : Resolved
  symbol_start : ℕ → Resolved

-- What a value is, if it is known: the local of a trace site, or a symbol. The warnings for the others
-- print a node, which may fail.
unfoldable pub value_node :
    (ℕ → Resolved) → (Node → Result (Unit {0})) → List (ℕ × Node) → Node → ℕ → Result (Option Node)
value_node resolve print sites site value = elim (find ◌==◌ value sites) [
  | some n ↦ ok (some n)
  | none ↦ elim (resolve value) [
    | invalid_address ↦ ok none
    | no_symbol ↦ print site >>= λ u. ok none
    | no_start ↦ err no_start_address
    | symbol_start start ↦ of_symbol start >>= λ n. ok (some n)
  ]
]

-- The edge between nodes that an entry of a trace stands for, if any.
unfoldable pub trace_pair :
    (ℕ → Resolved)
    → (Node → Result (Unit {0}))
    → List (ℕ × Node)
    → TraceEdge
    → Result (Option (Node × Node))
trace_pair resolve print sites e =
    let address = e.trace_site / 2 * 2 % 2 ^ 64 in
    elim (address == 0) [
      | true ↦ ok none
      | false ↦ elim (find ◌==◌ address sites) [
        | none ↦ err unknown_trace_site
        | some site ↦ value_node resolve print sites site e.value >>= λ o. elim o [
          | none ↦ ok none
          | some n ↦ ok (some (site, n))
        ]
      ]
    ]

pub record Check : Type 0 where
  pub missing : Edges
  pub trace_edge_count : ℕ

-- The test of an edge against the static graph.
unfoldable pub check_pair : Edges → Option (Node × Node) → Check → Check
check_pair static_edges none c = c
check_pair static_edges (some e) c = record {
  missing = if holds_pair e static_edges then c.missing else insert_pair e c.missing;
  trace_edge_count = (c.trace_edge_count + 1) % 2 ^ 64;
}

-- `print` of the two ends of each missing edge may fail before the last test does.
unfoldable pub print_missing : (Node → Result (Unit {0})) → Edges → Result (Unit {0})
print_missing print [] = ok tt
print_missing print ((dst, src) ∷ es) = print dst >> print src >> print_missing print es

abbrev pub is_empty : Edges → Bool
is_empty [] = true
is_empty (e ∷ es) = false

unfoldable pub report : (Node → Result (Unit {0})) → Edges → Result (Unit {0})
report print missing = print_missing print missing >> ensure (is_empty missing) missing_edges

module _ (resolve : ℕ → Resolved) (print : Node → Result (Unit {0})) (static_edges : Edges) where
  unfoldable pub check_entry : List (ℕ × Node) → TraceEdge → Check → Result Check
  check_entry sites e c = do o ← trace_pair resolve print sites e; ok (check_pair static_edges o c)

  -- The loop over the files, each the list of its entries, and over these.
  unfoldable pub check_files : List (ℕ × Node) → List (List TraceEdge) → Result Check
  check_files sites files =
      for_each (for_each (check_entry sites)) files (record { missing = []; trace_edge_count = 0 })

  unfoldable pub check_points_to_against_trace :
      SiteFormat → Text → List Section → List (List TraceEdge) → Result (Unit {0})
  check_points_to_against_trace format trace_site_name sections files = do
    sites ← for_each (section_sites format trace_site_name) sections []
    c ← check_files sites files
    report print c.missing
