-- ===== src/Tracing/Runtime.antt =====
-- src/Tracing/Runtime/trace_runtime.cpp and exports.cpp: traced values become edges. The state is one
-- thread's: its heap and its table of edges, and the published segments. A site is its address.
pub mod Words
pub mod Tagged
use bracelet.Prelude.{
  ℕ, zero, suc, Bool, true, false, Option, none, some, List, [], ◌++◌, Result, ok, err, out_of_fuel,
  assertion, ◌>>=◌, ltb, ◌==◌, if◌then◌else◌, length, take, drop,
}
use bracelet.Tracing.HashSet.{TraceEdge, EdgeHashSet, add_edge}
use bracelet.Tracing.Simplify.{number_of_bytes}
use bracelet.Tracing.Vhmalloc.Heap.{Heap}
use bracelet.Tracing.Vhmalloc.Malloc.{pointer_info, set_tag}
use bracelet.Tracing.Segments.{
  LoadedObject, Library, ElfSegments, rescan, pointer_is_in_elf_segment,
}

pub record Runtime (Intervals : Type 0) : Type 0 where
  pub heap : Heap
  pub tl_buffer : EdgeHashSet
  pub loaded : List LoadedObject
  pub elf_segments : Option (ElfSegments Intervals)

module _ {Intervals : Type 0} (library : Library Intervals) (fnv1a : TraceEdge → ℕ) where
  -- The address of a segment as it is, a heap pointer's tag, and 0 for anything else.
  unfoldable pub value_to_maybe_node : ℕ → Runtime Intervals → Result (ℕ × Runtime Intervals)
  value_to_maybe_node value rt = do
    (in_segment, published) ← pointer_is_in_elf_segment library value rt.loaded rt.elf_segments
    let rt' = record rt { elf_segments = published }
    (if in_segment
        then ok (value, rt')
        else (pointer_info value rt.heap >>= λ info. ok (info.tag, rt')))

  unfoldable pub trace_word : ℕ → ℕ → Runtime Intervals → Result (Runtime Intervals)
  unfolding value_to_maybe_node
  trace_word site value rt = do
    (node, rt') ← value_to_maybe_node value rt
    (if node == 0
        then ok rt'
        else (add_edge fnv1a (record { trace_site = site; value = node }) rt'.tl_buffer >>= λ added.
            ok (record rt' { tl_buffer = added.1 })))

  -- The loop of `traceBuffer`, over the bytes from `idx` on: it goes on while more than a word is left.
  unfoldable pub trace_bytes : ℕ → ℕ → List ℕ → Runtime Intervals → Result (Runtime Intervals)
  trace_bytes zero site bytes rt = err out_of_fuel
  trace_bytes (suc fuel) site bytes rt = elim (ltb 8 (length bytes)) [
    | false ↦ ok rt
    | true ↦
        trace_word site (number_of_bytes (take 8 bytes)) rt >>= trace_bytes fuel site (drop 8 bytes)
  ]

  -- Each round goes on by a word, so the length of the buffer is fuel enough.
  unfoldable pub trace_buffer : ℕ → List ℕ → Runtime Intervals → Result (Runtime Intervals)
  unfolding trace_bytes
  trace_buffer site buffer rt = trace_bytes (suc (length buffer)) site buffer rt

  -- `braceletTraceTagAllocation`
  unfoldable pub trace_tag_allocation : ℕ → ℕ → Runtime Intervals → Result (Runtime Intervals)
  trace_tag_allocation site ptr rt = do
    heap ← set_tag ptr site rt.heap
    ok (record rt { heap = heap })

  -- `dlopen`, when the loader has loaded the objects `more`; `dlclose` does nothing.
  unfoldable pub dlopen : List LoadedObject → Runtime Intervals → Result (Runtime Intervals)
  dlopen more rt = do
    let loaded = rt.loaded ++ more
    published ← rescan library loaded rt.elf_segments
    ok (record rt { loaded = loaded; elf_segments = published })

  unfoldable pub dlclose : Runtime Intervals → ℕ × Runtime Intervals
  dlclose rt = (0, rt)
