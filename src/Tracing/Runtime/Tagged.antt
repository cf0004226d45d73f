-- ===== src/Tracing/Runtime/Tagged.antt =====
-- `traceWord` of trace_runtime.cpp, of a word that points into a tagged allocation.
use bracelet.Prelude.{ℕ, ◌≡◌, ◌⊎◌, ◌↔◌, true}
use bracelet.Tracing.HashSet.{TraceEdge, edge_equal}
use bracelet.Tracing.HashSet.Insert.{Has, IsValid}
use bracelet.Tracing.Vhmalloc.Heap.{Heap}
use bracelet.Tracing.Segments.{Library}
use bracelet.Tracing.Runtime.{Runtime}

module _ {Intervals : Type 0} (library : Library Intervals) (fnv1a : TraceEdge → ℕ) where
  -- What is left after the edge `e` was added to the table of `rt`.
  pub record Traced (rt : Runtime Intervals) (e : TraceEdge) (rt' : Runtime Intervals)
      : Type 0 where
    pub valid : IsValid fnv1a rt'.tl_buffer
    pub holds :
        (x : TraceEdge)
        → Has rt'.tl_buffer.edges x ↔ (Has rt.tl_buffer.edges x ⊎ (edge_equal e x ≡ true))
    pub heap_kept : rt'.heap ≡ rt.heap
    pub segments_kept : rt'.elf_segments ≡ rt.elf_segments
