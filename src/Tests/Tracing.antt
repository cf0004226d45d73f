-- ===== src/Tests/Tracing.antt =====
-- Runs and examples for src/Tracing/Runtime: the table of edges and the allocator.
use bracelet.Prelude.{
  IsIn, get_elem?, ◌↔◌, ◌≢◌, no_more_probes, List, ℕ, ◌+◌, ◌*◌, ◌/◌, ◌^◌, ◌≤◌, ◌<◌, ◌≡◌, ◌⊎◌, refl,
  none, some, [], ◌∷◌, ok, err, assertion, Returns, arith,
}
use bracelet.Tracing.HashSet.{
  edge_zero, TraceEdge, edge_epoch, edge_set_epoch, empty_table, threshold, add_edge,
}
use bracelet.Tracing.HashSet.Insert.{IsFull, Adds, add_edge-Adds}
use bracelet.Tracing.HashSet.Runs.{empty_table-IsValid}
use bracelet.Tracing.Simplify.{IsDistinct, collect, collect-IsIn}
use bracelet.Tracing.Vhmalloc.Heap.{Pool, Slab, Heap, ready, get_slab, tag_max}
use bracelet.Tracing.Vhmalloc.Slabs.{get_element_index, get_element_ptr}
use bracelet.Tracing.Vhmalloc.Malloc.{pointer_info, set_tag, bin_of, numpools, init_pools}
use bracelet.Tracing.Vhmalloc.Index.{get_element_index-ptr}
use bracelet.Tracing.Vhmalloc.Bins.{bin_of_fits}
use bracelet.Tracing.Vhmalloc.Tags.{Points, pointer_info-set_tag}

abbrev pub hash : TraceEdge → ℕ
hash e = e.trace_site / 2 + e.value

abbrev pub edge : TraceEdge
edge = record { trace_site = 4196; value = 77 }

new_has_room : (empty_table 4).inserted_edges < (empty_table 4).resize_threshold
unfolding empty_table threshold
new_has_room = omega arith

pub edge_is_even : edge_epoch edge ≡ 0
unfolding edge_epoch
edge_is_even = refl

add_edge-Adds_example :
    let e' = edge_set_epoch edge (empty_table 4).epoch in
    ((add_edge hash edge (empty_table 4) ≡ err no_more_probes) × IsFull hash (empty_table 4) e')
    ⊎ Returns (add_edge hash edge (empty_table 4)) (Adds hash (empty_table 4) e')
add_edge-Adds_example =
    add_edge-Adds hash (empty_table 4) edge (empty_table-IsValid hash 2) new_has_room edge_is_even
      (omega arith)

-- A heap of one pool and one slab of four objects of 16 bytes, of which the first two are allocated.
abbrev pub pool : Pool
pool = record {
  element_size = 16;
  free = 2;
  free_head = some 0;
  free_tail = some 0;
  full_head = some 0;
}

abbrev pub slab : Slab
slab = record {
  pool = 0;
  capacity = 4;
  free = 2;
  objects = 2 ^ 20;
  prev = none;
  next = none;
  free_prev = none;
  free_next = none;
  ids = tag_max ∷ tag_max ∷ 0 ∷ 0 ∷ [];
}

abbrev pub heap : Heap
heap = record {
  slabs = slab ∷ [];
  pools = pool ∷ [];
  slab_map = λ region page. some 0;
  thread_state = ready;
}

pub heap-Points : (i o : ℕ) → i < 4 → o < 16 → Points heap (2 ^ 20 + i * 16 + o) 0 slab pool i o
unfolding get_slab
heap-Points i o h k = record {
  slab_of = ground arith;
  slab_at = refl;
  pool_at = refl;
  index = (get_element_index-ptr pool slab i o h k (omega arith) (omega arith)).1;
}

pointer_info-set_tag_example : Returns (set_tag (2 ^ 20) 9 heap) λ h.
    (pointer_info (2 ^ 20 + 5) h ≡ ok (record { tag = 9; offset = 5 }))
    × (pointer_info (2 ^ 20 + 16) h ≡ pointer_info (2 ^ 20 + 16) heap)
    × (set_tag (2 ^ 20) 10 h ≡ err assertion)
pointer_info-set_tag_example =
    pointer_info-set_tag heap (2 ^ 20) (2 ^ 20 + 5) (2 ^ 20 + 16) 0 slab pool 0 0 5 1 0 9 10
      (heap-Points 0 0 (omega arith) (omega arith)) (heap-Points 0 5 (omega arith) (omega arith))
      (heap-Points 1 0 (omega arith) (omega arith)) (λ h. absurd (omega (arith, h))) refl
      (λ h. absurd (omega (arith, h))) (λ h. absurd (omega (arith, h)))
      (λ h. absurd (omega (arith, h)))

get_element_index-ptr_example :
    (get_element_ptr pool slab 2 ≡ ok (slab.objects + 2 * pool.element_size))
    × (get_element_index pool slab (slab.objects + 2 * pool.element_size + 7) ≡ ok (2, 7))
get_element_index-ptr_example =
    get_element_index-ptr pool slab 2 7 (omega arith) (omega arith) (omega arith) (omega arith)

bin_of_fits_example : Returns (bin_of 100) λ bin.
    (p : Pool) × (get_elem? (init_pools 0 numpools) bin ≡ some p)
    × (100 ≤ p.element_size)
    × ((bin ≡ 0) ⊎ (p.element_size < 2 * 100))
bin_of_fits_example = bin_of_fits 100 (omega arith) (omega arith)

abbrev read_entries : List TraceEdge
read_entries = edge ∷ edge_zero ∷ edge ∷ []

collect-IsIn_example :
    IsDistinct (collect read_entries [])
    × (IsIn edge (collect read_entries [])
        ↔ (IsIn edge [] ⊎ ((edge.trace_site ≢ 0) × IsIn edge read_entries)))
collect-IsIn_example = collect-IsIn edge read_entries [] tt
