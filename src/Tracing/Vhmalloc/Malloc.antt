-- ===== src/Tracing/Vhmalloc/Malloc.antt =====
-- The allocator's operations of vhmalloc.cpp. The value of `rand_r` is an argument of `allocate`.
use bracelet.Prelude.{
  ℕ, zero, suc, ◌+◌, ◌-◌, ◌*◌, ◌/◌, ◌%◌, ◌^◌, true, false, not, Option, none, some, List, [], ◌∷◌,
  Result, ok, err, ◌>>=◌, ◌>>◌, assert, assertion, undefined, out_of_fuel, ltb, leb, ◌==◌,
  if◌then◌else◌, length, set,
}
use bracelet.Tracing.Vhmalloc.Heap.{
  Pool, Heap, uninit, ready, inside_malloc, overprovision, tag_max, load, put_slab, put_pool,
  get_slab,
}
use bracelet.Tracing.Vhmalloc.Slabs.{
  allocate_slab, get_element_index, get_element_ptr, make_free, make_full,
}

abbrev pub poolinit : ℕ → Pool
poolinit element_size = record {
  element_size = element_size;
  free = 0;
  free_head = none;
  free_tail = none;
  full_head = none;
}

-- The `while` of `allocate`: the slab of the free list that has the object number `offset` of those
-- free, and the number within that slab.
unfoldable pub find_slab : ℕ → ℕ → Option ℕ → Heap → Result (ℕ × ℕ)
unfolding load
find_slab fuel offset none h = err undefined
find_slab zero offset (some i) h = err out_of_fuel
find_slab (suc fuel) offset (some i) h = load h.slabs i >>= λ s. elim (leb s.free offset) [
  | true ↦ find_slab fuel (offset - s.free) s.free_next h
  | false ↦ ok (i, offset)
]

-- The `for` of `allocate`: the slot of the free object number `offset`, counted from slot `i`.
unfoldable pub find_free : ℕ → ℕ → List ℕ → Option ℕ
find_free i offset [] = none
find_free i offset (id ∷ ids) =
    if id == 0
    then if offset == 0 then some i else find_free (i + 1) (offset - 1) ids
    else find_free (i + 1) offset ids

-- What `allocate` does to the slot that it has chosen.
unfoldable pub take_slot : ℕ → ℕ → ℕ → ℕ → Heap → Result (ℕ × Heap)
unfolding load make_full get_element_ptr
take_slot pool_idx slab_idx i tag h = do
  pool ← load h.pools pool_idx
  slab ← load h.slabs slab_idx
  let slab₁ = record slab { ids = set slab.ids i tag; free = slab.free - 1 }
  let h₁ = put_pool pool_idx (record pool { free = pool.free - 1 }) (put_slab slab_idx slab₁ h)
  h₂ ← (if slab₁.free == 0 then make_full pool_idx slab_idx h₁ else ok h₁)
  ptr ← get_element_ptr pool slab i
  ok (ptr, h₂)

unfoldable pub allocate : ℕ → ℕ → ℕ → ℕ → Heap → Result (ℕ × Heap)
unfolding load allocate_slab find_slab find_free take_slot
allocate objects rand pool_idx tag h = do
  assert (not (tag == 0))
  pool ← load h.pools pool_idx
  h₁ ←
      (if leb pool.free overprovision
        then allocate_slab objects pool_idx (2 * overprovision) h
        else ok h)
  pool₁ ← load h₁.pools pool_idx
  (slab_idx, offset) ← find_slab (length h₁.slabs) (rand % pool₁.free) pool₁.free_head h₁
  slab ← load h₁.slabs slab_idx
  elim (find_free 0 offset slab.ids) [
    | none ↦ assert false >> err undefined
    | some i ↦ take_slot pool_idx slab_idx i tag h₁
  ]

unfoldable pub deallocate : ℕ → ℕ → Heap → Result Heap
unfolding load get_element_index make_free
deallocate slab_idx ptr h = do
  slab ← load h.slabs slab_idx
  pool ← load h.pools slab.pool
  (index, _) ← get_element_index pool slab ptr
  let slab₁ = record slab { ids = set slab.ids index 0; free = slab.free + 1 }
  let h₁ = put_pool slab.pool (record pool { free = pool.free + 1 }) (put_slab slab_idx slab₁ h)
  (if slab₁.free == 1 then make_free slab.pool slab_idx h₁ else ok h₁)

-- Tag 0 is that of no object.
pub record PointerInfo : Type 0 where
  pub tag : ℕ
  pub offset : ℕ

unfoldable pub getid : ℕ → ℕ → Heap → Result PointerInfo
getid slab_idx ptr h = do
  slab ← load h.slabs slab_idx
  pool ← load h.pools slab.pool
  (index, object_offset) ← get_element_index pool slab ptr
  raw_id ← load slab.ids index
  ok (
      if raw_id == 0
      then record { tag = 0; offset = 0 }
      else record { tag = raw_id; offset = object_offset })

-- `PointerInfo::of`
unfoldable pub pointer_info : ℕ → Heap → Result PointerInfo
pointer_info ptr h = elim (get_slab h ptr) [
  | none ↦ ok (record { tag = 0; offset = 0 })
  | some slab ↦ getid slab ptr h
]

unfoldable pub set_tag : ℕ → ℕ → Heap → Result Heap
set_tag ptr tag h = do
  assert (not (tag == 0))
  elim (get_slab h ptr) [
    | none ↦ err assertion
    | some slab_idx ↦ do
      slab ← load h.slabs slab_idx
      pool ← load h.pools slab.pool
      (index, _) ← get_element_index pool slab ptr
      old ← load slab.ids index
      assert (old == tag_max)
      ok (put_slab slab_idx (record slab { ids = set slab.ids index tag }) h)
  ]

abbrev pub numpools : ℕ
numpools = 26

-- The pools of objects of 2^4 bytes and up.
unfoldable pub init_pools : ℕ → ℕ → List Pool
init_pools i zero = []
init_pools i (suc n) = poolinit (2 ^ (i + 4)) ∷ init_pools (i + 1) n

-- The number of binary digits; `__builtin_clzl(x)` is 64 less that, and undefined at 0.
unfoldable pub bit_length : ℕ → ℕ → ℕ
bit_length zero x = 0
bit_length (suc fuel) x = elim (x == 0) [ true ↦ 0 | false ↦ suc (bit_length fuel (x / 2)) ]

unfoldable pub clzl : ℕ → Result ℕ
unfolding bit_length
clzl x = if x == 0 then err undefined else ok (64 - bit_length 64 x)

-- The pool for objects of `log_size` bits, of which the smallest has 4.
unfoldable pub bin_of_log : ℕ → Result ℕ
bin_of_log log_size =
    let bin = if ltb log_size 4 then 0 else log_size - 4 in assert (ltb bin numpools) >> ok bin

-- The pool for a size, at the head of `xxmalloc`.
unfoldable pub bin_of : ℕ → Result ℕ
bin_of size = do zeros ← clzl (size - 1); bin_of_log (1 + (63 - zeros))

-- The allocation itself, in the pool for the size.
unfoldable pub malloc_sized : ℕ → ℕ → ℕ → Heap → Result (Option ℕ × Heap)
unfolding bin_of allocate
malloc_sized objects rand size h = do
  bin ← bin_of size
  (ptr, h₁) ← allocate objects rand bin tag_max (record h { thread_state = inside_malloc })
  ok (some ptr, record h₁ { thread_state = ready })

-- `xxmalloc`; while the thread is inside `malloc` it takes memory of the system, at `system`.
unfoldable pub xxmalloc : ℕ → ℕ → ℕ → ℕ → Heap → Result (Option ℕ × Heap)
unfolding malloc_sized init_pools
xxmalloc system objects rand size h = if size == 0 then ok (none, h) else elim h.thread_state [
  | inside_malloc ↦ ok (some system, h)
  | ready ↦ malloc_sized objects rand size h
  | uninit ↦ malloc_sized objects rand size (record h { pools = init_pools 0 numpools })
]

-- `xxfree`; the null pointer is 0.
unfoldable pub xxfree : ℕ → Heap → Result Heap
unfolding get_slab deallocate
xxfree ptr h =
    if ptr == 0
    then ok h
    else elim (get_slab h ptr) [ none ↦ ok h | some slab ↦ deallocate slab ptr h ]

unfoldable pub xxmalloc_usable_size : ℕ → Heap → Result ℕ
unfolding get_slab load
xxmalloc_usable_size ptr h = elim (get_slab h ptr) [
  | none ↦ ok 0
  | some slab_idx ↦ do
    slab ← load h.slabs slab_idx
    pool ← load h.pools slab.pool
    ok pool.element_size
]
