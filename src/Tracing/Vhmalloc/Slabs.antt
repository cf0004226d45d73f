-- ===== src/Tracing/Vhmalloc/Slabs.antt =====
-- The slabs of vhmalloc.cpp: making one, its objects, and the list of those with free objects. The
-- address that `mmap` returns is an argument of `allocate_slab`.
use bracelet.Prelude.{
  ℕ, zero, suc, ◌+◌, ◌-◌, ◌*◌, ◌/◌, ◌%◌, ◌^◌, true, false, ◌&&◌, Option, none, some, [], ◌∷◌, ◌++◌,
  Result, ok, err, ◌>>=◌, ◌>>◌, assert, out_of_fuel, ltb, ◌==◌, if◌then◌else◌, length, replicate,
}
use bracelet.Tracing.Vhmalloc.Heap.{
  Pool, Slab, Heap, load, put_slab, put_pool, mark_pages, modify_slab,
}

-- `toAllocate` in whole pages; products and addresses wrap at 64 bits.
unfoldable pub num_pages : ℕ → ℕ → ℕ
num_pages element_size count =
    let to_allocate = if count == 0 then element_size else element_size * count % 2 ^ 64 in
    if to_allocate % 4096 == 0 then to_allocate / 4096 else to_allocate / 4096 + 1

unfoldable pub allocate_slab : ℕ → ℕ → ℕ → Heap → Result Heap
unfolding load num_pages mark_pages modify_slab
allocate_slab objects pool_idx count h = do
  pool ← load h.pools pool_idx
  let pages = num_pages pool.element_size count
  let capacity = pages * 4096 % 2 ^ 64 / pool.element_size
  let slab = length h.slabs
  let entry : Slab = record {
    pool = pool_idx;
    capacity = capacity;
    free = capacity;
    objects = objects;
    prev = none;
    next = pool.full_head;
    free_prev = none;
    free_next = pool.free_head;
    ids = replicate capacity 0;
  }
  h₁ ← mark_pages pages objects slab (record h { slabs = h.slabs ++ entry ∷ [] })
  h₂ ← modify_slab pool.full_head (λ s. record s { prev = some slab }) h₁
  h₃ ← modify_slab pool.free_head (λ s. record s { free_prev = some slab }) h₂
  ok (
      put_pool pool_idx
        (record pool {
          free = pool.free + capacity;
          full_head = some slab;
          free_head = some slab;
          free_tail = elim pool.free_head [ none ↦ some slab | some _ ↦ pool.free_tail ];
        })
        h₃)

-- The index and the offset into the object. `slab_offset` is signed, and negative from 2^63 on; its
-- division by the unsigned size is that of the 64-bit words.
unfoldable pub get_element_index : Pool → Slab → ℕ → Result (ℕ × ℕ)
get_element_index pool slab ptr =
    let slab_offset = (ptr + (2 ^ 64 - slab.objects % 2 ^ 64)) % 2 ^ 64 in
    let index = slab_offset / pool.element_size in
    assert (ltb slab_offset (2 ^ 63) && ltb index slab.capacity)
    >> ok (index, slab_offset % pool.element_size)

unfoldable pub get_element_ptr : Pool → Slab → ℕ → Result ℕ
get_element_ptr pool slab index =
    assert (ltb index slab.capacity)
    >> ok ((slab.objects + index * pool.element_size % 2 ^ 64) % 2 ^ 64)

-- The first slab from `cur` back along `prev` that has a free object; as fuel, the number of slabs.
unfoldable pub free_predecessor : ℕ → Option ℕ → Heap → Result (Option ℕ)
unfolding load
free_predecessor fuel none h = ok none
free_predecessor zero (some i) h = err out_of_fuel
free_predecessor (suc fuel) (some i) h = load h.slabs i >>= λ s. elim (ltb 0 s.free) [
  | true ↦ ok (some i)
  | false ↦ free_predecessor fuel s.prev h
]

-- `makeFree` puts the slab into the free list behind that slab, or at the front.
unfoldable pub make_free : ℕ → ℕ → Heap → Result Heap
unfolding load free_predecessor modify_slab
make_free pool_idx slab_idx h = do
  slab ← load h.slabs slab_idx
  pool ← load h.pools pool_idx
  found ← free_predecessor (length h.slabs) slab.prev h
  elim found [
    | some cur ↦ do
      c ← load h.slabs cur
      let next = c.free_next
      let h₁ = put_slab slab_idx (record slab { free_next = next; free_prev = some cur }) h
      h₂ ← modify_slab (some cur) (λ s. record s { free_next = some slab_idx }) h₁
      elim next [
        | some n ↦ modify_slab (some n) (λ s. record s { free_prev = some slab_idx }) h₂
        | none ↦ ok (put_pool pool_idx (record pool { free_tail = some slab_idx }) h₂)
      ]
    | none ↦ do
      let next = pool.free_head
      let h₁ = put_slab slab_idx (record slab { free_prev = none; free_next = next }) h
      h₂ ← modify_slab next (λ s. record s { free_prev = some slab_idx }) h₁
      ok (
          put_pool pool_idx
            (record pool {
              free_head = some slab_idx;
              free_tail = elim next [ none ↦ some slab_idx | some _ ↦ pool.free_tail ];
            })
            h₂)
  ]

-- `makeFull` takes the slab out of the free list. It leaves `free_tail`, and the slab's own links.
unfoldable pub make_full : ℕ → ℕ → Heap → Result Heap
unfolding load modify_slab
make_full pool_idx slab_idx h = do
  slab ← load h.slabs slab_idx
  pool ← load h.pools pool_idx
  h₁ ← elim slab.free_prev [
    | some p ↦ modify_slab (some p) (λ s. record s { free_next = slab.free_next }) h
    | none ↦ ok (put_pool pool_idx (record pool { free_head = slab.free_next }) h)
  ]
  modify_slab slab.free_next (λ s. record s { free_prev = slab.free_prev }) h₁
