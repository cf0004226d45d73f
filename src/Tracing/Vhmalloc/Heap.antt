-- ===== src/Tracing/Vhmalloc/Heap.antt =====
-- The state of vhmalloc.cpp, and the map from addresses to slabs. A `slab_t *` is the slab's number in
-- the heap; addresses and sizes are 64-bit numbers.
use bracelet.Prelude.{
  ℕ, zero, suc, ◌+◌, ◌-◌, ◌/◌, ◌%◌, ◌^◌, ◌&&◌, Option, none, some, List, Result, ok, err, ◌>>=◌,
  undefined, leb, ◌==◌, if◌then◌else◌, get_elem?, set,
}

pub record Pool : Type 0 where
  pub element_size : ℕ
  pub free : ℕ
  pub free_head : Option ℕ
  pub free_tail : Option ℕ
  pub full_head : Option ℕ

pub record Slab : Type 0 where
  pub pool : ℕ
  pub capacity : ℕ
  pub free : ℕ
  pub objects : ℕ
  pub prev : Option ℕ
  pub next : Option ℕ
  pub free_prev : Option ℕ
  pub free_next : Option ℕ
  pub ids : List ℕ

pub data MallocThreadState : Type 0 where
  uninit ready inside_malloc : MallocThreadState

pub record Heap : Type 0 where
  pub slabs : List Slab
  pub pools : List Pool
  pub slab_map : ℕ → ℕ → Option ℕ
  pub thread_state : MallocThreadState

abbrev pub overprovision : ℕ
overprovision = 3

abbrev pub tag_max : ℕ
tag_max = 2 ^ 64 - 1

-- A pointer that leads nowhere is undefined behaviour.
unfoldable pub load {ℓ} : {A : Type ℓ} → List A → ℕ → Result A
load xs i = elim (get_elem? xs i) [ none ↦ err undefined | some x ↦ ok x ]

abbrev pub put_slab : ℕ → Slab → Heap → Heap
put_slab i s h = record h { slabs = set h.slabs i s }

abbrev pub put_pool : ℕ → Pool → Heap → Heap
put_pool i p h = record h { pools = set h.pools i p }

-- Bits 30 and up choose the region, of which there are 2^17; bits 12 to 29 the page.
unfoldable pub get_slab : Heap → ℕ → Option ℕ
get_slab h ptr =
    if leb (2 ^ 17) (ptr / 2 ^ 30) then none else h.slab_map (ptr / 2 ^ 30) (ptr % 2 ^ 30 / 2 ^ 12)

-- Without the bound check of `get_slab`; a region that is missing is mapped first.
unfoldable pub mark_slab : ℕ → ℕ → Heap → Result Heap
mark_slab ptr slab h =
    let offset = ptr / 2 ^ 30 in
    let page = ptr % 2 ^ 30 / 2 ^ 12 in
    if leb (2 ^ 17) offset
    then err undefined
    else ok (record h {
      slab_map = λ o p. if o == offset && p == page then some slab else h.slab_map o p;
    })

-- The loop of `allocateSlab` over the pages, the first at `ptr`.
unfoldable pub mark_pages : ℕ → ℕ → ℕ → Heap → Result Heap
unfolding mark_slab
mark_pages zero ptr slab h = ok h
mark_pages (suc n) ptr slab h = mark_slab ptr slab h >>= mark_pages n (ptr + 4096) slab

-- What a change of a slab does to the heap.
unfoldable pub modify_slab : Option ℕ → (Slab → Slab) → Heap → Result Heap
unfolding load
modify_slab none f h = ok h
modify_slab (some i) f h = do s ← load h.slabs i; ok (put_slab i (f s) h)
