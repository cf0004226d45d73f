-- ===== src/Tracing/Vhmalloc/Index.antt =====
-- Objects and addresses of a slab.
use bracelet.Prelude.{ℕ, ◌+◌, ◌-◌, ◌*◌, ◌/◌, ◌%◌, ◌^◌, zero, suc, ◌≤◌, ◌<◌, ◌≡◌, ok, arith, lt→ltb}
use native.Mathlib.Nat.{div-add-mod}
use bracelet.Tracing.Vhmalloc.Heap.{Pool, Slab}
use bracelet.Tracing.Vhmalloc.Slabs.{num_pages, get_element_index, get_element_ptr}

div-mul-add : (n i o : ℕ) → o < n → ((i * n + o) / n ≡ i) × ((i * n + o) % n ≡ o)
div-mul-add n i o h = (grind arith, grind arith)

index-lt : (c n i o : ℕ) → i < c → o < n → i * n + o < c * n
index-lt zero n i o h k = absurd (omega arith)
index-lt (suc c) n zero o h k =
    let more : suc c * n ≡ n + c * n = omega arith in omega (arith, more)
index-lt (suc c) n (suc i) o h k =
    let more : suc c * n ≡ n + c * n = omega arith in
    let more' : suc i * n ≡ n + i * n = omega arith in
    omega (arith, more, more', index-lt c n i o (omega arith) k)

-- In a slab whose objects take up less than 2^63 bytes and do not reach past the last address, the
-- address of each object, and every address within the object, leads back to the object's index, with
-- the offset into the object.
pub get_element_index-ptr :
    (pool : Pool) (slab : Slab) (i o : ℕ)
    → i < slab.capacity
    → o < pool.element_size
    → slab.capacity * pool.element_size < 2 ^ 63
    → slab.objects + slab.capacity * pool.element_size ≤ 2 ^ 64
    → let ptr = slab.objects + i * pool.element_size in
      (get_element_ptr pool slab i ≡ ok ptr) × (get_element_index pool slab (ptr + o) ≡ ok (i, o))
unfolding get_element_ptr get_element_index
get_element_index-ptr pool slab i o h k small low =
    let n = pool.element_size in
    let ptr = slab.objects + i * n in
    let (d, m) = div-mul-add n i o k in
    let inside = index-lt slab.capacity n i o h k in
    let address : (slab.objects + i * n % 2 ^ 64) % 2 ^ 64 ≡ ptr = omega (arith, inside) in
    let e : (ptr + o + (2 ^ 64 - slab.objects % 2 ^ 64)) % 2 ^ 64 ≡ i * n + o =
      omega (arith, inside) in
    (
      rw (lt→ltb i slab.capacity h, address),
      rw (e, d, m, lt→ltb (i * n + o) (2 ^ 63) (omega (arith, inside)), lt→ltb i slab.capacity h),
    )

num_pages_hold :
    (n count : ℕ) → 0 < count → n * count < 2 ^ 64 → n * count ≤ num_pages n count * 4096
unfolding num_pages
num_pages_hold n count k small =
    let whole : n * count % 2 ^ 64 ≡ n * count = omega arith in ground (arith, whole)

le-div : (n q b : ℕ) → 0 < n → n * q ≤ b → q ≤ b / n
le-div n q b h k = grind arith

div-mul-le : (n b : ℕ) → b / n * n ≤ b
div-mul-le n b = omega (arith, div-add-mod b n)

-- The objects of a slab lie within the slab's pages, which hold at least the objects asked for.
pub num_pages_fit :
    (element_size count : ℕ)
    → 0 < element_size
    → 0 < count
    → element_size * count < 2 ^ 64
    → let bytes = num_pages element_size count * 4096 in
      (count ≤ bytes / element_size) × (bytes / element_size * element_size ≤ bytes)
num_pages_fit n count h k small =
    let b = num_pages n count * 4096 in
    (le-div n count b h (num_pages_hold n count k small), div-mul-le n b)
