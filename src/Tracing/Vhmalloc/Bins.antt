-- ===== src/Tracing/Vhmalloc/Bins.antt =====
-- Which pool an allocation comes from.
use native.Mathlib.Nat.{pow-suc}
use bracelet.Prelude.{
  ℕ, zero, suc, ◌+◌, ◌-◌, ◌*◌, ◌/◌, ◌^◌, ◌≤◌, ◌<◌, ◌≡◌, ◌⊎◌, inr, refl, ok, err, undefined, Returns,
  arith, ==_ne, ◌≢◌, ap, ltb_ge, lt→ltb, get_elem?, some,
}
use bracelet.Tracing.Vhmalloc.Malloc.{
  bit_length, clzl, bin_of_log, bin_of, numpools, init_pools, poolinit,
}
use bracelet.Tracing.Vhmalloc.Heap.{Pool}

bit_length-suc : (fuel x : ℕ) → bit_length (suc fuel) (suc x) ≡ suc (bit_length fuel (suc x / 2))
unfolding bit_length
bit_length-suc fuel x = rw (==_ne (suc x) 0 (omega arith), bit_length)

bit_length_zero : (fuel : ℕ) → bit_length fuel 0 ≡ 0
unfolding bit_length
bit_length_zero zero = refl
bit_length_zero (suc fuel) = refl

-- The length in bits: the least power of two above the number.
bit_length_bounds :
    (fuel x : ℕ)
    → x < 2 ^ fuel
    → (bit_length fuel x ≤ fuel)
      × (x < 2 ^ bit_length fuel x)
      × ((2 ^ bit_length fuel x ≤ 2 * x) ⊎ ((x ≡ 0) × (2 ^ bit_length fuel x ≡ 1)))
bit_length_bounds fuel zero h = rw (bit_length_zero fuel) (omega arith)
bit_length_bounds zero (suc x) h = absurd (omega arith)
bit_length_bounds (suc fuel) (suc x) h =
    let half = suc x / 2 in
    let (a, b, c) = bit_length_bounds fuel half (omega (arith, pow-suc 2 fuel)) in
    let p = pow-suc 2 (bit_length fuel half) in rw (bit_length-suc fuel x) (omega (arith, p))

pub clzl_eq : (x : ℕ) → 0 < x → clzl x ≡ ok (64 - bit_length 64 x)
unfolding clzl
clzl_eq x h = rw (==_ne x 0 (omega arith))

-- The length of a number below 2 ^ k is at most k.
bit_length-le : (k fuel x : ℕ) → x < 2 ^ k → bit_length fuel x ≤ k
bit_length-le k zero x h = unfold bit_length in omega arith
bit_length-le k (suc fuel) zero h = rw (bit_length_zero (suc fuel)) (omega arith)
bit_length-le zero (suc fuel) (suc x) h = absurd (omega arith)
bit_length-le (suc k) (suc fuel) (suc x) h =
    rw (bit_length-suc fuel x)
      (omega (arith, bit_length-le k fuel (suc x / 2) (omega (arith, pow-suc 2 k))))

bin_of_log_fits :
    (n size : ℕ)
    → n ≤ 29
    → size ≤ 2 ^ n
    → 2 ^ n < 2 * size
    → Returns
        (bin_of_log n)
        λ bin. (bin < numpools) × (size ≤ 2 ^ (bin + 4)) × ((bin ≡ 0) ⊎ (2 ^ (bin + 4) < 2 * size))
unfolding bin_of_log
bin_of_log_fits zero size h k l = (0, refl, omega arith)
bin_of_log_fits (suc zero) size h k l = (0, refl, omega arith)
bin_of_log_fits (suc (suc zero)) size h k l = (0, refl, omega arith)
bin_of_log_fits (suc (suc (suc zero))) size h k l = (0, refl, omega arith)
bin_of_log_fits (suc (suc (suc (suc m)))) size h k l =
    let e : m + 4 ≡ suc (suc (suc (suc m))) = omega arith in
    let d : suc (suc (suc (suc m))) - 4 ≡ m = omega arith in
    (
      m,
      rw (ltb_ge (suc (suc (suc (suc m)))) 4 (omega arith), d, lt→ltb m numpools (omega arith)),
      rw e (omega arith, k, inr l),
    )

init_pools-at :
    (i n k : ℕ) → k < n → get_elem? (init_pools i n) k ≡ some (poolinit (2 ^ (i + k + 4)))
unfolding init_pools
init_pools-at i zero k h = absurd (omega arith)
init_pools-at i (suc n) zero h = let e : i + 0 + 4 ≡ i + 4 = omega arith in rw e
init_pools-at i (suc n) (suc k) h =
    let e : i + suc k + 4 ≡ i + 1 + k + 4 = omega arith in
    rw e (init_pools-at (i + 1) n k (omega arith))

sized_pool : (n k : ℕ) → k < n → get_elem? (init_pools 0 n) k ≡ some (poolinit (2 ^ (k + 4)))
sized_pool n k h = let e : k + 4 ≡ 0 + k + 4 = omega arith in rw e (init_pools-at 0 n k h)

-- A size of 2 bytes to 2^29 gets the number of one of the pools that are set up first, whose objects
-- are large enough for the size, and which is the first pool or has objects of less than twice the
-- size.
pub bin_of_fits :
    (size : ℕ)
    → 1 < size
    → size ≤ 2 ^ 29
    → Returns (bin_of size) λ bin.
      (pool : Pool) × (get_elem? (init_pools 0 numpools) bin ≡ some pool)
      × (size ≤ pool.element_size)
      × ((bin ≡ 0) ⊎ (pool.element_size < 2 * size))
unfolding bin_of
bin_of_fits size h k =
    let n = bit_length 64 (size - 1) in
    let (a, b, c) = bit_length_bounds 64 (size - 1) (omega arith) in
    let top : n ≤ 29 = bit_length-le 29 64 (size - 1) (omega arith) in
    let some_bits : n ≢ 0 = λ z. absurd (omega (arith, ap (λ (t : ℕ). 2 ^ t) z)) in
    let log : 1 + (63 - (64 - n)) ≡ n = omega arith in
    let (bin, chosen, (low, fits, tight)) =
      bin_of_log_fits n size top (omega arith) (omega arith) in
    (
      bin,
      rw (clzl_eq (size - 1) (omega arith), log) chosen,
      (poolinit (2 ^ (bin + 4)), sized_pool numpools bin low, fits, tight),
    )

-- A request of one byte asks for the leading zeros of 0, which is undefined.
pub bin_of_one : bin_of 1 ≡ err undefined
unfolding bin_of clzl
bin_of_one = refl
