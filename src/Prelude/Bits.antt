-- ===== src/Prelude/Bits.antt =====
-- `|` of disjoint fields, `&` with a low mask and `^` with a mask of ones, as arithmetic.
use Prim.Native.Nat.{
  ℕ, zero, suc, ◌+◌, ◌-◌, ◌*◌, ◌/◌, ◌%◌, ◌^◌, ◌≤◌, ◌<◌, min, max, digits, bitwise, bit_and, bit_or,
  bit_xor, differ, bit_and-bitwise, bit_or-bitwise, bit_xor-bitwise,
}
use mathlib.Core.Path.{◌≡◌, refl, ap}
use native.Mathlib.Nat.{le_refl, pow-suc, one-le-pow}
use native.Mathlib.Omega.{arith}

-- The library's operations run over the binary digits with the first number as fuel. Fuel beyond a
-- number changes nothing, so that each operation is the operation on the halves and on the low bits.
module _ (left : ℕ → ℕ) (join : ℕ → ℕ → ℕ) where
  spare_fuel :
      (fuel more x y : ℕ)
      → x ≤ fuel
      → fuel ≤ more
      → digits left join more x y ≡ digits left join fuel x y
  spare_fuel zero zero x y fits larger = refl
  spare_fuel zero (suc more) zero y fits larger = refl
  spare_fuel zero (suc more) (suc x) y fits larger = absurd (omega arith)
  spare_fuel (suc fuel) zero x y fits larger = absurd (omega arith)
  spare_fuel (suc fuel) (suc more) zero y fits larger = refl
  spare_fuel (suc fuel) (suc more) (suc x) y fits larger =
      rw (spare_fuel fuel more (suc x / 2) (y / 2) (omega arith) (omega arith))

  low_bit :
      (x y : ℕ)
      → bitwise left join (suc x) y
        ≡ join (suc x % 2) (y % 2) + 2 * bitwise left join (suc x / 2) (y / 2)
  low_bit x y =
      let half = suc x / 2 in
      omega (arith, spare_fuel half x half (y / 2) (le_refl half) (omega arith))

xor_bit : (x y : ℕ) → x < 2 → y < 2 → differ x y ≡ (x + y) % 2
xor_bit zero y p q = omega arith
xor_bit (suc x) zero p q = omega arith
xor_bit (suc zero) (suc y) p q = omega arith
xor_bit (suc (suc x)) (suc y) p q = absurd (omega arith)

-- `|`, `&` and `^` by their halves.
halves :
    (x y : ℕ)
    → (bit_or x y ≡ max (x % 2) (y % 2) + 2 * bit_or (x / 2) (y / 2))
      × (bit_and x y ≡ min (x % 2) (y % 2) + 2 * bit_and (x / 2) (y / 2))
      × (bit_xor x y ≡ (x % 2 + y % 2) % 2 + 2 * bit_xor (x / 2) (y / 2))
halves zero y = (
  simp bit_or-bitwise (omega arith),
  simp bit_and-bitwise (omega arith),
  simp bit_xor-bitwise (omega arith),
)
halves (suc x) y = (
  simp bit_or-bitwise (low_bit (λ n. n) max x y),
  simp bit_and-bitwise (low_bit (λ n. 0) min x y),
  simp bit_xor-bitwise (
      omega (
        arith,
        low_bit (λ n. n) differ x y,
        xor_bit (suc x % 2) (y % 2) (omega arith) (omega arith),
      )),
)

-- Each operation with 0; `bound` is fuel.
with_zero : (bound x : ℕ) → x ≤ bound → (bit_or x 0 ≡ x) × (bit_and x 0 ≡ 0) × (bit_xor x 0 ≡ x)
with_zero bound zero fits = (refl, refl, refl)
with_zero zero (suc x) fits = absurd (omega arith)
with_zero (suc bound) (suc x) fits =
    let (o, a, e) = with_zero bound (suc x / 2) (omega arith) in
    let (o', a', e') = halves (suc x) 0 in
    (omega (arith, o, o'), omega (arith, a, a'), omega (arith, e, e'))

pub bit_xor-zero : (x : ℕ) → bit_xor x 0 ≡ x
bit_xor-zero x = (with_zero x x (le_refl x)).2

-- A number in two fields: `|` puts them together, and the mask of the low field takes that out.
fields :
    (k high low : ℕ)
    → low < 2 ^ k
    → let x = high * 2 ^ k in (bit_or x low ≡ x + low) × (bit_and (x + low) (2 ^ k - 1) ≡ low)
fields zero high low fits =
    let x = high * 2 ^ 0 + low in
    (
      ground (arith, (with_zero high high (le_refl high)).0),
      rw ((with_zero x x (le_refl x)).1) (omega arith),
    )
fields (suc k) high low fits =
    let (o, a) = fields k high (low / 2) (omega arith) in
    let doubled : high * 2 ^ suc k ≡ 2 * (high * 2 ^ k) =
      omega (arith, ap (λ (power : ℕ). high * power) (pow-suc 2 k)) in
    (
      ground (arith, doubled, o, (halves (high * 2 ^ suc k) low).0),
      ground (arith, doubled, a, pow-suc 2 k, (halves (high * 2 ^ suc k + low) (2 ^ suc k - 1)).1),
    )

pub bit_or_fields : (k q r : ℕ) → r < 2 ^ k → bit_or (q * 2 ^ k) r ≡ q * 2 ^ k + r
bit_or_fields k q r h = (fields k q r h).0

-- A mask of `k` low bits is the remainder by `2 ^ k`.
pub bit_and_mask : (k a : ℕ) → bit_and a (2 ^ k - 1) ≡ a % 2 ^ k
bit_and_mask k a =
    let low : a % 2 ^ k < 2 ^ k = ground (arith, one-le-pow k 2) in
    ground (arith, (fields k (a / 2 ^ k) (a % 2 ^ k) low).1)

-- `a ^ (2^k - 1)` is the complement of `a` in `k` bits.
pub bit_xor_ones : (k a : ℕ) → a < 2 ^ k → bit_xor a (2 ^ k - 1) ≡ 2 ^ k - 1 - a
bit_xor_ones zero a h = ground (arith, bit_xor-zero a)
bit_xor_ones (suc k) a h = ground (
  arith,
  (halves a (2 ^ suc k - 1)).2,
  pow-suc 2 k,
  one-le-pow k 2,
  bit_xor_ones k (a / 2) (omega arith),
)
