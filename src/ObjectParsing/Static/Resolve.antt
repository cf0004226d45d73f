-- ===== src/ObjectParsing/Static/Resolve.antt =====
-- Lemmas on the loop of `resolvePointers` of StaticObject.cpp.
use native.Mathlib.Decide.{ℕ_discrete}
use bracelet.Prelude.{
  Yields, get_or-set_ne, missing_relocation, ℕ, zero, suc, ◌+◌, ◌%◌, ◌^◌, ◌<◌, ◌≡◌, ◌⊎◌, inl, inr,
  refl, subst, Bool, true, false, some, List, [], ◌∷◌, Result, Error, ok, err, ◌>>=◌, ◌>>◌, ensure,
  arith, ◌==◌, length, get_or, set, get_or-set_self, Option-cases, Bool-cases,
}
use bracelet.Edges.Table.{find}
use bracelet.ObjectParsing.Static.{Names, resolve_from}
use bracelet.ObjectParsing.Static.Kept.{Named, AreNamed}

find_AreNamed :
    (rs : List (ℕ × ℕ)) (n : Names) (base : ℕ) {out : ℕ}
    → AreNamed rs n
    → find ◌==◌ base rs ≡ some out
    → Named out n
unfolding find
find_AreNamed [] n base h k = absurd (cc k)
find_AreNamed ((o, p) ∷ rs) n base {out} (a, h) k = elim (Bool-cases (base == o)) [
  | inl same ↦ let e : p ≡ out = ground arith in rw e at a
  | inr other ↦ find_AreNamed rs n base h (rw other at k)
]

-- Null, or an address with a name.
abbrev pub ArePointers : Names → List ℕ → Type 0
ArePointers n [] = Unit {0}
ArePointers n (p ∷ ps) = ((p ≡ 0) ⊎ Named p n) × ArePointers n ps

then_pointer :
    (n : Names) (p : ℕ) (r : Result (List ℕ))
    → (p ≡ 0) ⊎ Named p n
    → Yields (ArePointers n) r
    → Yields (ArePointers n) (r >>= λ more. ok (p ∷ more))
then_pointer n p (ok ps) a h = (a, h)
then_pointer n p (err e) a h = tt

then_null :
    (n : Names) (b : Bool) (e : Error) (r : Result (List ℕ))
    → Yields (ArePointers n) r
    → Yields (ArePointers n) (ensure b e >> (r >>= λ more. ok (0 ∷ more)))
then_null n true e r h = then_pointer n 0 r (inl refl) h
then_null n false e r h = tt

pub resolve_from-ArePointers :
    (b : Bool) (known : List (ℕ × ℕ)) (n : Names) (count base : ℕ)
    → AreNamed known n
    → Yields (ArePointers n) (resolve_from b known count base)
unfolding resolve_from
resolve_from-ArePointers b known n zero base h = tt
resolve_from-ArePointers b known n (suc count) base h =
    let more = resolve_from-ArePointers b known n count ((base + 8) % 2 ^ 64) h in
    elim (Option-cases (find ◌==◌ base known)) [
      | inr (p, k) ↦
          rw (resolve_from, k) (then_pointer n p _ (inr (find_AreNamed known n base h k)) more)
      | inl k ↦ rw (resolve_from, k) (then_null n b missing_relocation _ more)
    ]

pub get_or-set :
    {A : Type 0} (xs : List A) (i j : ℕ) (v d : A)
    → i < length xs
    → ((i ≡ j) × (get_or (set xs i v) j d ≡ v)) ⊎ (get_or (set xs i v) j d ≡ get_or xs j d)
get_or-set xs i j v d h = elim (ℕ_discrete i j) [
  | yes same ↦
      inl (same, subst (λ k. get_or (set xs i v) k d ≡ v) same (get_or-set_self xs i v d h))
  | no other ↦ inr (get_or-set_ne xs i j v d other)
]
