-- ===== src/Edges/Table.antt =====
-- A hash map from keys to the order in which they came, as the writer keeps for symbols and texts.
use bracelet.Prelude.{
  ℕ, suc, ◌+◌, ◌<◌, ◌≡◌, refl, sym, ap, ◌∙◌, Bool, true, Option, none, some, List, [], ◌∷◌, ◌++◌,
  arith, if◌then◌else◌, length, get_elem?, Bool-cases, inl, inr, get_elem?-append_last,
}
use native.Mathlib.Nat.{zero-add}

module _ {K : Type 0} (equal : K → K → Bool) where
  unfoldable pub find : {V : Type 0} → K → List (K × V) → Option V
  find k [] = none
  find k ((j, i) ∷ m) = if equal k j then some i else find k m

  -- The keys with their positions, counted from `n`.
  abbrev pub numbered : ℕ → List K → List (K × ℕ)
  numbered n [] = []
  numbered n (k ∷ ks) = (k, n) ∷ numbered (suc n) ks

  pub length-numbered : (n : ℕ) (ks : List K) → length (numbered n ks) ≡ length ks
  length-numbered n [] = refl
  length-numbered n (k ∷ ks) = ap suc (length-numbered (suc n) ks)

  pub numbered-append :
      (n m : ℕ) (ks : List K) (k : K)
      → n + length ks ≡ m
      → numbered n (ks ++ k ∷ []) ≡ numbered n ks ++ (k, m) ∷ []
  numbered-append n m [] k h = rw (← h) (ap (λ i. (k, i) ∷ []) (omega arith))
  numbered-append n m (j ∷ ks) k h = ap (◌∷◌ (j, n)) (numbered-append (suc n) m ks k (omega arith))

  -- A key that is found stands at its number.
  pub find-numbered :
      (n : ℕ) (ks : List K) (k : K) {i : ℕ}
      → find k (numbered n ks) ≡ some i
      → (d : ℕ) × (i ≡ n + d)
        × (d < length ks)
        × ((j : K) × (get_elem? ks d ≡ some j) × (equal k j ≡ true))
  unfolding find
  find-numbered n [] k h = absurd (cc h)
  find-numbered n (j ∷ ks) k h = elim (Bool-cases (equal k j)) [
    | inl same ↦ (0, ground arith, omega arith, (j, refl, same))
    | inr other ↦
        let (d, e, l, at) = find-numbered (suc n) ks k (rw other at h) in
        (suc d, omega arith, omega arith, at)
  ]

  pub find-append :
      (k j : K) (i : ℕ) (m : List (K × ℕ))
      → find k m ≡ none
      → find k (m ++ (j, i) ∷ []) ≡ (if equal k j then some i else none)
  unfolding find
  find-append k j i [] h = refl
  find-append k j i ((a, b) ∷ m) h = ground (arith, find-append k j i m)

  pub find-append_old :
      (k j : K) (n i : ℕ) (m : List (K × ℕ))
      → find k m ≡ some n
      → find k (m ++ (j, i) ∷ []) ≡ some n
  unfolding find
  find-append_old k j n i [] h = absurd (cc h)
  find-append_old k j n i ((a, b) ∷ m) h = ground (arith, find-append_old k j n i m)

  -- The map numbers the keys in their order, and gives each key its own number.
  pub record IsTable (ks : List K) (m : List (K × ℕ)) : Type 0 where
    pub entries : m ≡ numbered 0 ks
    pub numbers : (i : ℕ) (k : K) → get_elem? ks i ≡ some k → find k m ≡ some i

  pub length-IsTable : {ks : List K} {m : List (K × ℕ)} → IsTable ks m → length m ≡ length ks
  length-IsTable {ks} t = ap length t.entries ∙ length-numbered 0 ks

  pub IsTable-empty : IsTable [] []
  IsTable-empty = record { entries = refl; numbers = λ i k h. absurd (cc h) }

  pub IsTable-insert :
      (ks : List K) (m : List (K × ℕ)) (k : K)
      → equal k k ≡ true
      → IsTable ks m
      → find k m ≡ none
      → IsTable (ks ++ k ∷ []) (m ++ (k, length m) ∷ [])
  IsTable-insert ks m k r t fresh = record {
    entries =
        ap (λ (l : List (K × ℕ)). l ++ (k, length m) ∷ []) t.entries
        ∙ sym (numbered-append 0 (length m) ks k (omega (arith, length-IsTable t)));
    numbers = λ i j h. elim (get_elem?-append_last ks k i h) [
      | inl old ↦ find-append_old j k i (length m) m (t.numbers i j old)
      | inr (at, same) ↦ rw (at, same, find-append k k (length m) m fresh, r, length-IsTable t)
    ];
  }

  -- A key that the map has stands at the number that the map gives.
  pub find-IsTable :
      (ks : List K) (m : List (K × ℕ)) (k : K) {i : ℕ}
      → IsTable ks m
      → find k m ≡ some i
      → (i < length ks) × ((j : K) × (get_elem? ks i ≡ some j) × (equal k j ≡ true))
  find-IsTable ks m k t h =
      let (d, e, l, at) = find-numbered 0 ks k (rw t.entries at h) in rw (e, zero-add) (l, at)
