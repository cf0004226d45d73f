-- ===== src/ObjectParsing/Dwarf/Order.antt =====
-- `std::multimap` as a list: the order of the keys, and what the entries belong to.
use bracelet.Prelude.{ℕ, ◌≤◌, ◌≡◌, List, [], ◌∷◌, ok, arith, ltb, Bool-cases, inl, inr}
use bracelet.Edges.Node.{Node, symbol}
use bracelet.ObjectParsing.Dwarf.{insert_entry}

-- The keys are in order, and each entry belongs to its key.
abbrev pub AllFrom : ℕ → {A : Type 0} → List (ℕ × A) → Type 0
AllFrom key [] = Unit {0}
AllFrom key ((k, v) ∷ rest) = (key ≤ k) × AllFrom key rest

abbrev pub IsOrdered : {A : Type 0} → List (ℕ × A) → Type 0
IsOrdered [] = Unit {0}
IsOrdered ((k, v) ∷ rest) = AllFrom k rest × IsOrdered rest

abbrev pub AllOwned : {A : Type 0} → (A → Node) → List (ℕ × A) → Type 0
AllOwned node [] = Unit {0}
AllOwned node ((k, v) ∷ rest) = (symbol (node v) ≡ ok k) × AllOwned node rest

module _ {A : Type 0} where
  insert_entry-AllFrom :
      (low key : ℕ) (value : A) (res : List (ℕ × A))
      → low ≤ key
      → AllFrom low res
      → AllFrom low (insert_entry key value res)
  unfolding insert_entry
  insert_entry-AllFrom low key value [] h all = (h, tt)
  insert_entry-AllFrom low key value ((k, v) ∷ rest) h (a, all) = elim (Bool-cases (ltb key k)) [
    | inl e ↦ rw (insert_entry, e) (h, (a, all))
    | inr e ↦ rw (insert_entry, e) (a, insert_entry-AllFrom low key value rest h all)
  ]

  AllFrom-le : (low high : ℕ) (res : List (ℕ × A)) → low ≤ high → AllFrom high res → AllFrom low res
  AllFrom-le low high [] h all = tt
  AllFrom-le low high ((k, v) ∷ rest) h (a, all) = (omega arith, AllFrom-le low high rest h all)

  pub insert_entry-IsOrdered :
      (key : ℕ) (value : A) (res : List (ℕ × A))
      → IsOrdered res
      → IsOrdered (insert_entry key value res)
  unfolding insert_entry
  insert_entry-IsOrdered key value [] o = (tt, tt)
  insert_entry-IsOrdered key value ((k, v) ∷ rest) (a, o) = elim (Bool-cases (ltb key k)) [
    | inl e ↦
        let le : key ≤ k = ground arith in
        rw (insert_entry, e) ((le, AllFrom-le key k rest le a), (a, o))
    | inr e ↦
        let le : k ≤ key = ground arith in
        rw (insert_entry, e)
          (insert_entry-AllFrom k key value rest le a, insert_entry-IsOrdered key value rest o)
  ]

  pub insert_entry-AllOwned :
      (node : A → Node) (key : ℕ) (value : A) (res : List (ℕ × A))
      → symbol (node value) ≡ ok key
      → AllOwned node res
      → AllOwned node (insert_entry key value res)
  unfolding insert_entry
  insert_entry-AllOwned node key value [] h all = (h, tt)
  insert_entry-AllOwned node key value ((k, v) ∷ rest) h (a, all) = elim (Bool-cases (ltb key k)) [
    | inl e ↦ rw (insert_entry, e) (h, (a, all))
    | inr e ↦ rw (insert_entry, e) (a, insert_entry-AllOwned node key value rest h all)
  ]
