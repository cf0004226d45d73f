-- ===== src/ObjectParsing/Coredump/Lines.antt =====
-- `sourceLocationMap` of CoredumpObject.cpp and the line entries of a location.
use bracelet.Prelude.{
  ◌≡◌, refl, sym, ap, ◌∙◌, subst, true, false, Option, none, some, List, [], ◌∷◌, ◌++◌,
  append_assoc, append-nil, arith, Bool-cases, inl, inr, if◌then◌else◌,
}
use bracelet.Edges.Bytes.{equal_refl, equal→eq}
use bracelet.Edges.Table.{find}
use bracelet.BraceletEdges.Locations.{
  SourceLocation, AddressRange, SourceLocationMap, same_location,
}
use bracelet.ObjectParsing.Coredump.{add_range, source_location_map}

same_location→eq : (a b : SourceLocation) → same_location a b ≡ true → a ≡ b
unfolding same_location
same_location→eq a b h =
    let file = equal→eq a.file b.file (ground arith) in
    let line : a.line ≡ b.line = ground arith in
    let col : a.col ≡ b.col = ground arith in cc (file, line, col)

same_location_refl : (a : SourceLocation) → same_location a a ≡ true
unfolding same_location
same_location_refl a = ground (arith, equal_refl a.file)

-- Whether locations are equal, in their files, lines and columns.
pub location_dec : (a b : SourceLocation) → Dec (a ≡ b)
location_dec a b = elim (Bool-cases (same_location a b)) [
  | inl same ↦ yes (same_location→eq a b same)
  | inr other ↦
      no (λ e. absurd (cc (subst (λ x. same_location a x ≡ true) e (same_location_refl a), other)))
]

-- What a map has for a location, and what a list of entries has.
abbrev pub ranges_at : SourceLocation → SourceLocationMap → List AddressRange
ranges_at l [] = []
ranges_at l ((k, ranges) ∷ slm) = elim (location_dec l k) [
  | yes same ↦ ranges
  | no other ↦ ranges_at l slm
]

abbrev pub ranges_of : SourceLocation → List (SourceLocation × AddressRange) → List AddressRange
ranges_of l [] = []
ranges_of l ((k, r) ∷ entries) = elim (location_dec l k) [
  | yes same ↦ r ∷ ranges_of l entries
  | no other ↦ ranges_of l entries
]

-- The test of the code decides the equation.
location_dec-if :
    {A : Type 0} (l k : SourceLocation) (x y : A)
    → (if same_location l k then x else y) ≡ (elim (location_dec l k) [ yes e ↦ x | no n ↦ y ])
location_dec-if l k x y =
    elim (location_dec l k)
      as (λ d. (if same_location l k then x else y) ≡ (elim d [ yes e ↦ x | no n ↦ y ])) [
        | yes e ↦
            let same : same_location l k ≡ true =
              subst (λ z. same_location l z ≡ true) e (same_location_refl l) in
            rw same refl
        | no n ↦ elim (Bool-cases (same_location l k)) [
          | inl same ↦ absurd (n (same_location→eq l k same))
          | inr other ↦ rw other refl
        ]
      ]

-- The same with the code's test.
abbrev or_empty : Option (List AddressRange) → List AddressRange
or_empty none = []
or_empty (some ranges) = ranges

abbrev found_at : SourceLocation → SourceLocationMap → List AddressRange
found_at l slm = or_empty (find same_location l slm)

abbrev found_of : SourceLocation → List (SourceLocation × AddressRange) → List AddressRange
found_of l [] = []
found_of l ((k, r) ∷ entries) =
    if same_location l k then r ∷ found_of l entries else found_of l entries

found_at-add_range :
    (l k : SourceLocation) (r : AddressRange) (slm : SourceLocationMap)
    → found_at l (add_range k r slm) ≡ found_at l slm ++ found_of l ((k, r) ∷ [])
unfolding find add_range
found_at-add_range l k r [] = ground arith
found_at-add_range l k r ((j, ranges) ∷ slm) = elim (Bool-cases (same_location k j)) [
  | inl same ↦
      let e = sym (same_location→eq k j same) in
      elim (Bool-cases (same_location l j)) [
        | inl here ↦ rw (add_range, same, find, here, subst (λ x. same_location l x ≡ true) e here)
        | inr below ↦
            rw (add_range, same, find, below, subst (λ x. same_location l x ≡ false) e below)
              (sym (append-nil _))
      ]
  | inr other ↦ elim (Bool-cases (same_location l j)) [
    | inr below ↦ rw (add_range, other, find, below) (found_at-add_range l k r slm)
    | inl here ↦
        let e = same_location→eq l j here in
        elim (Bool-cases (same_location l k)) [
          | inl both ↦
              let f = same_location→eq l k both in absurd (cc (same_location_refl l, other, e, f))
          | inr apart ↦ rw (add_range, other, find, here, apart) (sym (append-nil ranges))
        ]
  ]
]

first :
    (l k : SourceLocation) (r : AddressRange) (entries : List (SourceLocation × AddressRange))
    → found_of l ((k, r) ∷ []) ++ found_of l entries ≡ found_of l ((k, r) ∷ entries)
first l k r entries = elim (Bool-cases (same_location l k)) [ inl e ↦ rw e | inr e ↦ rw e ]

found_at-entries :
    (l : SourceLocation) (entries : List (SourceLocation × AddressRange)) (slm : SourceLocationMap)
    → found_at l (source_location_map entries slm) ≡ found_at l slm ++ found_of l entries
unfolding source_location_map
found_at-entries l [] slm = sym (append-nil _)
found_at-entries l ((k, r) ∷ entries) slm =
    found_at-entries l entries (add_range k r slm)
    ∙ rw (found_at-add_range l k r slm) (
        append_assoc (found_at l slm) (found_of l ((k, r) ∷ [])) (found_of l entries)
        ∙ ap (λ more. found_at l slm ++ more) (first l k r entries))

found_at_more :
    (l k : SourceLocation) (ranges : List AddressRange) (slm : SourceLocationMap)
    → found_at l ((k, ranges) ∷ slm) ≡ (if same_location l k then ranges else found_at l slm)
unfolding find
found_at_more l k ranges slm = elim (Bool-cases (same_location l k)) [
  | inl same ↦ rw (find, same)
  | inr other ↦ rw (find, other)
]

found_at-ranges_at :
    (l : SourceLocation) (slm : SourceLocationMap) → found_at l slm ≡ ranges_at l slm
unfolding find
found_at-ranges_at l [] = refl
found_at-ranges_at l ((k, ranges) ∷ slm) =
    found_at_more l k ranges slm
    ∙ rw (found_at-ranges_at l slm) (location_dec-if l k ranges (ranges_at l slm))

found_of-ranges_of :
    (l : SourceLocation) (entries : List (SourceLocation × AddressRange))
    → found_of l entries ≡ ranges_of l entries
found_of-ranges_of l [] = refl
found_of-ranges_of l ((k, r) ∷ entries) =
    rw (found_of-ranges_of l entries)
      (location_dec-if l k (r ∷ ranges_of l entries) (ranges_of l entries))

-- The ranges that the map has for a location are those of the line entries with the same file, line and
-- column, in their order.
pub ranges_at-source_location_map :
    (l : SourceLocation) (entries : List (SourceLocation × AddressRange))
    → ranges_at l (source_location_map entries []) ≡ ranges_of l entries
unfolding find
ranges_at-source_location_map l entries =
    sym (found_at-ranges_at l (source_location_map entries []))
    ∙ found_at-entries l entries []
    ∙ found_of-ranges_of l entries
