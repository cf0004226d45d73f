-- ===== src/Tracing/HashSet/Places.antt =====
-- One move of the rehash: the edge of slot `i` is settled in slot `j`, and what slot `j` held, if
-- anything, is in slot `i`.
use native.Mathlib.Decide.{ℕ_discrete}
use bracelet.Prelude.{
  ℕ, ◌<◌, ◌≤◌, ◌≡◌, ◌≢◌, sym, ap, ◌∙◌, ◌⊎◌, ◌↔◌, true, List, arith, length, ◌==◌, ==_refl, ==_ne,
  if◌then◌else◌,
}
use bracelet.Tracing.HashSet.{TraceEdge, edge_present, edge_epoch, edge_equal, slot, index_sequence}
use bracelet.Tracing.HashSet.Probe.{edge_equal_symm, edge_equal_congr}
use bracelet.Tracing.HashSet.Insert.{Has}
use bracelet.Tracing.HashSet.Settled.{Way, Way-kept}

-- No two slots hold the same edge.
abbrev pub IsDistinct : List TraceEdge → Type 0
IsDistinct edges =
    (p q : ℕ)
    → edge_present (slot edges p) ≡ true
    → edge_present (slot edges q) ≡ true
    → edge_equal (slot edges p) (slot edges q) ≡ true
    → p ≡ q

-- During the rehash into `count` slots: the slots outside `low` to `high` are settled.
pub record IsResizing (fnv1a : TraceEdge → ℕ) (count epoch low high : ℕ) (edges : List TraceEdge)
    : Type 0 where
  pub size : length edges ≡ count
  pub sites : (p : ℕ) → edge_present (slot edges p) ≡ true → 1 < (slot edges p).trace_site
  pub distinct : IsDistinct edges
  pub way :
      (p : ℕ)
      → edge_present (slot edges p) ≡ true
      → edge_epoch (slot edges p) ≡ epoch
      → Way epoch (index_sequence fnv1a count (slot edges p)) edges (slot edges p) p
  pub done :
      (p : ℕ)
      → (p < low) ⊎ (high ≤ p)
      → edge_present (slot edges p) ≡ true
      → edge_epoch (slot edges p) ≡ epoch

pub record Places (epoch : ℕ) (seq : List ℕ) (edges edges' : List TraceEdge) (e : TraceEdge)
    (i j : ℕ) : Type 0 where
  pub size : length edges' ≡ length edges
  pub source : edge_present (slot edges i) ≡ true
  pub equal : edge_equal e (slot edges i) ≡ true
  pub present : edge_present e ≡ true
  pub settled : edge_epoch e ≡ epoch
  pub landed : slot edges' j ≡ e
  pub back : i ≢ j → edge_present (slot edges j) ≡ true → slot edges' i ≡ slot edges j
  pub forth :
      i ≢ j
      → edge_present (slot edges' i) ≡ true
      → (edge_present (slot edges j) ≡ true) × (slot edges' i ≡ slot edges j)
  pub kept : (q : ℕ) → i ≢ q → j ≢ q → slot edges' q ≡ slot edges q
  pub old_source : edge_epoch (slot edges i) ≢ epoch
  pub old_target : edge_present (slot edges j) ≡ true → edge_epoch (slot edges j) ≢ epoch
  pub way : Way epoch seq edges' e j

-- The slot where an edge was, and where it is.
pub moved : ℕ → ℕ → ℕ → ℕ
moved i j q = if j == q then i else if i == q then j else q

moved_self : (i j : ℕ) → moved i j j ≡ i
unfolding moved
moved_self i j = rw (==_refl j)

moved-other : (i j : ℕ) → i ≢ j → moved i j i ≡ j
unfolding moved
moved-other i j h = rw (==_ne j i (λ k. h (sym k)), ==_refl i)

moved-kept : (i j q : ℕ) → i ≢ q → j ≢ q → moved i j q ≡ q
unfolding moved
moved-kept i j q h k = rw (==_ne j q k, ==_ne i q h)

moved-injective : (i j p q : ℕ) → moved i j p ≡ moved i j q → p ≡ q
unfolding moved
moved-injective i j p q h = ground arith

pub edge_equal_refl : (e : TraceEdge) → edge_equal e e ≡ true
unfolding edge_equal
edge_equal_refl e = ground arith

module _ {epoch : ℕ} {seq : List ℕ} {edges edges' : List TraceEdge} {e : TraceEdge} {i j : ℕ}
    (m : Places epoch seq edges edges' e i j) where
  pub Places-from :
      (q : ℕ)
      → edge_present (slot edges' q) ≡ true
      → (edge_present (slot edges (moved i j q)) ≡ true)
        × (edge_equal (slot edges' q) (slot edges (moved i j q)) ≡ true)
  Places-from q h = elim (ℕ_discrete j q) [
    | yes at ↦ rw (← at, moved_self i j, m.landed) (m.source, m.equal)
    | no off ↦ elim (ℕ_discrete i q) [
      | yes here ↦
          let apart : i ≢ j = λ k. off (sym k ∙ here) in
          let (p, same) = m.forth apart (rw here h) in
          rw (← here, moved-other i j apart, same) (p, edge_equal_refl _)
      | no away ↦
          let same = m.kept q away off in
          rw (moved-kept i j q away off, same) (rw same at h, edge_equal_refl _)
    ]
  ]

  Places-to :
      (q : ℕ)
      → edge_present (slot edges q) ≡ true
      → (edge_present (slot edges' (moved j i q)) ≡ true)
        × (edge_equal (slot edges' (moved j i q)) (slot edges q) ≡ true)
  Places-to q h = elim (ℕ_discrete i q) [
    | yes here ↦ rw (← here, moved_self j i, m.landed) (m.present, m.equal)
    | no away ↦ elim (ℕ_discrete j q) [
      | yes at ↦
          let apart : i ≢ j = λ k. away (k ∙ at) in
          let same = m.back apart (rw at h) in
          rw (← at, moved-other j i (λ k. apart (sym k)), same) (rw at h, edge_equal_refl _)
      | no off ↦
          let same = m.kept q away off in
          rw (moved-kept j i q off away, same) (h, edge_equal_refl _)
    ]
  ]

  -- The same edges are held.
  pub Places-Has : (x : TraceEdge) → Has edges' x ↔ Has edges x
  Places-Has x = (
    λ held.
        let (p, same) = Places-from held.0 held.1 in
        (moved i j held.0, p, sym (edge_equal_congr' _ _ x same) ∙ held.2),
    λ held.
        let (p, same) = Places-to held.0 held.1 in
        (moved j i held.0, p, edge_equal_congr' _ _ x same ∙ held.2),
  )
    where
      edge_equal_congr' :
          (a b c : TraceEdge) → edge_equal a b ≡ true → edge_equal a c ≡ edge_equal b c
      edge_equal_congr' a b c h =
          edge_equal_symm a c ∙ edge_equal_congr a b c h ∙ edge_equal_symm c b

  pub Places-IsDistinct : IsDistinct edges → IsDistinct edges'
  Places-IsDistinct d p q h k same =
      let (a, a') = Places-from p h in
      let (b, b') = Places-from q k in
      moved-injective i j p q
        (d (moved i j p) (moved i j q) a b (unfold edge_equal in ground arith))

  -- Settled slots stay as they are.
  Places-settled :
      (q : ℕ)
      → edge_present (slot edges q) ≡ true
      → edge_epoch (slot edges q) ≡ epoch
      → slot edges' q ≡ slot edges q
  Places-settled q h k =
      m.kept q (λ same. m.old_source (ap (λ r. edge_epoch (slot edges r)) same ∙ k))
        (λ same.
          m.old_target (ap (λ r. edge_present (slot edges r)) same ∙ h)
            (ap (λ r. edge_epoch (slot edges r)) same ∙ k))

  pub Places-Way :
      (f : TraceEdge → List ℕ) (q : ℕ)
      → seq ≡ f e
      → ((p : ℕ)
          → edge_present (slot edges p) ≡ true
          → edge_epoch (slot edges p) ≡ epoch
          → Way epoch (f (slot edges p)) edges (slot edges p) p)
      → edge_present (slot edges' q) ≡ true
      → edge_epoch (slot edges' q) ≡ epoch
      → Way epoch (f (slot edges' q)) edges' (slot edges' q) q
  Places-Way f q s old h k = elim (ℕ_discrete j q) [
    | yes at ↦ rw (← at, m.landed, ← s) m.way
    | no off ↦ elim (ℕ_discrete i q) [
      | yes here ↦
          let apart : i ≢ j = λ l. off (sym l ∙ here) in
          let (p, same) = m.forth apart (rw here h) in
          absurd (
            m.old_target p
              (ap edge_epoch (sym same) ∙ ap (λ r. edge_epoch (slot edges' r)) here ∙ k))
      | no away ↦
          let same = m.kept q away off in
          rw same (
            Way-kept epoch _ edges edges' _ q (λ r a b c. Places-settled r a b)
              (old q (rw same at h) (rw same at k)))
    ]
  ]
