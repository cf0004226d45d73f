-- ===== src/Tracing/HashSet/Probe.antt =====
-- Where an edge stands on its sequence of indices.
use bracelet.Prelude.{
  ℕ, zero, suc, ◌*◌, ◌/◌, ◌^◌, ◌<◌, ◌≡◌, ◌≢◌, sym, ap, ◌∙◌, ◌⊎◌, inl, inr, subst, true, false, List,
  [], ◌∷◌, arith, set, get_or-set_ne,
}
use native.Mathlib.Nat.{mod-lt, one-le-pow}
use bracelet.Prelude.Bits.{bit_and_mask, bit_or_fields}
use bracelet.Tracing.HashSet.{
  TraceEdge, edge_zero, edge_present, edge_epoch, edge_equal, edge_set_epoch, slot, indices,
  index_sequence,
}

-- The slot holds another edge than `e`.
abbrev pub Blocked : List TraceEdge → TraceEdge → ℕ → Type 0
Blocked edges e i = (edge_present (slot edges i) ≡ true) × (edge_equal (slot edges i) e ≡ false)

abbrev pub AllBlocked : List ℕ → List TraceEdge → TraceEdge → Type 0
AllBlocked [] edges e = Unit {0}
AllBlocked (i ∷ seq) edges e = Blocked edges e i × AllBlocked seq edges e

-- The sequence comes to slot `p`, and every slot before it holds another edge than `e`.
abbrev pub Reaches : List ℕ → List TraceEdge → TraceEdge → ℕ → Type 0
Reaches [] edges e p = ⊥
Reaches (i ∷ seq) edges e p = (i ≡ p) ⊎ (Blocked edges e i × Reaches seq edges e p)

abbrev pub AllBelow : ℕ → List ℕ → Type 0
AllBelow n [] = Unit {0}
AllBelow n (i ∷ seq) = (i < n) × AllBelow n seq

pub Reaches-lt :
    (seq : List ℕ) (edges : List TraceEdge) (e : TraceEdge) (p n : ℕ)
    → AllBelow n seq
    → Reaches seq edges e p
    → p < n
Reaches-lt [] edges e p n b r = elim r [ ]
Reaches-lt (i ∷ seq) edges e p n b (inl h) = subst (λ k. k < n) h b.0
Reaches-lt (i ∷ seq) edges e p n b (inr r) = Reaches-lt seq edges e p n b.1 r.1

-- Filling an empty slot blocks no way.
pub Reaches-set :
    (seq : List ℕ) (edges : List TraceEdge) (e x : TraceEdge) (p q : ℕ)
    → edge_present (slot edges p) ≡ false
    → Reaches seq edges e q
    → Reaches seq (set edges p x) e q
Reaches-set [] edges e x p q a r = r
Reaches-set (i ∷ seq) edges e x p q a (inl h) = inl h
Reaches-set (i ∷ seq) edges e x p q a (inr (b, r)) =
    let ne : p ≢ i = λ h. cc (ap (λ k. edge_present (slot edges k)) h) in
    inr (rw (get_or-set_ne edges p i x edge_zero ne) b, Reaches-set seq edges e x p q a r)

-- The sequence of an edge does not come to an empty slot before the edge.
pub Reaches-apart :
    (seq : List ℕ) (edges : List TraceEdge) (e : TraceEdge) (p q : ℕ)
    → edge_present (slot edges p) ≡ false
    → edge_present (slot edges q) ≡ true
    → edge_equal (slot edges q) e ≡ true
    → Reaches seq edges e p
    → Reaches seq edges e q
    → ⊥
Reaches-apart [] edges e p q a b c r t = r
Reaches-apart (i ∷ seq) edges e p q a b c (inl h) (inl k) =
    cc (ap (λ j. edge_present (slot edges j)) h, ap (λ j. edge_present (slot edges j)) k)
Reaches-apart (i ∷ seq) edges e p q a b c (inl h) (inr t) =
    cc (ap (λ j. edge_present (slot edges j)) h, t.0.0)
Reaches-apart (i ∷ seq) edges e p q a b c (inr r) (inl k) =
    cc (ap (λ j. edge_equal (slot edges j) e) k, r.0.1)
Reaches-apart (i ∷ seq) edges e p q a b c (inr r) (inr t) =
    Reaches-apart seq edges e p q a b c r.1 t.1

-- Nor does it come to an edge if it is blocked throughout.
pub Blocked_apart :
    (seq : List ℕ) (edges : List TraceEdge) (e : TraceEdge) (q : ℕ)
    → edge_equal (slot edges q) e ≡ true
    → AllBlocked seq edges e
    → Reaches seq edges e q
    → ⊥
Blocked_apart [] edges e q c b t = t
Blocked_apart (i ∷ seq) edges e q c b (inl k) = cc (ap (λ j. edge_equal (slot edges j) e) k, b.0.1)
Blocked_apart (i ∷ seq) edges e q c b (inr t) = Blocked_apart seq edges e q c b.1 t.1

pub indices-AllBelow : (k n hash : ℕ) → AllBelow (2 ^ k) (indices (2 ^ k) n hash)
unfolding indices
indices-AllBelow k zero hash = tt
indices-AllBelow k (suc n) hash =
    (rw (bit_and_mask k _) (mod-lt _ (one-le-pow k 2 (omega arith))), indices-AllBelow k n _)

pub edge_equal_symm : (a b : TraceEdge) → edge_equal a b ≡ edge_equal b a
unfolding edge_equal
edge_equal_symm a b = ground arith

pub edge_equal_congr : (a b x : TraceEdge) → edge_equal a b ≡ true → edge_equal x a ≡ edge_equal x b
unfolding edge_equal
edge_equal_congr a b x h = ground arith

pub edge_equal-set_epoch :
    (e x : TraceEdge) (epoch : ℕ)
    → epoch < 2
    → edge_equal (edge_set_epoch e epoch) x ≡ edge_equal e x
unfolding edge_equal edge_set_epoch
edge_equal-set_epoch e x epoch h = ground (arith, bit_or_fields 1 (e.trace_site / 2) epoch)

-- Equal edges are blocked by the same slots.
pub Reaches-congr :
    (seq : List ℕ) (edges : List TraceEdge) (a b : TraceEdge) (p : ℕ)
    → edge_equal a b ≡ true
    → Reaches seq edges a p
    → Reaches seq edges b p
Reaches-congr [] edges a b p h r = r
Reaches-congr (i ∷ seq) edges a b p h (inl k) = inl k
Reaches-congr (i ∷ seq) edges a b p h (inr ((c, d), r)) =
    inr ((c, sym (edge_equal_congr a b (slot edges i) h) ∙ d), Reaches-congr seq edges a b p h r)

module _ (fnv1a : TraceEdge → ℕ) where
  pub index_sequence-equal :
      (n : ℕ) (a b : TraceEdge)
      → edge_equal a b ≡ true
      → index_sequence fnv1a n a ≡ index_sequence fnv1a n b
  unfolding index_sequence edge_equal
  index_sequence-equal n a b h =
      let same : ◌≡◌ {A = TraceEdge} (record a { trace_site = a.trace_site / 2 * 2 })
          (record b { trace_site = b.trace_site / 2 * 2 }) =
        ground arith in
      rw same

  pub index_sequence-AllBelow :
      (k size n : ℕ) (e : TraceEdge)
      → n ≡ 2 ^ k
      → size ≡ n
      → AllBelow size (index_sequence fnv1a n e)
  unfolding index_sequence
  index_sequence-AllBelow k size n e h l = rw (l, h) (indices-AllBelow k 1024 _)

pub set_epoch_present :
    (e : TraceEdge) (epoch : ℕ)
    → epoch < 2
    → 1 < e.trace_site
    → edge_present (edge_set_epoch e epoch) ≡ true
unfolding edge_present edge_set_epoch
set_epoch_present e epoch h k = ground (arith, bit_or_fields 1 (e.trace_site / 2) epoch)

pub set_epoch_epoch :
    (e : TraceEdge) (epoch : ℕ) → epoch < 2 → edge_epoch (edge_set_epoch e epoch) ≡ epoch
unfolding edge_epoch edge_set_epoch
set_epoch_epoch e epoch h = ground (arith, bit_or_fields 1 (e.trace_site / 2) epoch)

pub set_epoch_site :
    (e : TraceEdge) (epoch : ℕ)
    → epoch < 2
    → 1 < e.trace_site
    → 1 < (edge_set_epoch e epoch).trace_site
unfolding edge_set_epoch
set_epoch_site e epoch h k = ground (arith, bit_or_fields 1 (e.trace_site / 2) epoch)
