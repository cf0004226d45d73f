-- ===== src/Tracing/HashSet/Vacant.antt =====
-- Slots that hold an edge, and the empty slots that a table gets as it doubles.
use bracelet.Prelude.{
  ℕ, zero, suc, ◌<◌, ◌+◌, ◌-◌, ◌≡◌, refl, sym, ap, ◌∙◌, inl, inr, true, false, List, [], ◌∷◌, ◌++◌,
  arith, length, replicate, get_or-append_left, get_or-append_right, get_or-above, ltb, Bool-cases,
  ltb→lt,
}
use bracelet.Tracing.HashSet.{
  TraceEdge, EdgeHashSet, edge_zero, edge_present, edge_equal, slot, index_sequence,
}
use bracelet.Tracing.HashSet.Probe.{Reaches, index_sequence-equal, Reaches-congr}
use bracelet.Tracing.HashSet.Insert.{IsValid}
use bracelet.Tracing.HashSet.Places.{IsDistinct, edge_equal_refl}

-- Two slots that an edge's sequence comes to first are the same.
Reaches-unique :
    (seq : List ℕ) (edges : List TraceEdge) (e : TraceEdge) (p q : ℕ)
    → edge_equal (slot edges p) e ≡ true
    → edge_equal (slot edges q) e ≡ true
    → Reaches seq edges e p
    → Reaches seq edges e q
    → p ≡ q
Reaches-unique [] edges e p q a c r t = absurd r
Reaches-unique (i ∷ seq) edges e p q a c (inl h) (inl k) = sym h ∙ k
Reaches-unique (i ∷ seq) edges e p q a c (inl h) (inr (o, t)) =
    absurd (cc (ap (λ j. edge_equal (slot edges j) e) h, a, o.1))
Reaches-unique (i ∷ seq) edges e p q a c (inr (o, r)) (inl k) =
    absurd (cc (ap (λ j. edge_equal (slot edges j) e) k, c, o.1))
Reaches-unique (i ∷ seq) edges e p q a c (inr (o, r)) (inr (o', t)) =
    Reaches-unique seq edges e p q a c r t

pub IsValid-IsDistinct :
    (fnv1a : TraceEdge → ℕ) (s : EdgeHashSet) → IsValid fnv1a s → IsDistinct s.edges
IsValid-IsDistinct fnv1a s v p q h k same =
    let seq = index_sequence fnv1a s.edge_count (slot s.edges q) in
    let way : Reaches seq s.edges (slot s.edges q) p =
      rw (← index_sequence-equal fnv1a s.edge_count (slot s.edges p) (slot s.edges q) same)
        (Reaches-congr _ s.edges (slot s.edges p) (slot s.edges q) p same (v.reached p h)) in
    Reaches-unique seq s.edges (slot s.edges q) p q same (edge_equal_refl _) way (v.reached q k)

pub slot-replicate : (m q : ℕ) → slot (replicate m edge_zero) q ≡ edge_zero
slot-replicate zero q = refl
slot-replicate (suc m) zero = refl
slot-replicate (suc m) (suc q) = slot-replicate m q

pub absent : edge_present edge_zero ≡ false
unfolding edge_present
absent = refl

pub present-lt :
    (edges : List TraceEdge) (p : ℕ) → edge_present (slot edges p) ≡ true → p < length edges
present-lt edges p h = elim (Bool-cases (ltb p (length edges))) [
  | inl low ↦ ltb→lt _ _ low
  | inr high ↦
      absurd (cc (ap edge_present (get_or-above edges p edge_zero (ground arith)), absent, h))
]

-- The slots that `mremap` adds are empty.
pub slot-extended :
    (edges : List TraceEdge) (n p : ℕ)
    → edge_present (slot (edges ++ replicate n edge_zero) p) ≡ true
    → (p < length edges) × (slot (edges ++ replicate n edge_zero) p ≡ slot edges p)
slot-extended edges n p h = elim (Bool-cases (ltb p (length edges))) [
  | inl low ↦
      let l = ltb→lt _ _ low in (l, get_or-append_left edges (replicate n edge_zero) p edge_zero l)
  | inr high ↦
      let at : length edges + (p - length edges) ≡ p = ground arith in
      let zeros = replicate n edge_zero in
      let there : slot (edges ++ zeros) p ≡ edge_zero =
        ap (slot (edges ++ zeros)) (sym at)
        ∙ get_or-append_right edges zeros (p - length edges) edge_zero
        ∙ slot-replicate n (p - length edges) in
      absurd (cc (ap edge_present there, absent, h))
]
