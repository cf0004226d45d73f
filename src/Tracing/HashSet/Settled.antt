-- ===== src/Tracing/HashSet/Settled.antt =====
-- Slots that the rehash has settled: those of the new epoch, which it moves no more.
use bracelet.Prelude.{
  ℕ, ◌<◌, ◌≡◌, ◌≢◌, refl, sym, ◌∙◌, ◌⊎◌, inl, inr, Bool, true, false, List, [], ◌∷◌, Result, ok,
  err, no_more_probes, arith, set, Bool-cases, ==_iff, ◌==◌, subst,
}
use bracelet.Tracing.HashSet.{
  TraceEdge, edge_zero, edge_present, edge_epoch, edge_equal, edge_set_epoch, slot, rehash,
}
use bracelet.Tracing.HashSet.Probe.{AllBelow, Reaches, edge_equal_symm, edge_equal_congr}

module _ (epoch : ℕ) where
  -- The sequence comes to slot `p`, over settled slots with other edges than `e`.
  abbrev pub Way : List ℕ → List TraceEdge → TraceEdge → ℕ → Type 0
  Way [] edges e p = ⊥
  Way (i ∷ seq) edges e p =
      (i ≡ p)
      ⊎ ((edge_present (slot edges i) ≡ true)
          × (edge_epoch (slot edges i) ≡ epoch)
          × (edge_equal (slot edges i) e ≡ false)
          × Way seq edges e p)

  pub Way-Reaches :
      (seq : List ℕ) (edges : List TraceEdge) (e : TraceEdge) (p : ℕ)
      → Way seq edges e p
      → Reaches seq edges e p
  Way-Reaches [] edges e p w = w
  Way-Reaches (i ∷ seq) edges e p (inl h) = inl h
  Way-Reaches (i ∷ seq) edges e p (inr (a, b, c, w)) = inr ((a, c), Way-Reaches seq edges e p w)

  pub Way-lt :
      (seq : List ℕ) (edges : List TraceEdge) (e : TraceEdge) (p n : ℕ)
      → AllBelow n seq
      → Way seq edges e p
      → p < n
  Way-lt [] edges e p n b w = elim w [ ]
  Way-lt (i ∷ seq) edges e p n b (inl h) = subst (λ k. k < n) h b.0
  Way-lt (i ∷ seq) edges e p n b (inr (_, _, _, w)) = Way-lt seq edges e p n b.1 w

  -- Where the settled slots stay, so does the way.
  pub Way-kept :
      (seq : List ℕ) (edges edges' : List TraceEdge) (e : TraceEdge) (p : ℕ)
      → ((q : ℕ)
          → edge_present (slot edges q) ≡ true
          → edge_epoch (slot edges q) ≡ epoch
          → edge_equal (slot edges q) e ≡ false
          → slot edges' q ≡ slot edges q)
      → Way seq edges e p
      → Way seq edges' e p
  Way-kept [] edges edges' e p k w = w
  Way-kept (i ∷ seq) edges edges' e p k (inl h) = inl h
  Way-kept (i ∷ seq) edges edges' e p k (inr (a, b, c, w)) =
      let same = k i a b c in
      inr (rw same a, rw same b, rw same c, Way-kept seq edges edges' e p k w)

  pub Way-congr :
      (seq : List ℕ) (edges : List TraceEdge) (a b : TraceEdge) (p : ℕ)
      → edge_equal a b ≡ true
      → Way seq edges a p
      → Way seq edges b p
  Way-congr [] edges a b p h w = w
  Way-congr (i ∷ seq) edges a b p h (inl k) = inl k
  Way-congr (i ∷ seq) edges a b p h (inr (c, d, o, w)) =
      inr (c, d, sym (edge_equal_congr a b (slot edges i) h) ∙ o, Way-congr seq edges a b p h w)

  -- Every slot of a sequence holds another edge that is in its place.
  abbrev pub AllTaken : List ℕ → List TraceEdge → TraceEdge → Type 0
  AllTaken [] edges e = Unit {0}
  AllTaken (j ∷ seq) edges e =
      (edge_present (slot edges j) ≡ true)
      × (edge_epoch (slot edges j) ≡ epoch)
      × (edge_equal (slot edges j) e ≡ false)
      × AllTaken seq edges e

  -- How `rehash` ends for the edge `e` in slot `i`.
  pub data Moved (e : TraceEdge) (i : ℕ) (seq : List ℕ) (edges : List TraceEdge)
      : Result (Bool × List TraceEdge) → Type 0 where
    full : AllTaken seq edges e → Moved e i seq edges (err no_more_probes)
    stay :
        (j : ℕ)
        → edge_present (slot edges j) ≡ true
        → edge_equal e (slot edges j) ≡ true
        → Way seq edges e j
        → Moved e i seq edges (ok (false, edges))
    swap :
        (j : ℕ)
        → edge_present (slot edges j) ≡ true
        → edge_epoch (slot edges j) ≢ epoch
        → Way seq edges e j
        → Moved e i seq edges (ok (true, set (set edges i (slot edges j)) j e))
    settle :
        (j : ℕ)
        → edge_present (slot edges j) ≡ false
        → Way seq edges e j
        → Moved e i seq edges (ok (false, set (set edges j (edge_set_epoch e epoch)) i edge_zero))

  later :
      (e : TraceEdge) (i j : ℕ) (seq : List ℕ) (edges : List TraceEdge)
      {r : Result (Bool × List TraceEdge)}
      → edge_present (slot edges j) ≡ true
      → edge_epoch (slot edges j) ≡ epoch
      → edge_equal (slot edges j) e ≡ false
      → Moved e i seq edges r
      → Moved e i (j ∷ seq) edges r
  later e i j seq edges a b c (full t) = full (a, b, c, t)
  later e i j seq edges a b c (stay k p s w) = stay k p s (inr (a, b, c, w))
  later e i j seq edges a b c (swap k p o w) = swap k p o (inr (a, b, c, w))
  later e i j seq edges a b c (settle k p w) = settle k p (inr (a, b, c, w))

  pub rehash-Moved :
      (e : TraceEdge) (i : ℕ) (seq : List ℕ) (edges : List TraceEdge)
      → slot edges i ≡ e
      → Moved e i seq edges (rehash epoch i seq edges)
  unfolding rehash
  rehash-Moved e i [] edges h = full tt
  rehash-Moved e i (j ∷ seq) edges h = elim (Bool-cases (edge_present (slot edges j))) [
    | inr empty ↦ rw (empty, h) (settle j empty (inl refl))
    | inl taken ↦ elim (Bool-cases (edge_epoch (slot edges j) == epoch)) [
      | inr old ↦
          let other : edge_epoch (slot edges j) ≢ epoch = ground arith in
          rw (taken, old, h) (swap j taken other (inl refl))
      | inl new ↦
          let now = (==_iff (edge_epoch (slot edges j)) epoch).0 new in
          elim (Bool-cases (edge_equal e (slot edges j))) [
            | inl same ↦ rw (taken, new, h, same) (stay j taken same (inl refl))
            | inr differ ↦
                rw (taken, new, h, differ)
                  (later e i j seq edges taken now (edge_equal_symm (slot edges j) e ∙ differ)
                    (rehash-Moved e i seq edges h))
          ]
    ]
  ]
