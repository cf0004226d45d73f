-- ===== src/Tracing/HashSet/Slots.antt =====
-- edge_hash_set.h, `increase_size`: lemmas on the loops of the rehash of all slots.
use bracelet.Prelude.{
  set, ℕ, zero, suc, ◌<◌, ◌≤◌, ◌^◌, ◌+◌, ◌≡◌, ◌≢◌, refl, sym, ap, ◌∙◌, ◌⊎◌, ◌↔◌, inl, inr, Bool,
  true, false, List, Result, ok, err, no_more_probes, ◌>>=◌, Returns, arith, length, subst,
}
use native.Mathlib.Decide.{ℕ_discrete}
use bracelet.Tracing.HashSet.{
  TraceEdge, edge_present, edge_epoch, edge_set_epoch, slot, index_sequence, resize_slot,
  resize_slots,
}
use bracelet.Tracing.HashSet.Probe.{index_sequence-AllBelow, set_epoch_site}
use bracelet.Tracing.HashSet.Insert.{Has}
use bracelet.Tracing.HashSet.Settled.{AllTaken}
use bracelet.Tracing.HashSet.Places.{IsResizing, Places, Places-Has, Places-IsDistinct, Places-Way}
use bracelet.Tracing.HashSet.Resize.{
  Call, failed, idle, ended, swapped, resize_insert-Call, unsettled, unsettled-le-length,
}

module _ (fnv1a : TraceEdge → ℕ) (count epoch : ℕ) where
  -- The rehash has come to slots with the same edges in which an edge that is not in its place finds
  -- every slot of its sequence taken by another edge that is in its own.
  abbrev pub IsStuck : List TraceEdge → Type 0
  IsStuck edges =
      (now : List TraceEdge) × (i : ℕ) × ((x : TraceEdge) → Has now x ↔ Has edges x)
      × (edge_present (slot now i) ≡ true)
      × (edge_epoch (slot now i) ≢ epoch)
      × (let e = edge_set_epoch (slot now i) epoch in
          AllTaken epoch (index_sequence fnv1a count e) (set now i e) e)

  -- A run that runs out of probes, or gives slots that hold the same edges as before.
  abbrev pub Grows : (List TraceEdge → Type 0) → List TraceEdge → Result (List TraceEdge) → Type 0
  Grows P edges r =
      ((r ≡ err no_more_probes) × IsStuck edges)
      ⊎ Returns r (λ edges'. P edges' × ((x : TraceEdge) → Has edges' x ↔ Has edges x))

  Grows-trans :
      (P : List TraceEdge → Type 0) (edges edges' : List TraceEdge) {r : Result (List TraceEdge)}
      → ((x : TraceEdge) → Has edges' x ↔ Has edges x)
      → Grows P edges' r
      → Grows P edges r
  Grows-trans P edges edges' h (inl (f, (now, i, same, p, o, t))) =
      inl (f, (now, i, (λ x. (λ k. (h x).0 ((same x).0 k), λ k. (same x).1 ((h x).1 k))), p, o, t))
  Grows-trans P edges edges' h (inr (out, e, (p, same))) =
      inr (out, e, (p, λ x. (λ k. (h x).0 ((same x).0 k), λ k. (same x).1 ((h x).1 k))))

module _ (fnv1a : TraceEdge → ℕ) (count epoch : ℕ) (b : epoch < 2) where
  IsResizing-Places :
      (low high j : ℕ) (edges edges' : List TraceEdge)
      → low < high
      → Places epoch
          (index_sequence fnv1a count (edge_set_epoch (slot edges low) epoch))
          edges
          edges'
          (edge_set_epoch (slot edges low) epoch)
          low
          j
      → IsResizing fnv1a count epoch low high edges
      → IsResizing fnv1a count epoch low high edges'
  IsResizing-Places low high j edges edges' lt m v = record {
    size = m.size ∙ v.size;
    sites = λ q h. elim (ℕ_discrete j q) [
      | yes at ↦
          rw (← at, m.landed) (set_epoch_site (slot edges low) epoch b (v.sites low m.source))
      | no off ↦ elim (ℕ_discrete low q) [
        | yes here ↦
            let apart : low ≢ j = λ k. off (sym k ∙ here) in
            let (p, same) = m.forth apart (rw here h) in rw (← here, same) (v.sites j p)
        | no away ↦ let same = m.kept q away off in rw same (v.sites q (rw same at h))
      ]
    ];
    distinct = Places-IsDistinct m v.distinct;
    way = λ q h k. Places-Way m (index_sequence fnv1a count) q refl v.way h k;
    done = λ q outside h. elim (ℕ_discrete j q) [
      | yes at ↦ rw (← at, m.landed) m.settled
      | no off ↦
          let away : low ≢ q =
            λ k. elim outside [ inl l ↦ absurd (omega arith) | inr l ↦ absurd (omega arith) ] in
          let same = m.kept q away off in ap edge_epoch same ∙ v.done q outside (rw same at h)
    ];
  }

  -- A settled slot at the low end is done.
  IsResizing-suc :
      (low high : ℕ) (edges : List TraceEdge)
      → (edge_present (slot edges low) ≡ true → edge_epoch (slot edges low) ≡ epoch)
      → IsResizing fnv1a count epoch low high edges
      → IsResizing fnv1a count epoch (low + 1) high edges
  IsResizing-suc low high edges h v = record {
    size = v.size;
    sites = v.sites;
    distinct = v.distinct;
    way = v.way;
    done = λ q outside p. elim (ℕ_discrete low q) [
      | yes here ↦
          ap (λ r. edge_epoch (slot edges r)) (sym here)
          ∙ h (ap (λ r. edge_present (slot edges r)) here ∙ p)
      | no away ↦
          let apart : (q < low) ⊎ (high ≤ q) = elim outside [
            | inl l ↦ inl (omega arith)
            | inr l ↦ inr l
          ] in
          v.done q apart p
    ];
  }

  slot_step :
      (fuel low high : ℕ) (edges : List TraceEdge) (r : Result (Bool × List TraceEdge))
      → low < high
      → IsResizing fnv1a count epoch low high edges
      → Call fnv1a epoch b count low edges r
      → ((edges' : List TraceEdge)
          → IsResizing fnv1a count epoch low high edges'
          → unsettled epoch edges' < unsettled epoch edges
          → Grows fnv1a count epoch
              (IsResizing fnv1a count epoch (low + 1) high)
              edges'
              (resize_slot fnv1a fuel count epoch low edges'))
      → Grows fnv1a count epoch (IsResizing fnv1a count epoch (low + 1) high) edges (
          r >>= λ r. elim r.0 [
            | true ↦ resize_slot fnv1a fuel count epoch low r.1
            | false ↦ ok r.1
          ])
  slot_step fuel low high edges _ lt v (failed p o t) ih =
      inl (refl, (edges, low, (λ x. (λ k. k, λ k. k)), p, o, t))
  slot_step fuel low high edges _ lt v (idle h) ih =
      inr (edges, refl, (IsResizing-suc low high edges h v, λ x. (λ k. k, λ k. k)))
  slot_step fuel low high edges _ lt v (ended j edges' m h) ih =
      let v' = IsResizing-Places low high j edges edges' lt m v in
      inr (edges', refl, (IsResizing-suc low high edges' h v', Places-Has m))
  slot_step fuel low high edges _ lt v (swapped j edges' m less) ih =
      let v' = IsResizing-Places low high j edges edges' lt m v in
      Grows-trans fnv1a count epoch _ edges edges' (Places-Has m) (ih edges' v' less)

  module _ (log2 : ℕ) (power : count ≡ 2 ^ log2) where
    resize_slot-Grows :
        (fuel low high : ℕ) (edges : List TraceEdge)
        → low < high
        → high ≤ count
        → unsettled epoch edges < fuel
        → IsResizing fnv1a count epoch low high edges
        → Grows fnv1a count epoch
            (IsResizing fnv1a count epoch (low + 1) high)
            edges
            (resize_slot fnv1a fuel count epoch low edges)
    unfolding resize_slot
    resize_slot-Grows zero low high edges lt le enough v = absurd (omega arith)
    resize_slot-Grows (suc fuel) low high edges lt le enough v =
        slot_step fuel low high edges _ lt v
          (resize_insert-Call fnv1a epoch b count low edges
            (index_sequence-AllBelow fnv1a log2 (length edges) count _ power v.size) v.distinct
            (v.sites low) (omega (arith, v.size)))
          (λ edges' v' less. resize_slot-Grows fuel low high edges' lt le (omega arith) v')

    bind_slots :
        (P Q : List TraceEdge → Type 0) (edges : List TraceEdge) (r : Result (List TraceEdge))
        (k : List TraceEdge → Result (List TraceEdge))
        → Grows fnv1a count epoch P edges r
        → ((edges' : List TraceEdge) → P edges' → Grows fnv1a count epoch Q edges' (k edges'))
        → Grows fnv1a count epoch Q edges (r >>= k)
    bind_slots P Q edges r k (inl (f, stuck)) ih = inl (rw f, stuck)
    bind_slots P Q edges r k (inr (out, e, (p, same))) ih =
        rw e (Grows-trans fnv1a count epoch Q edges out same (ih out p))

    pub resize_slots-Grows :
        (n low high : ℕ) (edges : List TraceEdge)
        → low + n ≡ high
        → high ≤ count
        → IsResizing fnv1a count epoch low high edges
        → Grows fnv1a count epoch
            (IsResizing fnv1a count epoch high high)
            edges
            (resize_slots fnv1a count epoch low n edges)
    unfolding resize_slots
    resize_slots-Grows zero low high edges e le v =
        let same : low ≡ high = omega arith in
        inr (
          edges,
          refl,
          (subst (λ l. IsResizing fnv1a count epoch l high edges) same v, λ x. (λ k. k, λ k. k)),
        )
    resize_slots-Grows (suc n) low high edges e le v =
        bind_slots (IsResizing fnv1a count epoch (low + 1) high) _ edges _ _
          (resize_slot-Grows (suc (length edges)) low high edges (omega arith) le
            (omega (arith, unsettled-le-length epoch edges)) v)
          (λ edges' v'. resize_slots-Grows n (low + 1) high edges' (omega arith) le v')
