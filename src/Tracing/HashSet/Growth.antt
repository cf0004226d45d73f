-- ===== src/Tracing/HashSet/Growth.antt =====
-- edge_hash_set.h, `increase_size`: lemmas on the table of twice the slots.
use native.Mathlib.Nat.{pow-suc, one-le-pow}
use bracelet.Prelude.{
  ℕ, zero, suc, ◌<◌, ◌≤◌, ◌^◌, ◌-◌, ◌*◌, ◌%◌, ◌≡◌, ◌≢◌, refl, sym, ap, ◌∙◌, ◌⊎◌, ◌↔◌, inl, inr,
  true, List, [], ◌++◌, Result, ok, err, no_more_probes, ◌>>=◌, Returns, arith, bit_xor, replicate,
  get_or-append_left, length-append, length-replicate, ltb, Bool-cases, ltb→lt,
}
use bracelet.Tracing.HashSet.{
  TraceEdge, EdgeHashSet, edge_zero, edge_present, edge_epoch, slot, threshold, increase_size,
}
use bracelet.Tracing.HashSet.Insert.{Has, IsValid}
use bracelet.Tracing.HashSet.Settled.{Way-Reaches}
use bracelet.Tracing.HashSet.Places.{IsResizing}
use bracelet.Tracing.HashSet.Slots.{IsStuck, Grows, resize_slots-Grows}
use bracelet.Tracing.HashSet.Vacant.{IsValid-IsDistinct, slot-extended, present-lt}

flip : (epoch : ℕ) → epoch < 2 → (bit_xor epoch 1 < 2) × (bit_xor epoch 1 ≢ epoch)
flip zero h = (omega arith, λ k. absurd (omega (arith, k)))
flip (suc zero) h = (omega arith, λ k. absurd (omega (arith, k)))
flip (suc (suc n)) h = absurd (omega arith)

side : (p n : ℕ) → (p < n) ⊎ (n ≤ p)
side p n = elim (Bool-cases (ltb p n)) [
  | inl low ↦ inl (ltb→lt p n low)
  | inr high ↦ inr (ground arith)
]

module _ (fnv1a : TraceEdge → ℕ) (s : EdgeHashSet) (v : IsValid fnv1a s) where
  abbrev flipped : ℕ
  flipped = bit_xor s.epoch 1

  abbrev extended : List TraceEdge
  extended = s.edges ++ replicate (s.edge_count * 2 % 2 ^ 64 - s.edge_count) edge_zero

  Has-extended : (x : TraceEdge) → Has extended x ↔ Has s.edges x
  Has-extended x = (
    λ held.
        let (l, same) = slot-extended s.edges _ held.0 held.1 in
        (held.0, rw same at held.1, rw same at held.2),
    λ held.
        let low = present-lt s.edges held.0 held.1 in
        let zeros = replicate (s.edge_count * 2 % 2 ^ 64 - s.edge_count) edge_zero in
        let same = get_or-append_left s.edges zeros held.0 edge_zero low in
        (held.0, rw same held.1, rw same held.2),
  )

  start-IsResizing :
      s.edge_count < 2 ^ 61
      → IsResizing fnv1a (s.edge_count * 2 % 2 ^ 64) flipped 0 s.edge_count extended
  start-IsResizing small = record {
    size =
        length-append s.edges _
        ∙ omega
            (arith, v.size, length-replicate (s.edge_count * 2 % 2 ^ 64 - s.edge_count) edge_zero);
    sites =
        λ p h. let (l, same) = slot-extended s.edges _ p h in rw same (v.sites p (rw same at h));
    distinct = λ p q h k e.
        let (l, same) = slot-extended s.edges _ p h in
        let (l', same') = slot-extended s.edges _ q k in
        IsValid-IsDistinct fnv1a s v p q (rw same at h) (rw same' at k) (rw (same, same') at e);
    way = λ p h k.
        let (l, same) = slot-extended s.edges _ p h in
        absurd
          ((flip s.epoch v.epoch_bit).1 (sym k ∙ ap edge_epoch same ∙ v.epochs p (rw same at h)));
    done = λ p outside h.
        let (l, same) = slot-extended s.edges _ p h in absurd (omega (arith, v.size));
  }

  -- The table after the rehash of all slots.
  end-IsValid :
      (edges : List TraceEdge)
      → s.edge_count < 2 ^ 61
      → IsResizing fnv1a (s.edge_count * 2 % 2 ^ 64) flipped s.edge_count s.edge_count edges
      → IsValid fnv1a (record s {
        edge_count = s.edge_count * 2 % 2 ^ 64;
        resize_threshold = threshold (s.edge_count * 2 % 2 ^ 64);
        edges = edges;
        epoch = flipped;
      })
  unfolding threshold
  end-IsValid edges small m =
      let settled : (p : ℕ)
          → edge_present (slot edges p) ≡ true
          → edge_epoch (slot edges p) ≡ flipped =
        λ p h. m.done p (side p s.edge_count) h in
      record {
        ready = v.ready;
        epoch_bit = (flip s.epoch v.epoch_bit).0;
        log2 = suc v.log2;
        count = omega (arith, v.count, pow-suc 2 v.log2);
        size = m.size;
        limit = refl;
        within = omega (arith, v.within, v.limit);
        sites = m.sites;
        epochs = settled;
        reached = λ p h. Way-Reaches flipped _ edges _ p (m.way p h (settled p h));
      }

  abbrev resized : List TraceEdge → EdgeHashSet
  resized edges = record s {
    edge_count = s.edge_count * 2 % 2 ^ 64;
    resize_threshold = threshold (s.edge_count * 2 % 2 ^ 64);
    edges = edges;
    epoch = flipped;
  }

  resized_room : s.edge_count < 2 ^ 61 → s.inserted_edges < (resized []).resize_threshold
  unfolding threshold
  resized_room small = omega (arith, v.within, v.limit, v.count, one-le-pow v.log2 2)

  pub increase_size-IsValid :
      s.edge_count < 2 ^ 61
      → ((increase_size fnv1a s ≡ err no_more_probes)
          × IsStuck fnv1a (s.edge_count * 2 % 2 ^ 64) (bit_xor s.epoch 1) s.edges)
        ⊎ Returns (increase_size fnv1a s) λ t.
          IsValid fnv1a t
          × (t.edge_count ≡ s.edge_count * 2)
          × (t.inserted_edges ≡ s.inserted_edges)
          × (t.inserted_edges < t.resize_threshold)
          × (t.epoch ≡ bit_xor s.epoch 1)
          × ((x : TraceEdge) → Has t.edges x ↔ Has s.edges x)
  unfolding increase_size
  increase_size-IsValid small = finish _ (
      resize_slots-Grows fnv1a (s.edge_count * 2 % 2 ^ 64) flipped (flip s.epoch v.epoch_bit).0
        (suc v.log2) (omega (arith, v.count, pow-suc 2 v.log2)) s.edge_count 0 s.edge_count extended
        (omega arith) (omega arith) (start-IsResizing small))
    where
      finish :
          (r : Result (List TraceEdge))
          → Grows fnv1a
              (s.edge_count * 2 % 2 ^ 64)
              flipped
              (IsResizing fnv1a (s.edge_count * 2 % 2 ^ 64) flipped s.edge_count s.edge_count)
              extended
              r
          → (((r >>= λ edges. ok (resized edges)) ≡ err no_more_probes)
              × IsStuck fnv1a (s.edge_count * 2 % 2 ^ 64) flipped s.edges)
            ⊎ Returns (r >>= λ edges. ok (resized edges)) λ t.
              IsValid fnv1a t
              × (t.edge_count ≡ s.edge_count * 2)
              × (t.inserted_edges ≡ s.inserted_edges)
              × (t.inserted_edges < t.resize_threshold)
              × (t.epoch ≡ bit_xor s.epoch 1)
              × ((x : TraceEdge) → Has t.edges x ↔ Has s.edges x)
      finish r (inl (f, (now, i, same, p, o, t))) = inl (
        rw f,
        (
          now,
          i,
          (λ x. (λ k. (Has-extended x).0 ((same x).0 k), λ k. (same x).1 ((Has-extended x).1 k))),
          p,
          o,
          t,
        ),
      )
      finish r (inr (edges, e, (m, same))) = inr (
        resized edges,
        rw e,
        (
          end-IsValid edges small m,
          omega arith,
          refl,
          resized_room small,
          refl,
          λ x. (λ k. (Has-extended x).0 ((same x).0 k), λ k. (same x).1 ((Has-extended x).1 k)),
        ),
      )
