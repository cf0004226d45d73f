-- ===== src/Tracing/HashSet/Refines.antt =====
-- `add_edge` in any valid table, against the abstract set of edges.
use bracelet.Prelude.{
  bit_xor, ◌%◌, ℕ, ◌<◌, ◌≤◌, ◌^◌, ◌+◌, ◌*◌, ◌≡◌, refl, sym, ◌∙◌, ◌⊎◌, ◌↔◌, inl, inr, Bool, true,
  List, ok, err, no_more_probes, Returns, arith, Bool-cases, leb, lt→ltb, ==_iff,
}
use bracelet.Tracing.HashSet.{
  TraceEdge, EdgeHashSet, edge_epoch, edge_equal, edge_set_epoch, slot, threshold, increase_size,
  make_room, add_edge,
}
use bracelet.Tracing.HashSet.Probe.{edge_equal_symm, edge_equal-set_epoch}
use bracelet.Tracing.HashSet.Insert.{Has, IsValid, IsFull, Adds, add_edge-Adds, add_edge_eq}
use bracelet.Tracing.HashSet.Slots.{IsStuck}
use bracelet.Tracing.HashSet.Growth.{increase_size-IsValid}

-- What `make_room` gives: a valid table with room and the same edges.
pub record HasRoom (fnv1a : TraceEdge → ℕ) (s t : EdgeHashSet) : Type 0 where
  pub valid : IsValid fnv1a t
  pub room : t.inserted_edges < t.resize_threshold
  pub same : (x : TraceEdge) → Has t.edges x ↔ Has s.edges x
  pub inserted : t.inserted_edges ≡ s.inserted_edges
  pub growth : (t.edge_count ≡ s.edge_count) ⊎ (t.edge_count ≤ 3 * s.inserted_edges + 2)

module _ (fnv1a : TraceEdge → ℕ) where
  make_room-HasRoom :
      (s : EdgeHashSet)
      → IsValid fnv1a s
      → s.edge_count < 2 ^ 61
      → ((make_room fnv1a s ≡ err no_more_probes)
          × (s.resize_threshold ≤ s.inserted_edges)
          × (increase_size fnv1a s ≡ err no_more_probes)
          × IsStuck fnv1a (s.edge_count * 2 % 2 ^ 64) (bit_xor s.epoch 1) s.edges)
        ⊎ Returns (make_room fnv1a s) (HasRoom fnv1a s)
  unfolding make_room
  make_room-HasRoom s v small = elim (Bool-cases (leb s.resize_threshold s.inserted_edges)) [
    | inr room ↦ inr (
      s,
      rw room,
      record {
        valid = v;
        room = ground arith;
        same = λ x. (λ k. k, λ k. k);
        inserted = refl;
        growth = inl refl;
      },
    )
    | inl full ↦ elim (increase_size-IsValid fnv1a s v small) [
      | inl (f, stuck) ↦ inl (rw (full, f), ground (arith, full), f, stuck)
      | inr (t, e, (valid, twice, kept, room, flipped, same)) ↦ inr (
        t,
        rw (full, e, lt→ltb _ _ room),
        record {
          valid = valid;
          room = room;
          same = same;
          inserted = kept;
          growth = inr (unfold threshold in ground (arith, v.limit));
        },
      )
    ]
  ]

  add_edge-make_room :
      (s t : EdgeHashSet) (e : TraceEdge)
      → IsValid fnv1a s
      → HasRoom fnv1a s t
      → make_room fnv1a s ≡ ok t
      → edge_epoch e ≡ 0
      → add_edge fnv1a e s ≡ add_edge fnv1a e t
  add_edge-make_room s t e v r m even =
      rw (add_edge_eq fnv1a t e r.valid.ready r.room even)
        (unfold add_edge in simp (v.ready, (==_iff (edge_epoch e) 0).1 even, m))

  -- What a whole addition gives: a valid table with the edge and what was held, and nothing else.
  pub record Added (s : EdgeHashSet) (e : TraceEdge) (r : Bool × EdgeHashSet) : Type 0 where
    pub valid : IsValid fnv1a r.1
    pub added : (r.0 ≡ true) ↔ (¬ Has s.edges e)
    pub inserted : r.1.inserted_edges ≤ s.inserted_edges + 1
    pub growth : (r.1.edge_count ≡ s.edge_count) ⊎ (r.1.edge_count ≤ 3 * s.inserted_edges + 2)
    pub holds : (x : TraceEdge) → Has r.1.edges x ↔ (Has s.edges x ⊎ (edge_equal e x ≡ true))

  Has-set_epoch :
      (edges : List TraceEdge) (e : TraceEdge) (epoch : ℕ)
      → epoch < 2
      → Has edges (edge_set_epoch e epoch) ↔ Has edges e
  Has-set_epoch edges e epoch b =
      let same : (x : TraceEdge) → edge_equal x (edge_set_epoch e epoch) ≡ edge_equal x e =
        λ x. edge_equal_symm x _ ∙ edge_equal-set_epoch e x epoch b ∙ edge_equal_symm e x in
      (
        λ h. (h.0, h.1, sym (same (slot edges h.0)) ∙ h.2),
        λ h. (h.0, h.1, same (slot edges h.0) ∙ h.2),
      )

  Adds-Added :
      (s t : EdgeHashSet) (e : TraceEdge) (r : Bool × EdgeHashSet)
      → HasRoom fnv1a s t
      → Adds fnv1a t (edge_set_epoch e t.epoch) r
      → Added s e r
  Adds-Added s t e r room a =
      let mark = Has-set_epoch t.edges e t.epoch room.valid.epoch_bit in
      record {
        valid = a.valid;
        added = (
          λ h k. (a.added).0 h (mark.1 ((room.same e).1 k)),
          λ n. (a.added).1 (λ k. n ((room.same e).0 (mark.0 k))),
        );
        inserted = omega (arith, a.inserted, room.inserted);
        growth = rw a.count_kept room.growth;
        holds = λ x. (
          λ h. elim ((a.holds x).0 h) [
            | inl k ↦ inl ((room.same x).0 k)
            | inr k ↦ inr (sym (edge_equal-set_epoch e x t.epoch room.valid.epoch_bit) ∙ k)
          ],
          λ h. (a.holds x).1 (elim h [
            | inl k ↦ inl ((room.same x).1 k)
            | inr k ↦ inr (edge_equal-set_epoch e x t.epoch room.valid.epoch_bit ∙ k)
          ]),
        );
      }

  -- The probes for an addition are used up: in a table that has reached its threshold, those of an edge
  -- that is moved when the table doubles; or, with room, those of the edge itself, by other edges.
  pub data IsExhausted (s : EdgeHashSet) (e : TraceEdge) : Type 0 where
    at_doubling :
        s.resize_threshold ≤ s.inserted_edges
        → increase_size fnv1a s ≡ err no_more_probes
        → IsStuck fnv1a (s.edge_count * 2 % 2 ^ 64) (bit_xor s.epoch 1) s.edges
        → IsExhausted s e
    at_insertion :
        (t : EdgeHashSet)
        → HasRoom fnv1a s t
        → IsFull fnv1a t (edge_set_epoch e t.epoch)
        → IsExhausted s e

  pub add_edge-Added :
      (s : EdgeHashSet) (e : TraceEdge)
      → IsValid fnv1a s
      → s.edge_count < 2 ^ 61
      → edge_epoch e ≡ 0
      → 1 < e.trace_site
      → ((add_edge fnv1a e s ≡ err no_more_probes) × IsExhausted s e)
        ⊎ Returns (add_edge fnv1a e s) (Added s e)
  add_edge-Added s e v small even site = elim (make_room-HasRoom s v small) [
    | inl (f, full, doubling, stuck) ↦ inl (
      unfold add_edge in simp (v.ready, (==_iff (edge_epoch e) 0).1 even, f),
      at_doubling full doubling stuck,
    )
    | inr (t, m, room) ↦
        rw (add_edge-make_room s t e v room m even)
          (elim (add_edge-Adds fnv1a t e room.valid room.room even site) [
            | inl (f, full) ↦ inl (f, at_insertion t room full)
            | inr (r, k, a) ↦ inr (r, k, Adds-Added s t e r room a)
          ])
  ]
