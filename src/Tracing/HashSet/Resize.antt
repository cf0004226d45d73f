-- ===== src/Tracing/HashSet/Resize.antt =====
-- One call of `resize_insert`: it settles an edge or finds the slot settled.
use native.Mathlib.Decide.{ℕ_discrete}
use bracelet.Prelude.{
  ℕ, zero, suc, ◌<◌, ◌≤◌, ◌^◌, ◌+◌, ◌*◌, ◌/◌, ◌≡◌, ◌≢◌, refl, sym, ap, ◌∙◌, inl, inr, Bool, true,
  false, not, ◌&&◌, List, [], ◌∷◌, Result, ok, err, no_more_probes, arith, length, set, length-set,
  get_or-set_self, get_or-set_ne, ◌==◌, ==_iff, ==_refl, ==_ne, if◌then◌else◌, Bool-cases,
}
use bracelet.Prelude.Bits.{bit_or_fields}
use bracelet.Tracing.HashSet.{
  TraceEdge, edge_zero, edge_present, edge_epoch, edge_equal, edge_set_epoch, slot, index_sequence,
  resize_insert,
}
use bracelet.Tracing.HashSet.Probe.{
  AllBelow, edge_equal-set_epoch, set_epoch_present, set_epoch_epoch,
}
use bracelet.Tracing.HashSet.Settled.{
  AllTaken, Way, Way-kept, Way-lt, Moved, full, stay, swap, settle, rehash-Moved,
}
use bracelet.Tracing.HashSet.Places.{IsDistinct, Places, edge_equal_refl}

-- How many slots hold an edge of another epoch.
abbrev pub weight : ℕ → TraceEdge → ℕ
weight epoch e = if edge_present e && not (edge_epoch e == epoch) then 1 else 0

abbrev pub unsettled : ℕ → List TraceEdge → ℕ
unsettled epoch [] = 0
unsettled epoch (e ∷ edges) = weight epoch e + unsettled epoch edges

unsettled-set :
    (epoch : ℕ) (edges : List TraceEdge) (i : ℕ) (e : TraceEdge)
    → i < length edges
    → unsettled epoch (set edges i e) + weight epoch (slot edges i)
      ≡ unsettled epoch edges + weight epoch e
unsettled-set epoch [] i e h = absurd (omega arith)
unsettled-set epoch (x ∷ edges) zero e h = omega arith
unsettled-set epoch (x ∷ edges) (suc i) e h =
    omega (arith, unsettled-set epoch edges i e (omega arith))

pub unsettled-le-length :
    (epoch : ℕ) (edges : List TraceEdge) → unsettled epoch edges ≤ length edges
unsettled-le-length epoch [] = omega arith
unsettled-le-length epoch (x ∷ edges) = ground (arith, unsettled-le-length epoch edges)

weight_old :
    (epoch : ℕ) (e : TraceEdge) → edge_present e ≡ true → edge_epoch e ≢ epoch → weight epoch e ≡ 1
weight_old epoch e h k = rw (h, ==_ne _ _ k)

weight_settled : (epoch : ℕ) (e : TraceEdge) → edge_epoch e ≡ epoch → weight epoch e ≡ 0
weight_settled epoch e h = rw h (ground (arith, ==_refl epoch))

set_epoch_again :
    (e : TraceEdge) (epoch : ℕ)
    → epoch < 2
    → edge_set_epoch (edge_set_epoch e epoch) epoch ≡ edge_set_epoch e epoch
unfolding edge_set_epoch
set_epoch_again e epoch h =
    let site = bit_or_fields 1 (e.trace_site / 2) epoch h in
    let half : (e.trace_site / 2 * 2 ^ 1 + epoch) / 2 ≡ e.trace_site / 2 = omega arith in
    rw (site, half) (rw site)

module _ (fnv1a : TraceEdge → ℕ) (epoch : ℕ) (binary : epoch < 2) where
  -- What a call does to slot `i`.
  pub data Call (count : ℕ) (i : ℕ) (edges : List TraceEdge)
      : Result (Bool × List TraceEdge) → Type 0 where
    failed :
        edge_present (slot edges i) ≡ true
        → edge_epoch (slot edges i) ≢ epoch
        → AllTaken epoch
            (index_sequence fnv1a count (edge_set_epoch (slot edges i) epoch))
            (set edges i (edge_set_epoch (slot edges i) epoch))
            (edge_set_epoch (slot edges i) epoch)
        → Call count i edges (err no_more_probes)
    idle :
        (edge_present (slot edges i) ≡ true → edge_epoch (slot edges i) ≡ epoch)
        → Call count i edges (ok (false, edges))
    ended :
        (j : ℕ) (edges' : List TraceEdge)
        → Places epoch
            (index_sequence fnv1a count (edge_set_epoch (slot edges i) epoch))
            edges
            edges'
            (edge_set_epoch (slot edges i) epoch)
            i
            j
        → (edge_present (slot edges' i) ≡ true → edge_epoch (slot edges' i) ≡ epoch)
        → Call count i edges (ok (false, edges'))
    swapped :
        (j : ℕ) (edges' : List TraceEdge)
        → Places epoch
            (index_sequence fnv1a count (edge_set_epoch (slot edges i) epoch))
            edges
            edges'
            (edge_set_epoch (slot edges i) epoch)
            i
            j
        → unsettled epoch edges' < unsettled epoch edges
        → Call count i edges (ok (true, edges'))

  module _ (count : ℕ) (i : ℕ) (edges : List TraceEdge)
      (below : AllBelow
        (length edges)
        (index_sequence fnv1a count (edge_set_epoch (slot edges i) epoch)))
      (distinct : IsDistinct edges) (present : edge_present (slot edges i) ≡ true)
      (old : edge_epoch (slot edges i) ≢ epoch) (site : 1 < (slot edges i).trace_site)
      (room : i < length edges) where
    abbrev now : TraceEdge
    now = edge_set_epoch (slot edges i) epoch

    abbrev marked : List TraceEdge
    marked = set edges i now

    slot-marked : slot marked i ≡ now
    slot-marked = get_or-set_self edges i now edge_zero room

    now_equal : edge_equal now (slot edges i) ≡ true
    now_equal = edge_equal-set_epoch (slot edges i) (slot edges i) epoch binary ∙ edge_equal_refl _

    now_present : edge_present now ≡ true
    now_present = set_epoch_present (slot edges i) epoch binary site

    now_epoch : edge_epoch now ≡ epoch
    now_epoch = set_epoch_epoch (slot edges i) epoch binary

    marked_ne : (q : ℕ) → i ≢ q → slot marked q ≡ slot edges q
    marked_ne q h = get_or-set_ne edges i q now edge_zero h

    -- A write to a slot that is not on the way leaves the way.
    Way-after :
        (edges' : List TraceEdge) (j : ℕ)
        → ((q : ℕ) → i ≢ q → j ≢ q → slot edges' q ≡ slot edges q)
        → (edge_present (slot marked j) ≡ true → edge_epoch (slot marked j) ≢ epoch)
        → Way epoch (index_sequence fnv1a count now) marked now j
        → Way epoch (index_sequence fnv1a count now) edges' now j
    Way-after edges' j kept target w =
        Way-kept epoch _ marked edges' now j
          (λ q a b c.
            let off : i ≢ q = λ h.
              cc
                (ap (λ r. edge_equal (slot marked r) now) h, slot-marked, c, edge_equal_refl now) in
            let other : j ≢ q = λ h.
              target (ap (λ r. edge_present (slot marked r)) h ∙ a)
                (ap (λ r. edge_epoch (slot marked r)) h ∙ b) in
            kept q off other ∙ sym (marked_ne q off))
          w

    Call-stay :
        (j : ℕ)
        → edge_present (slot marked j) ≡ true
        → edge_equal now (slot marked j) ≡ true
        → Way epoch (index_sequence fnv1a count now) marked now j
        → Call count i edges (ok (false, marked))
    Call-stay j p same w = elim (ℕ_discrete i j) [
      | no off ↦
          let there = marked_ne j off in
          let equal : edge_equal (slot edges i) (slot edges j) ≡ true =
            unfold edge_equal in ground (arith, now_equal, same, there) in
          absurd (off (distinct i j present (rw there at p) equal))
      | yes here ↦
          ended i marked
            (record {
              size = length-set edges i now;
              source = present;
              equal = now_equal;
              present = now_present;
              settled = now_epoch;
              landed = slot-marked;
              back = λ h. absurd (h refl);
              forth = λ h. absurd (h refl);
              kept = λ q h k. marked_ne q h;
              old_source = old;
              old_target = λ h. old;
              way = rw (← here) at w;
            })
            (λ h. ap edge_epoch slot-marked ∙ now_epoch)
    ]

    Call-swap :
        (j : ℕ)
        → edge_present (slot marked j) ≡ true
        → edge_epoch (slot marked j) ≢ epoch
        → Way epoch (index_sequence fnv1a count now) marked now j
        → Call count i edges (ok (true, set (set marked i (slot marked j)) j now))
    Call-swap j p other w =
        let off : i ≢ j = λ h.
          other (
            ap (λ r. edge_epoch (slot marked r)) (sym h) ∙ ap edge_epoch slot-marked ∙ now_epoch) in
        let there = marked_ne j off in
        let swapped_in = set marked i (slot marked j) in
        let len = length-set edges i now in
        let len' : length swapped_in ≡ length edges = length-set marked i (slot marked j) ∙ len in
        let low : j < length edges = Way-lt epoch _ marked now j (length edges) below w in
        let source_in : slot (set swapped_in j now) i ≡ slot marked j =
          get_or-set_ne swapped_in j i now edge_zero (λ h. off (sym h))
          ∙ get_or-set_self marked i (slot marked j) edge_zero (omega (arith, len)) in
        let kept : (q : ℕ) → i ≢ q → j ≢ q → slot (set swapped_in j now) q ≡ slot edges q = λ q h k.
          get_or-set_ne swapped_in j q now edge_zero k
          ∙ get_or-set_ne marked i q (slot marked j) edge_zero h
          ∙ marked_ne q h in
        swapped j (set swapped_in j now)
          (record {
            size = length-set swapped_in j now ∙ len';
            source = present;
            equal = now_equal;
            present = now_present;
            settled = now_epoch;
            landed = get_or-set_self swapped_in j now edge_zero (omega (arith, len'));
            back = λ h k. source_in ∙ there;
            forth = λ h k. (sym (ap edge_present there) ∙ p, source_in ∙ there);
            kept = kept;
            old_source = old;
            old_target = λ h. rw there at other;
            way = Way-after _ j kept (λ h. other) w;
          })
          (omega (
            arith,
            unsettled-set epoch edges i now room,
            unsettled-set epoch marked i (slot marked j) (omega (arith, len)),
            unsettled-set epoch swapped_in j now (omega (arith, len')),
            weight_old epoch (slot edges i) present old,
            weight_old epoch (slot marked j) p other,
            weight_settled epoch now now_epoch,
            ap (weight epoch) slot-marked,
            ap (weight epoch) (get_or-set_ne marked i j (slot marked j) edge_zero off),
          ))

    Call-settle :
        (j : ℕ)
        → edge_present (slot marked j) ≡ false
        → Way epoch (index_sequence fnv1a count now) marked now j
        → Call count i edges (ok (false, set (set marked j (edge_set_epoch now epoch)) i edge_zero))
    Call-settle j empty w =
        let off : i ≢ j = λ h. cc (
          ap (λ r. edge_present (slot marked r)) h,
          ap edge_present slot-marked,
          now_present,
          empty,
        ) in
        let filled = set marked j (edge_set_epoch now epoch) in
        let len = length-set edges i now in
        let len' : length filled ≡ length edges =
          length-set marked j (edge_set_epoch now epoch) ∙ len in
        let low : j < length edges = Way-lt epoch _ marked now j (length edges) below w in
        let cleared : slot (set filled i edge_zero) i ≡ edge_zero =
          get_or-set_self filled i edge_zero edge_zero (omega (arith, len')) in
        let gone : edge_present (slot (set filled i edge_zero) i) ≡ false =
          ap edge_present cleared ∙ (unfold edge_present in refl) in
        let kept : (q : ℕ) → i ≢ q → j ≢ q → slot (set filled i edge_zero) q ≡ slot edges q =
          λ q h k.
            get_or-set_ne filled i q edge_zero edge_zero h
            ∙ get_or-set_ne marked j q (edge_set_epoch now epoch) edge_zero k
            ∙ marked_ne q h in
        let vacant = ap edge_present (marked_ne j off) in
        ended j (set filled i edge_zero)
          (record {
            size = length-set filled i edge_zero ∙ len';
            source = present;
            equal = now_equal;
            present = now_present;
            settled = now_epoch;
            landed =
                get_or-set_ne filled i j edge_zero edge_zero off
                ∙ get_or-set_self marked j (edge_set_epoch now epoch) edge_zero (omega (arith, len))
                ∙ set_epoch_again (slot edges i) epoch binary;
            back = λ h k. absurd (cc (k, vacant, empty));
            forth = λ h k. absurd (cc (k, gone));
            kept = kept;
            old_source = old;
            old_target = λ h. absurd (cc (h, vacant, empty));
            way = Way-after _ j kept (λ h. absurd (cc (h, empty))) w;
          })
          (λ h. absurd (cc (h, gone)))

  Moved-Call :
      (count i : ℕ) (edges : List TraceEdge)
      → AllBelow (length edges) (index_sequence fnv1a count (edge_set_epoch (slot edges i) epoch))
      → IsDistinct edges
      → edge_present (slot edges i) ≡ true
      → edge_epoch (slot edges i) ≢ epoch
      → 1 < (slot edges i).trace_site
      → i < length edges
      → let e = edge_set_epoch (slot edges i) epoch in
        (r : Result (Bool × List TraceEdge))
        → Moved epoch e i (index_sequence fnv1a count e) (set edges i e) r
        → Call count i edges r
  Moved-Call count i edges b d p o s l r (full t) = failed p o t
  Moved-Call count i edges b d p o s l r (stay j a c w) =
      Call-stay count i edges b d p o s l j a c w
  Moved-Call count i edges b d p o s l r (swap j a c w) =
      Call-swap count i edges b d p o s l j a c w
  Moved-Call count i edges b d p o s l r (settle j a w) =
      Call-settle count i edges b d p o s l j a w

  pub resize_insert-Call :
      (count i : ℕ) (edges : List TraceEdge)
      → AllBelow (length edges) (index_sequence fnv1a count (edge_set_epoch (slot edges i) epoch))
      → IsDistinct edges
      → (edge_present (slot edges i) ≡ true → 1 < (slot edges i).trace_site)
      → i < length edges
      → Call count i edges (resize_insert fnv1a count epoch i edges)
  unfolding resize_insert
  resize_insert-Call count i edges b d s l = elim (Bool-cases (edge_present (slot edges i))) [
    | inr empty ↦ rw empty (idle (λ h. absurd (cc (h, empty))))
    | inl present ↦ elim (Bool-cases (edge_epoch (slot edges i) == epoch)) [
      | inl settled ↦ rw (present, settled) (idle (λ h. (==_iff _ _).0 settled))
      | inr old ↦
          let e = edge_set_epoch (slot edges i) epoch in
          rw (present, old)
            (Moved-Call count i edges b d present
              (λ h. cc ((==_iff (edge_epoch (slot edges i)) epoch).1 h, old)) (s present) l _
              (rehash-Moved epoch e i (index_sequence fnv1a count e) (set edges i e)
                (get_or-set_self edges i e edge_zero l)))
    ]
  ]
