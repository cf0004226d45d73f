-- ===== src/Tracing/HashSet/Insert.antt =====
-- `add_edge` where the table has room: the set that the table stands for, and the table's invariant.
use native.Mathlib.Decide.{ℕ_discrete}
use bracelet.Prelude.{
  ◌≤◌, arith, ℕ, ◌+◌, ◌%◌, ◌^◌, ◌<◌, ◌≡◌, ◌≢◌, refl, sym, ap, ◌∙◌, ◌⊎◌, ◌↔◌, inl, inr, subst, Bool,
  true, false, List, [], ◌∷◌, Result, ok, err, no_more_probes, Returns, leb_lt, ==_iff, length, set,
  length-set, get_or-set_self, get_or-set_ne, Bool-cases,
}
use bracelet.Tracing.HashSet.{
  TraceEdge, EdgeHashSet, edge_zero, edge_present, edge_epoch, edge_equal, edge_set_epoch, slot,
  index_sequence, threshold, insert, make_room, add_edge,
}
use bracelet.Tracing.HashSet.Probe.{
  Blocked, AllBlocked, Reaches, Reaches-lt, Reaches-set, Reaches-apart, Blocked_apart, AllBelow,
  edge_equal_congr, index_sequence-equal, Reaches-congr, index_sequence-AllBelow, set_epoch_present,
  set_epoch_epoch, set_epoch_site,
}

-- The set holds an edge, up to the epoch bit.
abbrev pub Has : List TraceEdge → TraceEdge → Type 0
Has edges e = (p : ℕ) × (edge_present (slot edges p) ≡ true) × (edge_equal (slot edges p) e ≡ true)

-- How the loop of `add_edge` ends.
pub data Outcome (e : TraceEdge) (seq : List ℕ) (s : EdgeHashSet)
    : Result (Bool × EdgeHashSet) → Type 0 where
  full : AllBlocked seq s.edges e → Outcome e seq s (err no_more_probes)
  old :
      (p : ℕ)
      → edge_present (slot s.edges p) ≡ true
      → edge_equal (slot s.edges p) e ≡ true
      → Outcome e seq s (ok (false, s))
  fresh :
      (p : ℕ)
      → edge_present (slot s.edges p) ≡ false
      → Reaches seq s.edges e p
      → Outcome e seq s (
          ok (
            true,
            record s { inserted_edges = (s.inserted_edges + 1) % 2 ^ 64; edges = set s.edges p e },
          ))

later :
    (e : TraceEdge) (i : ℕ) (seq : List ℕ) (s : EdgeHashSet) {r : Result (Bool × EdgeHashSet)}
    → Blocked s.edges e i
    → Outcome e seq s r
    → Outcome e (i ∷ seq) s r
later e i seq s b (full a) = full (b, a)
later e i seq s b (old p h k) = old p h k
later e i seq s b (fresh p h r) = fresh p h (inr (b, r))

insert-Outcome : (e : TraceEdge) (seq : List ℕ) (s : EdgeHashSet) → Outcome e seq s (insert e seq s)
unfolding insert
insert-Outcome e [] s = full tt
insert-Outcome e (i ∷ seq) s = elim (Bool-cases (edge_present (slot s.edges i))) [
  | inr empty ↦ rw empty (fresh i empty (inl refl))
  | inl taken ↦ elim (Bool-cases (edge_equal (slot s.edges i) e)) [
    | inl same ↦ rw (taken, same) (old i taken same)
    | inr other ↦ rw (taken, other) (later e i seq s (taken, other) (insert-Outcome e seq s))
  ]
]

module _ (edges : List TraceEdge) (e : TraceEdge) (p : ℕ)
    (empty : edge_present (slot edges p) ≡ false) (room : p < length edges)
    (present : edge_present e ≡ true) where
  slot-set_ne : (q : ℕ) → edge_present (slot edges q) ≡ true → slot (set edges p e) q ≡ slot edges q
  slot-set_ne q h =
      get_or-set_ne edges p q e edge_zero
        (λ k. cc (ap (λ j. edge_present (slot edges j)) k, h, empty))

  Has-set : (x : TraceEdge) → Has (set edges p e) x ↔ (Has edges x ⊎ (edge_equal e x ≡ true))
  Has-set x = (forth, back)
    where
      self : slot (set edges p e) p ≡ e
      self = get_or-set_self edges p e edge_zero room

      forth : Has (set edges p e) x → Has edges x ⊎ (edge_equal e x ≡ true)
      forth (q, h, k) = elim (ℕ_discrete p q) [
        | yes same ↦ inr (ap (λ a. edge_equal a x) (sym self ∙ ap (slot (set edges p e)) same) ∙ k)
        | no other ↦
            let keep = get_or-set_ne edges p q e edge_zero other in
            inl (q, rw keep at h, rw keep at k)
      ]

      back : Has edges x ⊎ (edge_equal e x ≡ true) → Has (set edges p e) x
      back (inl (q, h, k)) = (q, rw (slot-set_ne q h) h, rw (slot-set_ne q h) k)
      back (inr k) = (p, rw self present, rw self k)

-- The table is a power of two of slots, and not filled above its threshold; the edges in it carry the
-- current epoch and more than that bit of a site, and the sequence of each comes to its slot over
-- other edges only.
pub record IsValid (fnv1a : TraceEdge → ℕ) (s : EdgeHashSet) : Type 0 where
  pub ready : s.is_ready ≡ true
  pub epoch_bit : s.epoch < 2
  pub log2 : ℕ
  pub count : s.edge_count ≡ 2 ^ log2
  pub size : length s.edges ≡ s.edge_count
  pub limit : s.resize_threshold ≡ threshold s.edge_count
  pub within : s.inserted_edges ≤ s.resize_threshold
  pub sites : (p : ℕ) → edge_present (slot s.edges p) ≡ true → 1 < (slot s.edges p).trace_site
  pub epochs :
      (p : ℕ) → edge_present (slot s.edges p) ≡ true → edge_epoch (slot s.edges p) ≡ s.epoch
  pub reached :
      (p : ℕ)
      → edge_present (slot s.edges p) ≡ true
      → Reaches (index_sequence fnv1a s.edge_count (slot s.edges p)) s.edges (slot s.edges p) p

fresh-IsValid :
    (fnv1a : TraceEdge → ℕ) (s : EdgeHashSet) (e : TraceEdge) (p n : ℕ)
    → IsValid fnv1a s
    → n ≤ s.resize_threshold
    → edge_present e ≡ true
    → edge_epoch e ≡ s.epoch
    → 1 < e.trace_site
    → edge_present (slot s.edges p) ≡ false
    → p < length s.edges
    → Reaches (index_sequence fnv1a s.edge_count e) s.edges e p
    → IsValid fnv1a (record s { inserted_edges = n; edges = set s.edges p e })
fresh-IsValid fnv1a s e p n v fits present epoch site empty room r = record {
  ready = v.ready;
  epoch_bit = v.epoch_bit;
  log2 = v.log2;
  count = v.count;
  size = length-set s.edges p e ∙ v.size;
  limit = v.limit;
  within = fits;
  sites = λ q h. elim (ℕ_discrete p q) [
    | yes same ↦ rw (at_p q same) site
    | no other ↦ let keep = kept q other in rw keep (v.sites q (rw keep at h))
  ];
  epochs = λ q h. elim (ℕ_discrete p q) [
    | yes same ↦ ap edge_epoch (at_p q same) ∙ epoch
    | no other ↦ let keep = kept q other in ap edge_epoch keep ∙ v.epochs q (rw keep at h)
  ];
  reached = λ q h. elim (ℕ_discrete p q) [
    | yes same ↦
        rw (at_p q same) (subst (Reaches _ _ e) same (Reaches-set _ s.edges e e p p empty r))
    | no other ↦
        let keep = kept q other in
        rw keep (Reaches-set _ s.edges _ e p q empty (v.reached q (rw keep at h)))
  ];
}
  where
    kept : (q : ℕ) → p ≢ q → slot (set s.edges p e) q ≡ slot s.edges q
    kept q other = get_or-set_ne s.edges p q e edge_zero other

    at_p : (q : ℕ) → p ≡ q → slot (set s.edges p e) q ≡ e
    at_p q same =
        ap (slot (set s.edges p e)) (sym same) ∙ get_or-set_self s.edges p e edge_zero room

-- What an addition that ends gives: a valid table, `true` exactly where the edge was not held, and
-- the set with the edge in it.
pub record Adds (fnv1a : TraceEdge → ℕ) (s : EdgeHashSet) (e : TraceEdge) (r : Bool × EdgeHashSet)
    : Type 0 where
  pub valid : IsValid fnv1a r.1
  pub added : (r.0 ≡ true) ↔ (¬ Has s.edges e)
  pub count_kept : r.1.edge_count ≡ s.edge_count
  pub inserted : r.1.inserted_edges ≤ s.inserted_edges + 1
  pub holds : (x : TraceEdge) → Has r.1.edges x ↔ (Has s.edges x ⊎ (edge_equal e x ≡ true))

-- The edge that a valid table holds lies on the sequence of every edge that equals it.
IsValid-way :
    (fnv1a : TraceEdge → ℕ) (s : EdgeHashSet) (e : TraceEdge) (q : ℕ)
    → IsValid fnv1a s
    → edge_present (slot s.edges q) ≡ true
    → edge_equal (slot s.edges q) e ≡ true
    → Reaches (index_sequence fnv1a s.edge_count e) s.edges e q
IsValid-way fnv1a s e q v h k =
    rw (← index_sequence-equal fnv1a s.edge_count (slot s.edges q) e k)
      (Reaches-congr _ s.edges (slot s.edges q) e q k (v.reached q h))

-- The probes are used up by other edges, and the edge is not held.
abbrev pub IsFull : (TraceEdge → ℕ) → EdgeHashSet → TraceEdge → Type 0
IsFull fnv1a s e = AllBlocked (index_sequence fnv1a s.edge_count e) s.edges e × (¬ Has s.edges e)

Outcome-Adds :
    (fnv1a : TraceEdge → ℕ) (s : EdgeHashSet) (e : TraceEdge) (r : Result (Bool × EdgeHashSet))
    → IsValid fnv1a s
    → s.inserted_edges < s.resize_threshold
    → edge_present e ≡ true
    → edge_epoch e ≡ s.epoch
    → 1 < e.trace_site
    → AllBelow (length s.edges) (index_sequence fnv1a s.edge_count e)
    → Outcome e (index_sequence fnv1a s.edge_count e) s r
    → ((r ≡ err no_more_probes) × IsFull fnv1a s e) ⊎ Returns r (Adds fnv1a s e)
Outcome-Adds fnv1a s e r v free present epoch site low (full b) = inl (
  refl,
  (
    b,
    λ held.
        Blocked_apart _ s.edges e held.0 held.2 b (IsValid-way fnv1a s e held.0 v held.1 held.2),
  ),
)
Outcome-Adds fnv1a s e r v free present epoch site low (old p h k) = inr (
  (false, s),
  refl,
  record {
    valid = v;
    added = (λ c. cc c, λ no_edge. absurd (no_edge (p, h, k)));
    count_kept = refl;
    inserted = omega arith;
    holds = λ x. (
      inl,
      λ c. elim c [ inl m ↦ m | inr m ↦ (p, h, sym (edge_equal_congr e x (slot s.edges p) m) ∙ k) ],
    );
  },
)
Outcome-Adds fnv1a s e r v free present epoch site low (fresh p empty way) =
    let room = Reaches-lt _ s.edges e p (length s.edges) low way in
    inr (
      _,
      refl,
      record {
        valid = fresh-IsValid fnv1a s e p _ v (omega arith) present epoch site empty room way;
        added = (
          λ _ held.
              Reaches-apart _ s.edges e p held.0 empty held.1 held.2 way
                (IsValid-way fnv1a s e held.0 v held.1 held.2),
          λ _. refl,
        );
        count_kept = refl;
        inserted = omega arith;
        holds = Has-set s.edges e p empty room present;
      },
    )

make_room_eq :
    (fnv1a : TraceEdge → ℕ) (s : EdgeHashSet)
    → s.inserted_edges < s.resize_threshold
    → make_room fnv1a s ≡ ok s
unfolding make_room
make_room_eq fnv1a s h = simp (leb_lt s.resize_threshold s.inserted_edges h)

pub add_edge_eq :
    (fnv1a : TraceEdge → ℕ) (s : EdgeHashSet) (e : TraceEdge)
    → s.is_ready ≡ true
    → s.inserted_edges < s.resize_threshold
    → edge_epoch e ≡ 0
    → let e' = edge_set_epoch e s.epoch in
      add_edge fnv1a e s ≡ insert e' (index_sequence fnv1a s.edge_count e') s
unfolding add_edge
add_edge_eq fnv1a s e ready room even =
    simp (ready, (==_iff (edge_epoch e) 0).1 even, make_room_eq fnv1a s room)

-- In a valid table below its threshold, adding an edge whose site is not null and has a free lowest
-- bit either ends in a valid table that holds the edge and what was held, and nothing else, and says
-- `true` exactly if the edge was not held; or it fails the assertion on the number of probes, and then
-- every slot probed holds another edge and the edge is not held. The hash is any function.
pub add_edge-Adds :
    (fnv1a : TraceEdge → ℕ) (s : EdgeHashSet) (e : TraceEdge)
    → IsValid fnv1a s
    → s.inserted_edges < s.resize_threshold
    → edge_epoch e ≡ 0
    → 1 < e.trace_site
    → let e' = edge_set_epoch e s.epoch in
      ((add_edge fnv1a e s ≡ err no_more_probes) × IsFull fnv1a s e')
      ⊎ Returns (add_edge fnv1a e s) (Adds fnv1a s e')
add_edge-Adds fnv1a s e v room even site =
    let e' = edge_set_epoch e s.epoch in
    let low : AllBelow (length s.edges) (index_sequence fnv1a s.edge_count e') =
      index_sequence-AllBelow fnv1a v.log2 (length s.edges) s.edge_count e' v.count v.size in
    let step =
      Outcome-Adds fnv1a s e' _ v room (set_epoch_present e s.epoch v.epoch_bit site)
        (set_epoch_epoch e s.epoch v.epoch_bit) (set_epoch_site e s.epoch v.epoch_bit site) low
        (insert-Outcome e' _ s) in
    rw (add_edge_eq fnv1a s e v.ready room even) step
