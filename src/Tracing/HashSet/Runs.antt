-- ===== src/Tracing/HashSet/Runs.antt =====
-- Runs of `add_edge` against the abstract set of edges.
use bracelet.Prelude.{
  ℕ, ◌<◌, ◌^◌, ◌+◌, ◌*◌, ◌≡◌, refl, ap, ◌∙◌, ◌⊎◌, ◌↔◌, inl, inr, Bool, true, List, [], ◌∷◌, Result,
  ok, err, no_more_probes, ◌>>=◌, Returns, arith, length, replicate, length-replicate,
}
use bracelet.Tracing.HashSet.{
  TraceEdge, EdgeHashSet, edge_zero, edge_present, edge_epoch, edge_equal, slot, empty_table,
  add_edge,
}
use bracelet.Tracing.HashSet.Insert.{Has, IsValid}
use bracelet.Tracing.HashSet.Vacant.{slot-replicate, absent}
use bracelet.Tracing.HashSet.Refines.{Added, IsExhausted, add_edge-Added}

-- The edges that were added, as the abstract set: it holds what equals one of them.
abbrev pub Contains : List TraceEdge → TraceEdge → Type 0
Contains [] x = ⊥
Contains (e ∷ es) x = (edge_equal e x ≡ true) ⊎ Contains es x

module _ (fnv1a : TraceEdge → ℕ) where
  -- A run of additions.
  unfoldable pub add_edges : List TraceEdge → EdgeHashSet → Result EdgeHashSet
  add_edges [] s = ok s
  add_edges (e ∷ es) s = add_edge fnv1a e s >>= λ r. add_edges es r.1

  abbrev pub AreSites : List TraceEdge → Type 0
  AreSites [] = Unit {0}
  AreSites (e ∷ es) = (edge_epoch e ≡ 0) × (1 < e.trace_site) × AreSites es

  -- One of the additions of a run comes to a table in which its probes are used up, and those before it
  -- succeed.
  abbrev pub RunExhausts : List TraceEdge → EdgeHashSet → Type 0
  RunExhausts [] s = ⊥
  RunExhausts (e ∷ es) s =
      IsExhausted fnv1a s e ⊎ Returns (add_edge fnv1a e s) (λ r. RunExhausts es r.1)

  run_step :
      (s : EdgeHashSet) (e : TraceEdge) (es : List TraceEdge) (r : Result (Bool × EdgeHashSet))
      → add_edge fnv1a e s ≡ r
      → ((r ≡ err no_more_probes) × IsExhausted fnv1a s e) ⊎ Returns r (Added fnv1a s e)
      → ((t : EdgeHashSet) (b : Bool)
          → Added fnv1a s e (b, t)
          → ((add_edges es t ≡ err no_more_probes) × RunExhausts es t)
            ⊎ Returns (add_edges es t) λ u.
              IsValid fnv1a u × ((x : TraceEdge) → Has u.edges x ↔ (Has t.edges x ⊎ Contains es x)))
      → (((r >>= λ q. add_edges es q.1) ≡ err no_more_probes) × RunExhausts (e ∷ es) s)
        ⊎ Returns (r >>= λ q. add_edges es q.1) λ u.
          IsValid fnv1a u
          × ((x : TraceEdge) → Has u.edges x ↔ (Has s.edges x ⊎ Contains (e ∷ es) x))
  run_step s e es r run (inl (f, why)) ih = inl (rw f, inl why)
  run_step s e es r run (inr ((b, t), k, a)) ih = elim (ih t b a) [
    | inl (f, why) ↦ inl (rw k f, inr ((b, t), run ∙ k, why))
    | inr (u, m, (valid, holds)) ↦ inr (
      u,
      rw k m,
      (
        valid,
        λ x. (
          λ h. elim ((holds x).0 h) [
            | inr c ↦ inr (inr c)
            | inl c ↦ elim ((a.holds x).0 c) [ inl o ↦ inl o | inr o ↦ inr (inl o) ]
          ],
          λ h. (holds x).1 (elim h [
            | inl o ↦ inl ((a.holds x).1 (inl o))
            | inr c ↦ elim c [ inl o ↦ inl ((a.holds x).1 (inr o)) | inr o ↦ inr o ]
          ]),
        ),
      ),
    )
  ]

  -- The table has fewer than 2^61 slots as long as few edges are added.
  abbrev pub IsSmall : ℕ → EdgeHashSet → Type 0
  IsSmall n s = (s.edge_count < 2 ^ 61) × (3 * (s.inserted_edges + n) + 2 < 2 ^ 61)

  pub add_edges-Has :
      (es : List TraceEdge) (s : EdgeHashSet)
      → IsValid fnv1a s
      → IsSmall (length es) s
      → AreSites es
      → ((add_edges es s ≡ err no_more_probes) × RunExhausts es s)
        ⊎ Returns (add_edges es s) λ t.
          IsValid fnv1a t × ((x : TraceEdge) → Has t.edges x ↔ (Has s.edges x ⊎ Contains es x))
  unfolding add_edges
  add_edges-Has [] s v small sites =
      inr (s, refl, (v, λ x. (λ k. inl k, λ k. elim k [ inl m ↦ m | inr m ↦ absurd m ])))
  add_edges-Has (e ∷ es) s v small sites =
      run_step s e es _ refl (add_edge-Added fnv1a s e v small.0 sites.0 sites.1)
        (λ t b a. add_edges-Has es t a.valid (omega (arith, a.growth, a.inserted)) sites.2)

  pub empty_table-IsValid : (k : ℕ) → IsValid fnv1a (empty_table (2 ^ k))
  unfolding empty_table
  empty_table-IsValid k =
      let vacant : (p : ℕ) → ¬ (edge_present (slot (replicate (2 ^ k) edge_zero) p) ≡ true) =
        λ p h. cc (ap edge_present (slot-replicate (2 ^ k) p), absent, h) in
      record {
        ready = refl;
        epoch_bit = omega arith;
        log2 = k;
        count = refl;
        size = length-replicate (2 ^ k) edge_zero;
        limit = refl;
        within = omega arith;
        sites = λ p h. absurd (vacant p h);
        epochs = λ p h. absurd (vacant p h);
        reached = λ p h. absurd (vacant p h);
      }
