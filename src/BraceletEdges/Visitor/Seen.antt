-- ===== src/BraceletEdges/Visitor/Seen.antt =====
-- `emitNodeInfo` of bracelet-edges.cpp: what is emitted for a node leaves the set of seen nodes.
use bracelet.Prelude.{
  ℕ, ◌≡◌, refl, sym, ap, ◌∙◌, Option, none, some, Result, ok, err, ◌>>=◌, arith, Result-cases,
  Option-cases, inl, inr,
}
use bracelet.Edges.Node.{Node, local_idx}
use bracelet.Edges.Strings.{local_name}
use bracelet.BraceletEdges.Locations.{SourceLocation, SourceLocationMap, position_of}
use bracelet.BraceletEdges.Visitor.{
  Facts, PrintingOptions, EdgeOutputVisitor, emit_kind, emit_debug, star_rows, final_stars,
  emit_stars, print_addresses, emit_addresses, emit_own,
}

pub same :
    (v v' : EdgeOutputVisitor)
    → ◌≡◌ {A = Result EdgeOutputVisitor} (ok v) (ok v')
    → v'.seen_nodes ≡ v.seen_nodes
same v v' h = let e : v ≡ v' = cc h in ap (λ (z : EdgeOutputVisitor). z.seen_nodes) (sym e)

module _ (facts : Facts) (options : PrintingOptions) where
  -- The run keeps the set of nodes, if it succeeds.
  abbrev pub KeepsSeen : EdgeOutputVisitor → Result EdgeOutputVisitor → Type 0
  KeepsSeen v r = (v' : EdgeOutputVisitor) → r ≡ ok v' → v'.seen_nodes ≡ v.seen_nodes

  emit_kind-KeepsSeen :
      (n : Node) (v : EdgeOutputVisitor) → KeepsSeen v (emit_kind facts options n v)
  unfolding emit_kind
  emit_kind-KeepsSeen n v v' h = ground arith

  emit_debug-KeepsSeen :
      (n : Node) (v : EdgeOutputVisitor) → KeepsSeen v (emit_debug facts options n v)
  unfolding emit_debug
  emit_debug-KeepsSeen n v v' h = ground arith

  star_rows-KeepsSeen :
      (count : ℕ) (n : Node) (v : EdgeOutputVisitor)
      → KeepsSeen v (star_rows facts options count n v)
  unfolding star_rows
  star_rows-KeepsSeen count n v v' h = ground arith

  print_addresses-KeepsSeen :
      (n : Node) (slm : SourceLocationMap) (position : Option SourceLocation)
      (v : EdgeOutputVisitor)
      → KeepsSeen v (print_addresses facts options n slm position v)
  unfolding print_addresses
  print_addresses-KeepsSeen n slm none v v' h = ground arith
  print_addresses-KeepsSeen n slm (some p) v v' h = ground arith

  bind_KeepsSeen :
      (v : EdgeOutputVisitor) (r : Result EdgeOutputVisitor)
      (k : EdgeOutputVisitor → Result EdgeOutputVisitor)
      → KeepsSeen v r
      → ((w : EdgeOutputVisitor) → KeepsSeen w (k w))
      → KeepsSeen v (r >>= k)
  bind_KeepsSeen v (ok w) k a b v' h = b w v' h ∙ a w refl
  bind_KeepsSeen v (err e) k a b v' h = absurd (cc h)

  final_stars-KeepsSeen :
      (n : Node) (v : EdgeOutputVisitor) → KeepsSeen v (final_stars facts options n v)
  unfolding final_stars
  final_stars-KeepsSeen n v v' h = ground arith

  emit_stars-KeepsSeen :
      (n : Node) (v : EdgeOutputVisitor) → KeepsSeen v (emit_stars facts options n v)
  unfolding emit_stars
  emit_stars-KeepsSeen n v =
      bind_KeepsSeen v _ (final_stars facts options n)
        (bind_KeepsSeen v (star_rows facts options 0 n v) _ (star_rows-KeepsSeen 0 n v) (λ w.
          bind_KeepsSeen w (star_rows facts options 1 n w) _ (star_rows-KeepsSeen 1 n w) (λ x.
            bind_KeepsSeen x (star_rows facts options 2 n x) _ (star_rows-KeepsSeen 2 n x)
              (λ y y' h. same y y' h))))
        (final_stars-KeepsSeen n)

  emit_addresses-KeepsSeen :
      (n : Node) (v : EdgeOutputVisitor) → KeepsSeen v (emit_addresses facts options n v)
  unfolding emit_addresses
  emit_addresses-KeepsSeen n v = elim (Option-cases facts.slm) [
    | inl e ↦ λ v' h. same v v' (rw (emit_addresses, e) at h)
    | inr (slm, e) ↦ elim (Result-cases (local_idx n)) [
      | inr (why, k) ↦ λ v' h. absurd (cc (rw (emit_addresses, e, k) at h))
      | inl (none, k) ↦ λ v' h. same v v' (rw (emit_addresses, e, k) at h)
      | inl (some idx, k) ↦ elim (Option-cases v.debug_data.local_indices) [
        | inl l ↦ λ v' h. same v v' (rw (emit_addresses, e, k, l) at h)
        | inr (indices, l) ↦ elim (Result-cases (local_name v.debug_data idx)) [
          | inr (why, m) ↦ λ v' h. absurd (cc (simp (emit_addresses, e, k, l, m) at h))
          | inl (name, m) ↦ elim (Result-cases (position_of facts.simple_atoi name)) [
            | inr (why, p) ↦ λ v' h. absurd (cc (simp (emit_addresses, e, k, l, m, p) at h))
            | inl (position, p) ↦ λ v' h.
                print_addresses-KeepsSeen n slm position v v'
                  (simp (emit_addresses, e, k, l, m, p) at h)
          ]
        ]
      ]
    ]
  ]

  pub emit_own-KeepsSeen :
      (n : Node) (v : EdgeOutputVisitor) → KeepsSeen v (emit_own facts options n v)
  unfolding emit_own
  emit_own-KeepsSeen n v =
      bind_KeepsSeen v _ (emit_addresses facts options n)
        (bind_KeepsSeen v _ (emit_stars facts options n)
          (bind_KeepsSeen v _ (emit_debug facts options n) (emit_kind-KeepsSeen n v)
            (emit_debug-KeepsSeen n))
          (emit_stars-KeepsSeen n))
        (emit_addresses-KeepsSeen n)
