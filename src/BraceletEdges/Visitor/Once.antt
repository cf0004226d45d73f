-- ===== src/BraceletEdges/Visitor/Once.antt =====
-- Lemmas on `emitNodeInfo` of bracelet-edges.cpp and the nodes that were seen.
use bracelet.Prelude.{
  IsIn, subst, [], ◌⊎◌, ℕ, zero, suc, ◌+◌, ◌^◌, ◌<◌, ◌≡◌, refl, sym, ◌∙◌, true, false, none, some,
  List, ◌∷◌, Result, ok, err, out_of_fuel, ◌>>=◌, arith, if◌then◌else◌, Result-cases, Bool-cases,
  inl, inr,
}
use bracelet.Edges.Node.{Node, equal, symbol, of_symbol}
use bracelet.Edges.Node.Laws.{node, max_symbol, symbol_eq, of_symbol_eq}
use bracelet.BraceletEdges.Visitor.{
  Facts, PrintingOptions, EdgeOutputVisitor, holds_node, emit_own, emit_at_depth, emit_node_info,
}
use bracelet.BraceletEdges.Visitor.Seen.{same, emit_own-KeepsSeen}

module _ (facts : Facts) (options : PrintingOptions) where
  -- The set of nodes only grows.
  abbrev Grows : EdgeOutputVisitor → Result EdgeOutputVisitor → Type 0
  Grows v r =
      (v' : EdgeOutputVisitor)
      → r ≡ ok v'
      → (m : Node) → holds_node m v.seen_nodes ≡ true
      → holds_node m v'.seen_nodes ≡ true

  holds_node-cons :
      (m n : Node) (ns : List Node) → holds_node m ns ≡ true → holds_node m (n ∷ ns) ≡ true
  unfolding holds_node
  holds_node-cons m n ns h = ground arith

  holds_node-here : (n : Node) (ns : List Node) → holds_node n (n ∷ ns) ≡ true
  unfolding holds_node equal
  holds_node-here n ns = ground arith

  abbrev pub mark : Node → EdgeOutputVisitor → EdgeOutputVisitor
  mark n v = record v { seen_nodes = n ∷ v.seen_nodes }

  -- One step, with `emit_own` left as it is.
  emit_at_depth_zero :
      (n : Node) (v : EdgeOutputVisitor) → emit_at_depth facts options 0 n v ≡ err out_of_fuel
  unfolding emit_at_depth
  emit_at_depth_zero n v = refl

  emit_at_depth_eq :
      (fuel : ℕ) (n : Node) (v : EdgeOutputVisitor)
      → emit_at_depth facts options (suc fuel) n v ≡ elim (holds_node n v.seen_nodes) [
        | true ↦ ok v
        | false ↦ symbol n >>= λ s. of_symbol s >>= λ symbol_node.
            emit_at_depth facts options fuel symbol_node (mark n v) >>= emit_own facts options n
      ]
  unfolding emit_at_depth
  emit_at_depth_eq fuel n v = refl

  emit_at_depth-Grows :
      (fuel : ℕ) (n : Node) (v : EdgeOutputVisitor) → Grows v (emit_at_depth facts options fuel n v)
  emit_at_depth-Grows zero n v v' h m held = absurd (cc (sym (emit_at_depth_zero n v) ∙ h))
  emit_at_depth-Grows (suc fuel) n v v' h m held = elim (Bool-cases (holds_node n v.seen_nodes)) [
    | inl e ↦ rw (same v v' (rw (e) at (sym (emit_at_depth_eq fuel n v) ∙ h))) held
    | inr e ↦ elim (Result-cases (symbol n)) [
      | inr (why, k) ↦ absurd (cc (rw (e, k) at (sym (emit_at_depth_eq fuel n v) ∙ h)))
      | inl (s, k) ↦ elim (Result-cases (of_symbol s)) [
        | inr (why, l) ↦ absurd (cc (rw (e, k, l) at (sym (emit_at_depth_eq fuel n v) ∙ h)))
        | inl (symbol_node, l) ↦
            elim (Result-cases (emit_at_depth facts options fuel symbol_node (mark n v))) [
              | inr (why, p) ↦
                  absurd (cc (rw (e, k, l, p) at (sym (emit_at_depth_eq fuel n v) ∙ h)))
              | inl (w, p) ↦
                  rw
                    (emit_own-KeepsSeen facts options n w v'
                      (rw (e, k, l, p) at (sym (emit_at_depth_eq fuel n v) ∙ h)))
                    (emit_at_depth-Grows fuel symbol_node (mark n v) w p m
                      (holds_node-cons m n v.seen_nodes held))
            ]
      ]
    ]
  ]

  -- Once it is done, a node is held.
  emit_at_depth-holds :
      (fuel : ℕ) (n : Node) (v v' : EdgeOutputVisitor)
      → emit_at_depth facts options fuel n v ≡ ok v'
      → holds_node n v'.seen_nodes ≡ true
  emit_at_depth-holds zero n v v' h = absurd (cc (sym (emit_at_depth_zero n v) ∙ h))
  emit_at_depth-holds (suc fuel) n v v' h = elim (Bool-cases (holds_node n v.seen_nodes)) [
    | inl e ↦ rw (same v v' (rw (e) at (sym (emit_at_depth_eq fuel n v) ∙ h))) e
    | inr e ↦ elim (Result-cases (symbol n)) [
      | inr (why, k) ↦ absurd (cc (rw (e, k) at (sym (emit_at_depth_eq fuel n v) ∙ h)))
      | inl (s, k) ↦ elim (Result-cases (of_symbol s)) [
        | inr (why, l) ↦ absurd (cc (rw (e, k, l) at (sym (emit_at_depth_eq fuel n v) ∙ h)))
        | inl (symbol_node, l) ↦
            elim (Result-cases (emit_at_depth facts options fuel symbol_node (mark n v))) [
              | inr (why, p) ↦
                  absurd (cc (rw (e, k, l, p) at (sym (emit_at_depth_eq fuel n v) ∙ h)))
              | inl (w, p) ↦
                  rw
                    (emit_own-KeepsSeen facts options n w v'
                      (rw (e, k, l, p) at (sym (emit_at_depth_eq fuel n v) ∙ h)))
                    (emit_at_depth-Grows fuel symbol_node (mark n v) w p n
                      (holds_node-here n v.seen_nodes))
            ]
      ]
    ]
  ]

  -- The facts of a node that is not held, without those of its symbol.
  abbrev emit_once : Node → EdgeOutputVisitor → Result EdgeOutputVisitor
  emit_once n v =
      if holds_node n v.seen_nodes
      then ok v
      else emit_own facts options n (record v { seen_nodes = n ∷ v.seen_nodes })

  emit_symbol :
      (fuel s : ℕ) (v : EdgeOutputVisitor)
      → s < max_symbol
      → emit_at_depth facts options (suc (suc fuel)) (node s none) v ≡ emit_once (node s none) v
  emit_symbol fuel s v h = elim (Bool-cases (holds_node (node s none) v.seen_nodes)) [
    | inl e ↦ rw (emit_at_depth_eq (suc fuel) (node s none) v, e)
    | inr e ↦ rw (
      emit_at_depth_eq (suc fuel) (node s none) v,
      e,
      symbol_eq s none h (omega arith),
      of_symbol_eq s h,
      emit_at_depth_eq fuel (node s none) (mark (node s none) v),
      holds_node-here (node s none) v.seen_nodes,
    )
  ]

  info_eq :
      (n : Node) (v : EdgeOutputVisitor)
      → emit_node_info facts options n v ≡ emit_at_depth facts options 3 n v
  unfolding emit_node_info
  info_eq n v = refl

  emit_local :
      (s i : ℕ) (v : EdgeOutputVisitor)
      → s < max_symbol
      → i + 1 < 2 ^ 16
      → holds_node (node s (some i)) v.seen_nodes ≡ false
      → emit_node_info facts options (node s (some i)) v ≡ (
          emit_once (node s none) (mark (node s (some i)) v)
          >>= emit_own facts options (node s (some i)))
  emit_local s i v h k e = rw (
    info_eq _ v,
    emit_at_depth_eq 2 (node s (some i)) v,
    e,
    symbol_eq s (some i) h k,
    of_symbol_eq s h,
    emit_symbol 0 s (mark (node s (some i)) v) h,
  )

  -- The test of the code finds the nodes that are in the set.
  holds_node→IsIn : (n : Node) (ns : List Node) → holds_node n ns ≡ true → IsIn n ns
  unfolding holds_node equal
  holds_node→IsIn n [] h = absurd (cc h)
  holds_node→IsIn n (m ∷ ns) h = elim (Bool-cases (equal n m)) [
    | inl same ↦ let e : n.raw ≡ m.raw = ground arith in inl (cc e)
    | inr other ↦ inr (holds_node→IsIn n ns (rw (other, equal) at h))
  ]

  holds_node-IsIn : (n : Node) (ns : List Node) → holds_node n ns ≡ false → ¬ IsIn n ns
  holds_node-IsIn n [] h i = i
  holds_node-IsIn n (m ∷ ns) h i = elim i [
    | inl same ↦
        absurd (cc (subst (λ z. holds_node n (z ∷ ns) ≡ true) same (holds_node-here n ns), h))
    | inr later ↦ elim (Bool-cases (holds_node n ns)) [
      | inl held ↦ absurd (cc (holds_node-cons n m ns held, h))
      | inr fresh ↦ holds_node-IsIn n ns fresh later
    ]
  ]

  -- A node that is in the set is left; the facts of one that is not are emitted, and it is then in it.
  abbrev pub IsEmitted : Node → EdgeOutputVisitor → Result EdgeOutputVisitor → Type 0
  IsEmitted n v r =
      (IsIn n v.seen_nodes × (r ≡ ok v))
      ⊎ ((¬ IsIn n v.seen_nodes) × (r ≡ emit_own facts options n (mark n v)))

  emit_once-IsEmitted : (n : Node) (v : EdgeOutputVisitor) → IsEmitted n v (emit_once n v)
  emit_once-IsEmitted n v = elim (Bool-cases (holds_node n v.seen_nodes)) [
    | inl e ↦ inl (holds_node→IsIn n v.seen_nodes e, rw e)
    | inr e ↦ inr (holds_node-IsIn n v.seen_nodes e, rw e)
  ]

  -- The nodes that are seen are a list, and a node is in it if it equals one of them. For every symbol
  -- and local in range: if the symbol was seen, asking for its facts does nothing, and else emits them
  -- and nothing else. If the local was seen, asking for its facts does nothing; else it asks for those
  -- of its symbol, as before, and then emits those of the local. Once a node's facts are emitted, asking
  -- for them again changes nothing. So the recursion comes to its end.
  pub emit_node_info-once :
      (s i : ℕ) (v : EdgeOutputVisitor)
      → s < max_symbol
      → i + 1 < 2 ^ 16
      → IsEmitted (node s none) v (emit_node_info facts options (node s none) v)
        × ((IsIn (node s (some i)) v.seen_nodes
              × (emit_node_info facts options (node s (some i)) v ≡ ok v))
            ⊎ ((¬ IsIn (node s (some i)) v.seen_nodes)
                × ((r : Result EdgeOutputVisitor) × IsEmitted
                      (node s none)
                      (mark (node s (some i)) v)
                      r
                    × (emit_node_info facts options (node s (some i)) v
                        ≡ (r >>= emit_own facts options (node s (some i)))))))
        × ((n : Node) (v' : EdgeOutputVisitor)
            → emit_node_info facts options n v ≡ ok v'
            → emit_node_info facts options n v' ≡ ok v')
  emit_node_info-once s i v h k = (
    rw (info_eq (node s none) v ∙ emit_symbol 1 s v h) (emit_once-IsEmitted (node s none) v),
    elim (Bool-cases (holds_node (node s (some i)) v.seen_nodes)) [
      | inl e ↦ inl (
        holds_node→IsIn _ v.seen_nodes e,
        rw (info_eq (node s (some i)) v, emit_at_depth_eq 2 (node s (some i)) v, e),
      )
      | inr e ↦ inr (
        holds_node-IsIn _ v.seen_nodes e,
        (
          emit_once (node s none) (mark (node s (some i)) v),
          emit_once-IsEmitted (node s none) (mark (node s (some i)) v),
          emit_local s i v h k e,
        ),
      )
    ],
    λ n v' done. rw (
      info_eq n v',
      emit_at_depth_eq 2 n v',
      emit_at_depth-holds 3 n v v' (sym (info_eq n v) ∙ done),
    ),
  )
