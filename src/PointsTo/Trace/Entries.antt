-- ===== src/PointsTo/Trace/Entries.antt =====
-- What an entry of a trace stands for, in `checkPointsToAgainstTrace` of src/PointsTo/PointsTo.cpp.
use bracelet.Prelude.{
  subst, unknown_trace_site, IsIn, ◌≢◌, ◌==◌, ◌&&◌, ◌*◌, ◌/◌, ◌%◌, ◌^◌, ◌+◌, arith, ==_ne,
  Option-cases, false, ℕ, ◌≡◌, ◌⊎◌, inl, inr, refl, sym, ap, ◌∙◌, true, Option, none, some, List,
  [], ◌∷◌, Result, ok, err, ◌>>=◌, Result-cases, Bool-cases,
}
use bracelet.Edges.Table.{find}
use bracelet.Edges.Node.{Node, of_symbol}
use bracelet.Tracing.HashSet.{TraceEdge}
use bracelet.PointsTo.Trace.{
  Edges, same_pair, holds_pair, value_node, invalid_address, no_symbol, no_start, symbol_start,
  Resolved, trace_pair,
}

Resolved-cases :
    (r : Resolved)
    → (r ≡ invalid_address)
      ⊎ ((r ≡ no_symbol) ⊎ ((r ≡ no_start) ⊎ ((start : ℕ) × (r ≡ symbol_start start))))
Resolved-cases invalid_address = inl refl
Resolved-cases no_symbol = inr (inl refl)
Resolved-cases no_start = inr (inr (inl refl))
Resolved-cases (symbol_start start) = inr (inr (inr (start, refl)))

module _ (resolve : ℕ → Resolved) (print : Node → Result (Unit {0})) (static_edges : Edges) where
  -- The address of the site of an entry: its first word without the lowest bit, which is the epoch.
  abbrev pub IsSiteAddress : TraceEdge → ℕ → Type 0
  IsSiteAddress e a = (a % 2 ≡ 0) × ((e.trace_site % 2 ^ 64 ≡ a) ⊎ (e.trace_site % 2 ^ 64 ≡ a + 1))

  -- The node that a value stands for: that of the site at the value, or else the symbol whose code or
  -- data is there.
  abbrev pub IsValueNode : List (ℕ × Node) → ℕ → Node → Type 0
  IsValueNode sites value n =
      (find ◌==◌ value sites ≡ some n)
      ⊎ ((find ◌==◌ value sites ≡ none)
          × ((start : ℕ) × (resolve value ≡ symbol_start start) × (of_symbol start ≡ ok n)))

  -- A value that stands for no node: no site is there, and it cannot be resolved, or has no symbol; a
  -- warning prints the node of the entry's site.
  abbrev pub IsNoNode : List (ℕ × Node) → Node → ℕ → Type 0
  IsNoNode sites site value =
      (find ◌==◌ value sites ≡ none)
      × ((resolve value ≡ invalid_address) ⊎ ((resolve value ≡ no_symbol) × (print site ≡ ok tt)))

  -- An entry is empty; or the node of its site is known, and its value stands for no node, or the
  -- static graph has the edge from the one node to the other.
  abbrev pub IsCovered : List (ℕ × Node) → TraceEdge → Type 0
  IsCovered sites e =
      (a : ℕ) × IsSiteAddress e a
      × ((a ≡ 0)
          ⊎ ((a ≢ 0)
              × ((site : Node) × (find ◌==◌ a sites ≡ some site)
                  × (IsNoNode sites site e.value
                      ⊎ ((n : Node) × IsValueNode sites e.value n × IsIn (site, n) static_edges)))))

  -- The same with the code's reading of an entry.
  abbrev pub HasPair : List (ℕ × Node) → TraceEdge → Type 0
  HasPair sites e =
      (trace_pair resolve print sites e ≡ ok none)
      ⊎ ((p : Node × Node) × (trace_pair resolve print sites e ≡ ok (some p))
          × (holds_pair p static_edges ≡ true))

  site_address_eq : (e : TraceEdge) (a : ℕ) → IsSiteAddress e a → e.trace_site / 2 * 2 % 2 ^ 64 ≡ a
  site_address_eq e a h = omega (arith, h)

  IsSiteAddress-self : (e : TraceEdge) → IsSiteAddress e (e.trace_site / 2 * 2 % 2 ^ 64)
  IsSiteAddress-self e = omega arith

  holds_pair→IsIn : (p : Node × Node) (es : Edges) → holds_pair p es ≡ true → IsIn p es
  unfolding holds_pair same_pair
  holds_pair→IsIn p [] h = absurd (cc h)
  holds_pair→IsIn (a, b) ((c, d) ∷ es) h = elim (Bool-cases (a.raw == c.raw && b.raw == d.raw)) [
    | inl same ↦
        let x : a.raw ≡ c.raw = ground arith in
        let y : b.raw ≡ d.raw = ground arith in inl (cc (x, y))
    | inr other ↦ inr (holds_pair→IsIn (a, b) es (rw (holds_pair, same_pair, other) at h))
  ]

  IsIn→holds_pair : (p : Node × Node) (es : Edges) → IsIn p es → holds_pair p es ≡ true
  unfolding holds_pair same_pair
  IsIn→holds_pair p [] h = absurd h
  IsIn→holds_pair (a, b) ((c, d) ∷ es) h = elim h [
    | inl same ↦
        let x : a.raw ≡ c.raw = ap (λ (q : Node × Node). q.0.raw) same in
        let y : b.raw ≡ d.raw = ap (λ (q : Node × Node). q.1.raw) same in ground (arith, x, y)
    | inr later ↦ ground (arith, IsIn→holds_pair (a, b) es later)
  ]

  value_node-known :
      (sites : List (ℕ × Node)) (site : Node) (value : ℕ) (n : Node)
      → IsValueNode sites value n
      → value_node resolve print sites site value ≡ ok (some n)
  unfolding value_node
  value_node-known sites site value n (inl f) = rw (f, value_node)
  value_node-known sites site value n (inr (f, (start, r, node))) = rw (f, r, node, value_node)

  value_node-unknown :
      (sites : List (ℕ × Node)) (site : Node) (value : ℕ)
      → IsNoNode sites site value
      → value_node resolve print sites site value ≡ ok none
  unfolding value_node
  value_node-unknown sites site value (f, inl r) = rw (f, r, value_node)
  value_node-unknown sites site value (f, inr (r, p)) = rw (f, r, p, value_node)

  -- What the code makes of a value is what it stands for.
  value_node-cases :
      (sites : List (ℕ × Node)) (site : Node) (value : ℕ) (o : Option Node)
      → value_node resolve print sites site value ≡ ok o
      → ((o ≡ none) × IsNoNode sites site value)
        ⊎ ((n : Node) × (o ≡ some n) × IsValueNode sites value n)
  unfolding value_node
  value_node-cases sites site value o h = elim (Option-cases (find ◌==◌ value sites)) [
    | inr (n, f) ↦ inr (n, cc (rw (f, value_node) at h), inl f)
    | inl f ↦ elim (Resolved-cases (resolve value)) [
      | inl r ↦ inl (cc (rw (f, r, value_node) at h), (f, inl r))
      | inr (inl r) ↦ elim (Result-cases (print site)) [
        | inl (u, p) ↦ inl (cc (rw (f, r, p, value_node) at h), (f, inr (r, p)))
        | inr (why, p) ↦ absurd (cc (rw (f, r, p, value_node) at h))
      ]
      | inr (inr (inl r)) ↦ absurd (cc (rw (f, r, value_node) at h))
      | inr (inr (inr (start, r))) ↦ elim (Result-cases (of_symbol start)) [
        | inl (n, k) ↦ inr (n, cc (rw (f, r, k, value_node) at h), inr (f, (start, r, k)))
        | inr (why, k) ↦ absurd (cc (rw (f, r, k, value_node) at h))
      ]
    ]
  ]

  -- The code's reading of an entry, at the address of its site.
  pair_at : List (ℕ × Node) → ℕ → ℕ → Result (Option (Node × Node))
  pair_at sites value a = elim (a == 0) [
    | true ↦ ok none
    | false ↦ elim (find ◌==◌ a sites) [
      | none ↦ err unknown_trace_site
      | some site ↦ value_node resolve print sites site value >>= λ o. elim o [
        | none ↦ ok none
        | some n ↦ ok (some (site, n))
      ]
    ]
  ]

  trace_pair_at :
      (sites : List (ℕ × Node)) (e : TraceEdge) (a : ℕ)
      → IsSiteAddress e a
      → trace_pair resolve print sites e ≡ pair_at sites e.value a
  unfolding trace_pair pair_at
  trace_pair_at sites e a h = ap (pair_at sites e.value) (site_address_eq e a h)

  -- The edge of an entry, once the node of its site is known.
  trace_pair_site :
      (sites : List (ℕ × Node)) (e : TraceEdge) (a : ℕ) (site : Node) (o : Option Node)
      → IsSiteAddress e a
      → a ≢ 0
      → find ◌==◌ a sites ≡ some site
      → value_node resolve print sites site e.value ≡ ok o
      → trace_pair resolve print sites e ≡ ok (elim o [ none ↦ none | some n ↦ some (site, n) ])
  unfolding pair_at
  trace_pair_site sites e a site none h ne f k =
      trace_pair_at sites e a h ∙ rw (pair_at, ==_ne a 0 ne, f, k)
  trace_pair_site sites e a site (some n) h ne f k =
      trace_pair_at sites e a h ∙ rw (pair_at, ==_ne a 0 ne, f, k)

  trace_pair_null :
      (sites : List (ℕ × Node)) (e : TraceEdge)
      → IsSiteAddress e 0
      → trace_pair resolve print sites e ≡ ok none
  unfolding trace_pair
  trace_pair_null sites e h = rw (trace_pair, site_address_eq e 0 h)

  pub IsCovered-HasPair :
      (sites : List (ℕ × Node)) (e : TraceEdge) → IsCovered sites e → HasPair sites e
  IsCovered-HasPair sites e (a, at, inl null) =
      inl (trace_pair_null sites e (subst (IsSiteAddress e) null at))
  IsCovered-HasPair sites e (a, at, inr (ne, (site, f, inl unknown))) =
      inl (
        trace_pair_site sites e a site none at ne f (value_node-unknown sites site e.value unknown))
  IsCovered-HasPair sites e (a, at, inr (ne, (site, f, inr (n, known, inside)))) = inr (
    (site, n),
    trace_pair_site sites e a site (some n) at ne f (value_node-known sites site e.value n known),
    IsIn→holds_pair (site, n) static_edges inside,
  )

  -- What the code takes for the edge of an entry decides whether the entry is covered.
  covered_by :
      (sites : List (ℕ × Node)) (e : TraceEdge) (site : Node) (o : Option Node)
      → value_node resolve print sites site e.value ≡ ok o
      → trace_pair resolve print sites e ≡ ok (elim o [ none ↦ none | some n ↦ some (site, n) ])
      → HasPair sites e
      → IsNoNode sites site e.value
        ⊎ ((n : Node) × IsValueNode sites e.value n × IsIn (site, n) static_edges)
  covered_by sites e site o k pair covered = elim (value_node-cases sites site e.value o k) [
    | inl (absent, unknown) ↦ inl unknown
    | inr (n, found, known) ↦
        let now : trace_pair resolve print sites e ≡ ok (some (site, n)) = rw found at pair in
        elim covered [
          | inl missing ↦ absurd (cc (now, missing))
          | inr (p, given, held) ↦
              let same : (site, n) ≡ p = cc (now, given) in
              inr (
                n,
                known,
                subst (λ q. IsIn q static_edges) (sym same) (holds_pair→IsIn p static_edges held),
              )
        ]
  ]

  pub HasPair-IsCovered :
      (sites : List (ℕ × Node)) (e : TraceEdge) → HasPair sites e → IsCovered sites e
  unfolding trace_pair
  HasPair-IsCovered sites e covered =
      let a = e.trace_site / 2 * 2 % 2 ^ 64 in
      let at = IsSiteAddress-self e in
      elim (Bool-cases (a == 0)) [
        | inl null ↦ (a, at, inl (ground (arith, null)))
        | inr other ↦
            let ne : a ≢ 0 = λ z. absurd (ground (arith, z, other)) in
            elim (Option-cases (find ◌==◌ a sites)) [
              | inl f ↦
                  let failed : trace_pair resolve print sites e ≡ err unknown_trace_site =
                    rw (trace_pair, other, f) in
                  elim covered [
                    | inl missing ↦ absurd (cc (failed, missing))
                    | inr (p, given, held) ↦ absurd (cc (failed, given))
                  ]
              | inr (site, f) ↦ elim (Result-cases (value_node resolve print sites site e.value)) [
                | inr (why, k) ↦
                    let failed : trace_pair resolve print sites e ≡ err why =
                      rw (trace_pair, other, f, k) in
                    elim covered [
                      | inl missing ↦ absurd (cc (failed, missing))
                      | inr (p, given, held) ↦ absurd (cc (failed, given))
                    ]
                | inl (o, k) ↦ (
                  a,
                  at,
                  inr (
                    ne,
                    (
                      site,
                      f,
                      covered_by sites e site o k (trace_pair_site sites e a site o at ne f k)
                          covered,
                    ),
                  ),
                )
              ]
            ]
      ]
