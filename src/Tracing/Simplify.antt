-- ===== src/Tracing/Simplify.antt =====
-- src/RuntimeFormat/bracelet-trace-simplify.cpp: the edges of some trace files, each once. A file is
-- its bytes; the hash set is a list without copies, whose order the program leaves open.
use bracelet.Prelude.{
  ℕ, zero, suc, ◌+◌, ◌*◌, ◌^◌, ◌≡◌, refl, Bool, true, false, ◌&&◌, ◌||◌, List, [], ◌∷◌, ◌++◌, arith,
  IsIn, IsIn-append, subst, sym, ap, ◌∙◌, ◌≢◌, ◌⊎◌, ◌↔◌, leb, ◌==◌, Bool-cases, inl, inr,
  if◌then◌else◌, length, take, drop,
}
use bracelet.Tracing.HashSet.{TraceEdge}

-- `operator==` on edges.
unfoldable pub same_edge : TraceEdge → TraceEdge → Bool
same_edge a b = a.trace_site == b.trace_site && a.value == b.value

unfoldable pub holds_edge : TraceEdge → List TraceEdge → Bool
unfolding same_edge
holds_edge e [] = false
holds_edge e (x ∷ xs) = same_edge e x || holds_edge e xs

unfoldable pub insert_edge : TraceEdge → List TraceEdge → List TraceEdge
unfolding holds_edge
insert_edge e edges = if holds_edge e edges then edges else edges ++ e ∷ []

-- A `uint64_t` in memory, the low byte first.
unfoldable pub number_of_bytes : List ℕ → ℕ
number_of_bytes [] = 0
number_of_bytes (b ∷ bs) = b + 2 ^ 8 * number_of_bytes bs

-- `memcpy` to an edge.
unfoldable pub edge_of_bytes : List ℕ → TraceEdge
unfolding number_of_bytes
edge_of_bytes body = record {
  trace_site = number_of_bytes (take 8 body);
  value = number_of_bytes (take 8 (drop 8 body));
}

-- The entries of a file, of 16 bytes each; bytes that fill no entry are left out. The length of the
-- file is fuel enough.
unfoldable pub entries : ℕ → List ℕ → List TraceEdge
unfolding edge_of_bytes
entries zero body = []
entries (suc fuel) body =
    let rest = entries fuel (drop 16 body) in
    if leb 16 (length body) then edge_of_bytes body ∷ rest else []

-- The loop over the entries of one file.
unfoldable pub collect : List TraceEdge → List TraceEdge → List TraceEdge
unfolding insert_edge
collect [] edges = edges
collect (e ∷ es) edges = collect es (if e.trace_site == 0 then edges else insert_edge e edges)

-- The loop over the files.
unfoldable pub simplify : List (List ℕ) → List TraceEdge → List TraceEdge
unfolding collect entries
simplify [] edges = edges
simplify (body ∷ bodies) edges = simplify bodies (collect (entries (length body) body) edges)

-- A list holds no edge twice.
abbrev pub IsDistinct : List TraceEdge → Type 0
IsDistinct [] = Unit {0}
IsDistinct (e ∷ es) = (¬ IsIn e es) × IsDistinct es

same_edge→eq : (a b : TraceEdge) → same_edge a b ≡ true → a ≡ b
unfolding same_edge
same_edge→eq a b h =
    let site : a.trace_site ≡ b.trace_site = ground arith in
    let value : a.value ≡ b.value = ground arith in cc (site, value)

same_edge_refl : (a : TraceEdge) → same_edge a a ≡ true
unfolding same_edge
same_edge_refl a = ground arith

holds_edge→IsIn : (x : TraceEdge) (es : List TraceEdge) → holds_edge x es ≡ true → IsIn x es
unfolding holds_edge
holds_edge→IsIn x [] h = absurd (cc h)
holds_edge→IsIn x (e ∷ es) h = elim (Bool-cases (same_edge x e)) [
  | inl same ↦ inl (same_edge→eq x e same)
  | inr other ↦ inr (holds_edge→IsIn x es (rw other at h))
]

IsIn→holds_edge : (x : TraceEdge) (es : List TraceEdge) → IsIn x es → holds_edge x es ≡ true
unfolding holds_edge
IsIn→holds_edge x [] h = absurd h
IsIn→holds_edge x (e ∷ es) h = elim h [
  | inl same ↦
      subst (λ y. (same_edge x y || holds_edge x es) ≡ true) same (rw (same_edge_refl x) refl)
  | inr later ↦ ground (arith, IsIn→holds_edge x es later)
]

IsDistinct-append :
    (e : TraceEdge) (es : List TraceEdge) → IsDistinct es → ¬ IsIn e es → IsDistinct (es ++ e ∷ [])
IsDistinct-append e [] d fresh = ((λ never. never), tt)
IsDistinct-append e (x ∷ es) d fresh = (
  λ again. elim ((IsIn-append x e es).0 again) [
    | inl later ↦ d.0 later
    | inr same ↦ fresh (inl (sym same))
  ],
  IsDistinct-append e es d.1 (λ later. fresh (inr later)),
)

-- An insertion keeps the edges distinct, and adds what it inserts.
insert_edge-IsIn :
    (x e : TraceEdge) (edges : List TraceEdge)
    → IsDistinct edges
    → IsDistinct (insert_edge e edges) × (IsIn x (insert_edge e edges) ↔ (IsIn x edges ⊎ (x ≡ e)))
unfolding insert_edge
insert_edge-IsIn x e edges d = elim (Bool-cases (holds_edge e edges)) [
  | inl held ↦
      let inside = holds_edge→IsIn e edges held in
      rw held (
        d,
        (
          λ h. inl h,
          λ h. elim h [ inl i ↦ i | inr same ↦ subst (λ y. IsIn y edges) (sym same) inside ],
        ),
      )
  | inr fresh ↦
      let outside : ¬ IsIn e edges = λ i. absurd (cc (IsIn→holds_edge e edges i, fresh)) in
      rw fresh (IsDistinct-append e edges d outside, IsIn-append x e edges)
]

-- Collecting entries into a list of distinct edges leaves them distinct, and the list then holds an edge
-- exactly if it did before, or if the edge's site is not zero and the edge is one of the entries.
pub collect-IsIn :
    (x : TraceEdge) (es edges : List TraceEdge)
    → IsDistinct edges
    → IsDistinct (collect es edges)
      × (IsIn x (collect es edges) ↔ (IsIn x edges ⊎ ((x.trace_site ≢ 0) × IsIn x es)))
unfolding collect
collect-IsIn x [] edges d = (d, (λ h. inl h, λ h. elim h [ inl i ↦ i | inr i ↦ absurd (i.1) ]))
collect-IsIn x (e ∷ es) edges d = elim (Bool-cases (e.trace_site == 0)) [
  | inl null ↦
      let zero_site : e.trace_site ≡ 0 = ground arith in
      let (d', (to, from)) = collect-IsIn x es edges d in
      rw null (
        d',
        (
          λ h. elim (to h) [ inl i ↦ inl i | inr i ↦ inr (i.0, inr (i.1)) ],
          λ h. elim h [
            | inl i ↦ from (inl i)
            | inr i ↦ elim (i.1) [
              | inl same ↦ absurd (i.0 (ap (λ y. y.trace_site) same ∙ zero_site))
              | inr later ↦ from (inr (i.0, later))
            ]
          ],
        ),
      )
  | inr other ↦
      let (d', (to', from')) = insert_edge-IsIn x e edges d in
      let (d'', (to, from)) = collect-IsIn x es (insert_edge e edges) d' in
      let real : e.trace_site ≢ 0 = λ z. absurd (ground (arith, z, other)) in
      rw other (
        d'',
        (
          λ h. elim (to h) [
            | inl i ↦ elim (to' i) [
              | inl old ↦ inl old
              | inr same ↦ inr (λ z. real (ap (λ y. y.trace_site) (sym same) ∙ z), inl same)
            ]
            | inr i ↦ inr (i.0, inr (i.1))
          ],
          λ h. elim h [
            | inl i ↦ from (inl (from' (inl i)))
            | inr i ↦ elim (i.1) [
              | inl same ↦ from (inl (from' (inr same)))
              | inr later ↦ from (inr (i.0, later))
            ]
          ],
        ),
      )
]
