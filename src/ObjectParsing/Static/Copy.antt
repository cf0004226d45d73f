-- ===== src/ObjectParsing/Static/Copy.antt =====
-- `copyData` of StaticObject.cpp, in pieces.
use bracelet.Prelude.{
  Yields, ℕ, zero, suc, ◌+◌, ◌/◌, ◌^◌, ◌<◌, ◌≡◌, inl, inr, refl, sym, ap, ◌∙◌, subst, true, none,
  some, [], ◌∷◌, ok, arith, ltb, leb, ◌==◌, length, get_or, take, drop, drop-add, length-drop,
  length-set, get_or-set_self, ==_ne, ◌≢◌, lt→ltb, ltb→lt, Option-cases, Bool-cases, Result-cases,
}
use bracelet.Edges.Bytes.{Text}
use bracelet.ObjectParsing.Address.{explode, section_idx}
use bracelet.ObjectParsing.Static.{
  Section, StaticObject, llvm, contents, copy_in, copy_data, put_section, section_at,
}
use bracelet.ObjectParsing.Static.Kept.{set_again}

-- A part of a section later.
explode-add :
    (addr n : ℕ)
    → (explode addr).section_offset + n < 2 ^ 32
    → ((explode (addr + n)).section_offset ≡ (explode addr).section_offset + n)
      × (section_idx (explode (addr + n)) ≡ section_idx (explode addr))
unfolding explode section_idx
explode-add addr n h =
    let same : (addr + n) / 2 ^ 32 ≡ addr / 2 ^ 32 = omega arith in (omega arith, rw same)

contents-lazy_contents :
    (s s' : Section) (body : Text) → contents s ≡ ok (body, s') → s'.lazy_contents ≡ some body
unfolding contents
contents-lazy_contents s s' body e = elim (Option-cases s.lazy_contents) [
  | inr (known, h) ↦
      let (same, same') : (known ≡ body) × (s ≡ s') =
        let e' = rw (contents, h) at e in (cc e', cc e') in
      rw (← same', ← same) h
  | inl h ↦ elim (Result-cases (llvm s.reference)) [
    | inr (why, k) ↦ absurd (cc (rw (contents, h, k) at e))
    | inl (r, k) ↦ elim (Result-cases r.contents) [
      | inr (why, l) ↦ absurd (cc (rw (contents, h, k, l) at e))
      | inl (text, l) ↦ elim (Bool-cases (length text == r.range.size)) [
        | inr m ↦ absurd (cc (rw (contents, h, k, l, m) at e))
        | inl m ↦
            let e' = rw (contents, h, k, l, m) at e in
            let same : record s { lazy_contents = some text } ≡ s' = cc e' in
            let text_same : text ≡ body = cc e' in rw (← same, text_same)
      ]
    ]
  ]
]

contents-again :
    (s s' : Section) (body : Text) → contents s ≡ ok (body, s') → contents s' ≡ ok (body, s')
unfolding contents
contents-again s s' body e = simp (contents, contents-lazy_contents s s' body e)

take-nil : (n : ℕ) → ◌≡◌ {A = Text} (take n []) []
take-nil zero = refl
take-nil (suc n) = refl

take-take : (n m : ℕ) (xs : Text) → take n (take (n + m) xs) ≡ take n xs
take-take zero m xs = refl
take-take (suc n) m [] = rw (take-nil (suc n + m))
take-take (suc n) m (x ∷ xs) =
    let e : suc n + m ≡ suc (n + m) = omega arith in rw e (ap (◌∷◌ x) (take-take n m xs))

drop-take : (n m : ℕ) (xs : Text) → drop n (take (n + m) xs) ≡ take m (drop n xs)
drop-take zero m xs = let e : 0 + m ≡ m = omega arith in rw e
drop-take (suc n) m [] = rw (take-nil (suc n + m), take-nil m)
drop-take (suc n) m (x ∷ xs) =
    let e : suc n + m ≡ suc (n + m) = omega arith in rw e (drop-take n m xs)

module _ (n m offset idx : ℕ) (so : StaticObject) (s : Section) where
  abbrev Pieces : Text × StaticObject → Type 0
  Pieces q =
      (s' : Section) × (q.1 ≡ put_section idx s' so)
      × (copy_in n offset idx so s ≡ ok (take n q.0, q.1))
      × (copy_in m (offset + n) idx q.1 s' ≡ ok (drop n q.0, q.1))

  copy_in-Pieces : Yields Pieces (copy_in (n + m) offset idx so s)
  unfolding copy_in
  copy_in-Pieces = elim (Result-cases (contents s)) [
    | inr (why, e) ↦ rw (e, copy_in, Yields) tt
    | inl ((body, s'), e) ↦ elim (Bool-cases (leb offset (length body))) [
      | inr h ↦ rw (e, copy_in, h, Yields) tt
      | inl h ↦ elim (Bool-cases (leb (n + m) (length (drop offset body)))) [
        | inr k ↦ rw (e, copy_in, h, k, Yields) tt
        | inl k ↦
            let short : leb n (length (drop offset body)) ≡ true = ground arith in
            let within : leb (offset + n) (length body) ≡ true =
              ground (arith, length-drop offset body) in
            let rest : leb m (length (drop n (drop offset body))) ≡ true =
              ground (arith, length-drop n (drop offset body)) in
            rw (e, copy_in, h, k, Yields)
              (
                s',
                refl,
                rw (copy_in, e, h, short, take-take n m (drop offset body)),
                rw
                    (
                      copy_in,
                      contents-again s s' body e,
                      within,
                      drop-add offset n body,
                      rest,
                      drop-take n m (drop offset body),
                    )
                    (ap
                      (λ sections.
                        ok (take m (drop n (drop offset body)), record so { sections = sections }))
                      (set_again so.sections idx (some s') (some s'))),
              )
      ]
    ]
  ]

copy_data-at :
    (n addr idx : ℕ) (t : StaticObject) (s : Section)
    → addr ≢ 0
    → section_idx (explode addr) ≡ ok idx
    → idx < length t.sections
    → get_or t.sections idx none ≡ some s
    → copy_data (suc n) addr t ≡ copy_in (suc n) (explode addr).section_offset idx t s
unfolding copy_data section_at
copy_data-at n addr idx t s nonnull at low h =
    rw (==_ne addr 0 nonnull, copy_data, at, section_at, lt→ltb _ _ low, h)

copied :
    (n addr : ℕ) (so : StaticObject) (q : Text × StaticObject)
    → copy_data (suc n) addr so ≡ ok q
    → (addr ≢ 0)
      × ((idx : ℕ) × (section_idx (explode addr) ≡ ok idx)
          × (idx < length so.sections)
          × ((s : Section) × (get_or so.sections idx none ≡ some s)))
unfolding copy_data section_at
copied n addr so q e = elim (Bool-cases (addr == 0)) [
  | inl k ↦ absurd (cc (rw (copy_data, k) at e))
  | inr nonnull ↦ elim (Result-cases (section_idx (explode addr))) [
    | inr (why, k) ↦ absurd (cc (rw (copy_data, nonnull, k) at e))
    | inl (idx, at) ↦ elim (Bool-cases (ltb idx (length so.sections))) [
      | inr k ↦ absurd (cc (rw (copy_data, nonnull, at, section_at, k) at e))
      | inl low ↦ elim (Option-cases (get_or so.sections idx none)) [
        | inl k ↦ absurd (cc (rw (copy_data, nonnull, at, section_at, low, k) at e))
        | inr (s, h) ↦ (λ z. absurd (ground (arith, z)), (idx, at, ltb→lt _ _ low, (s, h)))
      ]
    ]
  ]
]

-- Data that is copied at once, from an address whose section offset stays within 32 bits, is copied as
-- well in two pieces, the second from where the first ends, with the same object left.
pub copy_data-add :
    (n m addr : ℕ) (so so' : StaticObject) (bytes : Text)
    → (explode addr).section_offset + suc n < 2 ^ 32
    → copy_data (suc n + suc m) addr so ≡ ok (bytes, so')
    → (copy_data (suc n) addr so ≡ ok (take (suc n) bytes, so'))
      × (copy_data (suc m) (addr + suc n) so' ≡ ok (drop (suc n) bytes, so'))
copy_data-add n m addr so so' bytes small e =
    let (nonnull, (idx, at, low, (s, h))) = copied (n + suc m) addr so (bytes, so') (same ∙ e) in
    let offset = (explode addr).section_offset in
    let run : copy_in (suc n + suc m) offset idx so s ≡ ok (bytes, so') =
      sym (
        sym same
        ∙ copy_data-at (n + suc m) addr idx so s nonnull at low h
        ∙ ap (λ k. copy_in k offset idx so s) count)
      ∙ e in
    let (s', left, first, second) : Pieces (suc n) (suc m) offset idx so s (bytes, so') =
      rw (run, Yields) at (copy_in-Pieces (suc n) (suc m) offset idx so s) in
    let (off, sec) = explode-add addr (suc n) small in
    (
      copy_data-at n addr idx so s nonnull at low h ∙ first,
      copy_data-at m (addr + suc n) idx so' s' (λ z. absurd (omega (arith, z))) (sec ∙ at)
            (subst (λ (t : StaticObject). idx < length t.sections) (sym left)
              (subst (λ k. idx < k) (sym (length-set so.sections idx (some s'))) low))
            (subst (λ (t : StaticObject). get_or t.sections idx none ≡ some s') (sym left)
              (get_or-set_self so.sections idx (some s') none low))
          ∙ ap (λ k. copy_in (suc m) k idx so' s') off
          ∙ second,
    )
  where
    count : suc (n + suc m) ≡ suc n + suc m
    count = omega arith

    same : copy_data (suc (n + suc m)) addr so ≡ copy_data (suc n + suc m) addr so
    same = ap (λ k. copy_data k addr so) count
