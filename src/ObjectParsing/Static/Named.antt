-- ===== src/ObjectParsing/Static/Named.antt =====
-- `resolvePointers` of StaticObject.cpp and the names of addresses.
use bracelet.Prelude.{
  Yields, weaken, ℕ, zero, suc, ◌+◌, ◌-◌, ◌/◌, ◌%◌, ◌^◌, ◌<◌, ◌≡◌, inl, inr, refl, sym, ap, ◌∙◌,
  subst, true, false, none, some, List, [], ok, leb, ltb, ◌==◌, length, get_or, length-set,
  get_or-set_self, Option-cases, Bool-cases, Result-cases, ltb→lt, lt→ltb,
}
use bracelet.Edges.Bytes.{Text}
use bracelet.Edges.Table.{find}
use bracelet.ObjectParsing.Address.{explode, section_idx}
use bracelet.ObjectParsing.Static.{
  LlvmSection, Section, Names, StaticObject, symbol_name, relocation_sections, relocations,
  section_at, put_section, resolve_from, resolve_in, resolve_words, resolve_pointers,
}
use bracelet.ObjectParsing.Static.Kept.{
  set_again, Extends, AreExternNamed, AreNamed, AreNamed-Extends, Kept, Kept-refl, Read,
  relocation_sections-Kept,
}
use bracelet.ObjectParsing.Static.Resolve.{ArePointers, resolve_from-ArePointers, get_or-set}

-- Every address in the relocations that were read has a name, and so has every extern symbol's.
pub record IsNamed (so : StaticObject) : Type 0 where
  pub known :
      (idx : ℕ) (s : Section) (rs : List (ℕ × ℕ))
      → get_or so.sections idx none ≡ some s
      → s.lazy_relocations ≡ some rs
      → AreNamed rs so.names
  pub extern : AreExternNamed so.extern_symbols_section so.names

module _ (so : StaticObject) (named : IsNamed so) where
  -- The relocations of the section `s` at `idx`, and what the section is afterwards.
  abbrev Cached : Section → List (ℕ × ℕ) × Section × Names → Type 0
  Cached s q =
      Kept so.extern_symbols_section so.names q.2
      × AreNamed q.0 q.2
      × (q.1 ≡ record s { lazy_relocations = some q.0 })

  relocations-Cached :
      (idx : ℕ) (reference : LlvmSection) (s : Section)
      → get_or so.sections idx none ≡ some s
      → Yields (Cached s) (relocations so reference s)
  unfolding relocations
  relocations-Cached idx reference s at = elim (Option-cases s.lazy_relocations) [
    | inr (rs, e) ↦
        rw (e, relocations, Yields)
          (Kept-refl _ so.names named.extern, named.known idx s rs at e, kept s rs e)
    | inl e ↦
        elim (Result-cases (
          relocation_sections so.extern_symbols_section reference.range.index so.obj [] so.names)) [
            | inr (why, k) ↦ rw (e, relocations, k, Yields) tt
            | inl (q, k) ↦
                let g : Read so.extern_symbols_section so.names q =
                  rw (k, Yields) at
                    (relocation_sections-Kept so.extern_symbols_section reference.range.index so.obj
                      [] so.names named.extern tt) in
                rw (e, relocations, k, Yields) (g.0, g.1, refl)
          ]
  ]
    where
      kept :
          (s : Section) (rs : List (ℕ × ℕ))
          → s.lazy_relocations ≡ some rs
          → s ≡ record s { lazy_relocations = some rs }
      kept s rs e = ap (λ known. record s { lazy_relocations = known }) e

  -- What a successful `resolvePointers` leaves.
  abbrev Resolved : ℕ → ℕ → List ℕ × StaticObject → Type 0
  Resolved n addr q =
      IsNamed q.1
      × ((p : ℕ) (name : Text)
          → symbol_name p so.names ≡ ok name
          → symbol_name p q.1.names ≡ ok name)
      × ArePointers q.1.names q.0
      × (resolve_words n addr q.1 ≡ ok q)
      × (q.1.bytes_in_address ≡ so.bytes_in_address)

  -- The object after the relocations `rs` of the section at `idx` were read.
  abbrev cached : Section → List (ℕ × ℕ) → Section
  cached s rs = record s { lazy_relocations = some rs }

  abbrev after : ℕ → Section → List (ℕ × ℕ) → Names → StaticObject
  after idx s rs names = record (put_section idx (cached s rs) so) { names = names }

  after-IsNamed :
      (idx : ℕ) (s : Section) (rs : List (ℕ × ℕ)) (names : Names)
      → idx < length so.sections
      → Kept so.extern_symbols_section so.names names
      → AreNamed rs names
      → IsNamed (after idx s rs names)
  after-IsNamed idx s rs names l kept all = record {
    known = λ j t ts h k. elim (get_or-set so.sections idx j (some (cached s rs)) none l) [
      | inl (same, e) ↦
          let it : cached s rs ≡ t = cc (e, h) in
          let list : rs ≡ ts = cc (ap (λ u. u.lazy_relocations) it, k) in
          subst (λ u. AreNamed u names) list all
      | inr e ↦ AreNamed-Extends ts so.names names kept.extends (named.known j t ts (sym e ∙ h) k)
    ];
    extern = kept.extern;
  }

  -- Asked again, the section at `idx` gives the same.
  resolve_in-after :
      (n offset idx : ℕ) (s : Section) (reference : LlvmSection) (rs : List (ℕ × ℕ)) (names : Names)
      (ps : List ℕ)
      → leb offset reference.range.size ≡ true
      → leb n ((reference.range.size - offset) / 8) ≡ true
      → resolve_from reference.is_bss rs n ((reference.range.start + offset) % 2 ^ 64) ≡ ok ps
      → resolve_in n offset idx (cached s rs) (after idx s rs names) reference
        ≡ ok (ps, after idx s rs names)
  unfolding resolve_in relocations
  resolve_in-after n offset idx s reference rs names ps inside short e =
      rw (inside, resolve_in, short, relocations, e)
        (ap (λ sections. ok (ps, record so { sections = sections; names = names }))
          (set_again so.sections idx (some (cached s rs)) (some (cached s rs))))

  -- What a success of `resolve_in` leaves.
  abbrev ResolvedIn : ℕ → ℕ → ℕ → Section → LlvmSection → List ℕ × StaticObject → Type 0
  ResolvedIn n offset idx s reference q =
      IsNamed q.1
      × ((p : ℕ) (name : Text)
          → symbol_name p so.names ≡ ok name
          → symbol_name p q.1.names ≡ ok name)
      × ArePointers q.1.names q.0
      × ((rs : List (ℕ × ℕ)) × (q.1 ≡ after idx s rs q.1.names)
          × (resolve_in n offset idx (cached s rs) q.1 reference ≡ ok q))

  symbol_name-Extends :
      (n n' : Names)
      → Extends n n'
      → (p : ℕ) (name : Text) → symbol_name p n ≡ ok name
      → symbol_name p n' ≡ ok name
  unfolding symbol_name
  symbol_name-Extends n n' more p name h = elim (Option-cases (find ◌==◌ p n.symbol_names)) [
    | inl missing ↦ absurd (cc (rw (symbol_name, missing) at h))
    | inr (name', there) ↦ rw (symbol_name, more p name' there) (rw (symbol_name, there) at h)
  ]

  resolve_in-Resolved :
      (n offset idx : ℕ) (s : Section) (reference : LlvmSection)
      → get_or so.sections idx none ≡ some s
      → idx < length so.sections
      → Yields (ResolvedIn n offset idx s reference) (resolve_in n offset idx s so reference)
  unfolding resolve_in
  resolve_in-Resolved n offset idx s reference h low =
      elim (Bool-cases (leb offset reference.range.size)) [
        | inr e ↦ rw (e, resolve_in, Yields) tt
        | inl inside ↦ elim (Bool-cases (leb n ((reference.range.size - offset) / 8))) [
          | inr e ↦ rw (inside, resolve_in, e, Yields) tt
          | inl short ↦ elim (Result-cases (relocations so reference s)) [
            | inr (why, k) ↦ rw (inside, resolve_in, short, k, Yields) tt
            | inl (q, k) ↦
                let (kept, all, shape) : Cached s q =
                  rw (k, Yields) at (relocations-Cached idx reference s h) in
                let base = (reference.range.start + offset) % 2 ^ 64 in
                elim (Result-cases (resolve_from reference.is_bss q.0 n base)) [
                  | inr (why, l) ↦ rw (inside, resolve_in, short, k, l, Yields) tt
                  | inl (ps, l) ↦
                      rw (inside, resolve_in, short, k, l, shape, Yields)
                        (
                          after-IsNamed idx s q.0 q.2 low kept all,
                          symbol_name-Extends so.names q.2 kept.extends,
                          rw (l, Yields) at
                              (resolve_from-ArePointers reference.is_bss q.0 q.2 n base all),
                          (
                            q.0,
                            refl,
                            resolve_in-after n offset idx s reference q.0 q.2 ps inside short l,
                          ),
                        )
                ]
          ]
        ]
      ]

  resolve_words-at :
      (n addr idx : ℕ) (t : StaticObject) (s : Section) (reference : LlvmSection)
      → (addr == 0) ≡ false
      → section_idx (explode addr) ≡ ok idx
      → idx < length t.sections
      → get_or t.sections idx none ≡ some s
      → s.reference ≡ some reference
      → resolve_words (suc n) addr t
        ≡ resolve_in (suc n) (explode addr).section_offset idx s t reference
  unfolding resolve_words section_at
  resolve_words-at n addr idx t s reference nonnull at low h r =
      rw (nonnull, resolve_words, at, section_at, lt→ltb _ _ low, h, r)

  again :
      (n addr idx : ℕ) (s : Section) (reference : LlvmSection) (q : List ℕ × StaticObject)
      → (addr == 0) ≡ false
      → section_idx (explode addr) ≡ ok idx
      → idx < length so.sections
      → s.reference ≡ some reference
      → ResolvedIn (suc n) (explode addr).section_offset idx s reference q
      → Resolved (suc n) addr q
  again n addr idx s reference q nonnull at low r (a, b, c, (rs, shape, e)) = (
    a,
    b,
    c,
    resolve_words-at n addr idx q.1 (cached s rs) reference nonnull at
          (subst (λ (t : StaticObject). idx < length t.sections) (sym shape)
            (subst (λ m. idx < m) (sym (length-set so.sections idx (some (cached s rs)))) low))
          (subst (λ (t : StaticObject). get_or t.sections idx none ≡ some (cached s rs)) (sym shape)
            (get_or-set_self so.sections idx (some (cached s rs)) none low))
          r
        ∙ e,
    ap (λ (t : StaticObject). t.bytes_in_address) shape,
  )

  resolve_words-Resolved : (n addr : ℕ) → Yields (Resolved n addr) (resolve_words n addr so)
  unfolding resolve_words section_at
  resolve_words-Resolved zero addr = (named, (λ p name h. h), tt, refl, refl)
  resolve_words-Resolved (suc n) addr = elim (Bool-cases (addr == 0)) [
    | inl e ↦ rw (e, Yields, resolve_words) tt
    | inr nonnull ↦ elim (Result-cases (section_idx (explode addr))) [
      | inr (why, e) ↦ rw (nonnull, Yields, resolve_words, e) tt
      | inl (idx, at) ↦ elim (Bool-cases (ltb idx (length so.sections))) [
        | inr e ↦ rw (nonnull, Yields, resolve_words, at, section_at, e) tt
        | inl low ↦ elim (Option-cases (get_or so.sections idx none)) [
          | inl e ↦ rw (nonnull, Yields, resolve_words, at, section_at, low, e) tt
          | inr (s, h) ↦ elim (Option-cases s.reference) [
            | inl e ↦ rw (nonnull, Yields, resolve_words, at, section_at, low, h, e) tt
            | inr (reference, r) ↦
                let l = ltb→lt _ _ low in
                rw (resolve_words-at n addr idx so s reference nonnull at l h r) (
                  weaken _ (λ q. again n addr idx s reference q nonnull at l r)
                    (resolve_in-Resolved (suc n) (explode addr).section_offset idx s reference h l))
          ]
        ]
      ]
    ]
  ]

-- A successful `resolvePointers` on an object in which the relocations that were read have names: it
-- leaves such an object, keeps every symbol's name, and returns only null pointers and
-- addresses that have a name from then on; asked again, it returns the same pointers and changes
-- nothing.
pub resolve_pointers-IsNamed :
    (n addr : ℕ) (so so' : StaticObject) (ps : List ℕ)
    → IsNamed so
    → resolve_pointers n addr so ≡ ok (ps, so')
    → IsNamed so'
      × ((p : ℕ) (name : Text)
          → symbol_name p so.names ≡ ok name
          → symbol_name p so'.names ≡ ok name)
      × ArePointers so'.names ps
      × (resolve_pointers n addr so' ≡ ok (ps, so'))
unfolding resolve_pointers
resolve_pointers-IsNamed n addr so so' ps named e = elim (Bool-cases (8 == so.bytes_in_address)) [
  | inr other ↦ absurd (cc (rw (resolve_pointers, other) at e))
  | inl eight ↦
      let run : resolve_words n addr so ≡ ok (ps, so') = rw (resolve_pointers, eight) at e in
      let (names, kept, pointers, again, bytes) =
        rw (run, Yields) at (resolve_words-Resolved so named n addr) in
      let eight' : (8 == so'.bytes_in_address) ≡ true = ap (λ (b : ℕ). 8 == b) bytes ∙ eight in
      (names, kept, pointers, rw (resolve_pointers, eight') again)
]
