-- ===== src/ObjectParsing/Static/Kept.antt =====
-- Lemmas on `Section::relocations` of StaticObject.cpp and the tables of names.
use bracelet.Prelude.{
  ℕ, zero, suc, ◌%◌, ◌^◌, ◌≡◌, ◌⊎◌, inl, inr, refl, ap, Bool, true, Option, none, some, List, [],
  ◌∷◌, ◌++◌, Result, ok, err, arith, leb, ◌==◌, ==_refl, length, set, Option-cases, Bool-cases,
  Result-cases, Yields,
}
use bracelet.Edges.Bytes.{Text, equal}
use bracelet.Edges.Table.{find}
use bracelet.ObjectParsing.Address.{null, set_section_idx, SectionRange}
use bracelet.ObjectParsing.Static.{
  LlvmSymbol, LlvmRelocation, LlvmSection, Names, extern_address, add_extern, name_address,
  resolve_extern, resolve_local, resolve_symbol, read_relocations, relocation_sections, targets,
  target_offset,
}

pub set_again : {A : Type 0} (xs : List A) (i : ℕ) (v w : A) → set (set xs i v) i w ≡ set xs i w
set_again [] i v w = refl
set_again (x ∷ xs) zero v w = refl
set_again (x ∷ xs) (suc i) v w = ap (◌∷◌ x) (set_again xs i v w)

module _ {K V : Type 0} (same : K → K → Bool) where
  find_old :
      (k : K) (m l : List (K × V)) {v : V} → find same k m ≡ some v → find same k (m ++ l) ≡ some v
  unfolding find
  find_old k [] l h = absurd (cc h)
  find_old k ((j, w) ∷ m) l {v} h = ground (arith, find_old k m l {v = v})

  find_last :
      (k : K) (m : List (K × V)) (v : V)
      → same k k ≡ true
      → find same k m ≡ none
      → find same k (m ++ (k, v) ∷ []) ≡ some v
  unfolding find
  find_last k [] v r h = rw r
  find_last k ((j, w) ∷ m) v r h = ground (arith, find_last k m v r)

  find_either :
      (k j : K) (m : List (K × V)) (v : V) {w : V}
      → find same k (m ++ (j, v) ∷ []) ≡ some w
      → (find same k m ≡ some w) ⊎ (w ≡ v)
  unfolding find
  find_either k j [] v h = ground arith
  find_either k j ((i, u) ∷ m) v {w} h = ground (arith, find_either k j m v {w = w})

-- An address with a name, and one table of names after another: no name is changed.
abbrev pub Named : ℕ → Names → Type 0
Named out names = (name : Text) × (find ◌==◌ out names.symbol_names ≡ some name)

abbrev pub Extends : Names → Names → Type 0
Extends n n' =
    (out : ℕ) (name : Text)
    → find ◌==◌ out n.symbol_names ≡ some name
    → find ◌==◌ out n'.symbol_names ≡ some name

-- The addresses of all extern symbols that have a number have names.
abbrev pub AreExternNamed : ℕ → Names → Type 0
AreExternNamed sec n =
    (name : Text) (i out : ℕ)
    → find equal name n.extern_symbol_indices ≡ some i
    → extern_address sec i ≡ ok out
    → (name' : Text) × (find ◌==◌ out n.symbol_names ≡ some name')

abbrev pub AreNamed : List (ℕ × ℕ) → Names → Type 0
AreNamed [] n = Unit {0}
AreNamed ((offset, out) ∷ rs) n =
    ((name : Text) × (find ◌==◌ out n.symbol_names ≡ some name)) × AreNamed rs n

pub AreNamed-Extends :
    (rs : List (ℕ × ℕ)) (n n' : Names) → Extends n n' → AreNamed rs n → AreNamed rs n'
AreNamed-Extends [] n n' more h = tt
AreNamed-Extends ((offset, out) ∷ rs) n n' more (a, h) =
    ((a.0, more out a.0 a.1), AreNamed-Extends rs n n' more h)

AreNamed-append :
    (rs : List (ℕ × ℕ)) (offset out : ℕ) (n : Names)
    → AreNamed rs n
    → Named out n
    → AreNamed (rs ++ (offset, out) ∷ []) n
AreNamed-append [] offset out n h a = (a, tt)
AreNamed-append ((o, p) ∷ rs) offset out n (b, h) a = (b, AreNamed-append rs offset out n h a)

module _ (sec : ℕ) where
  pub record Kept (n n' : Names) : Type 0 where
    pub extends : Extends n n'
    pub extern : AreExternNamed sec n'

  Kept-trans : (n n' n'' : Names) → Kept n n' → Kept n' n'' → Kept n n''
  Kept-trans n n' n'' a b = record {
    extends = λ out name h. b.extends out name (a.extends out name h);
    extern = b.extern;
  }

  pub Kept-refl : (n : Names) → AreExternNamed sec n → Kept n n
  Kept-refl n x = record { extends = λ out name h. h; extern = x }

  abbrev pub Good : Names → ℕ × Names → Type 0
  Good n q = Kept n q.1 × Named q.0 q.1

  add_extern-Kept :
      (name : Text) (n : Names) → AreExternNamed sec n → Yields (Good n) (add_extern sec name n)
  unfolding add_extern
  add_extern-Kept name n x =
      let i = length n.extern_symbol_indices % 2 ^ 32 in
      elim (Result-cases (extern_address sec i)) [
        | inr (why, h) ↦ rw (h, add_extern, Yields) tt
        | inl (out, h) ↦ elim (Option-cases (find ◌==◌ out n.symbol_names)) [
          | inr (taken, k) ↦ rw (h, add_extern, k, Yields) tt
          | inl free ↦
              let here = find_last ◌==◌ out n.symbol_names name (==_refl out) free in
              rw (h, add_extern, free, Yields)
                (
                  record {
                    extends = λ p m k. find_old ◌==◌ p n.symbol_names _ k;
                    extern = λ name' j p k l.
                        elim (find_either equal name' name n.extern_symbol_indices i k) [
                          | inl old ↦
                              let (m, at) = x name' j p old l in
                              (m, find_old ◌==◌ p n.symbol_names _ at)
                          | inr last ↦
                              let there : p ≡ out = cc (last, l, h) in (name, rw there here)
                        ];
                  },
                  (name, here),
                )
        ]
      ]

  resolve_extern-Kept :
      (name : Text) (n : Names) → AreExternNamed sec n → Yields (Good n) (resolve_extern sec name n)
  unfolding resolve_extern
  resolve_extern-Kept name n x = elim (Option-cases (find equal name n.extern_symbol_indices)) [
    | inr (i, e) ↦ elim (Result-cases (extern_address sec i)) [
      | inr (why, h) ↦ rw (e, resolve_extern, h, Yields) tt
      | inl (out, h) ↦ rw (e, resolve_extern, h, Yields) (Kept-refl n x, x name i out e h)
    ]
    | inl e ↦ rw (e, resolve_extern, Yields) (add_extern-Kept name n x)
  ]

  name_address-Kept :
      (out : ℕ) (name : Result Text) (n : Names)
      → AreExternNamed sec n
      → Yields (Good n) (name_address out name n)
  unfolding name_address
  name_address-Kept out name n x = elim (Option-cases (find ◌==◌ out n.symbol_names)) [
    | inr (m, k) ↦ rw (k, name_address, Yields) (Kept-refl n x, (m, k))
    | inl k ↦ elim (Result-cases name) [
      | inr (why, l) ↦ rw (k, name_address, l, Yields) tt
      | inl (m, l) ↦
          rw (k, name_address, l, Yields)
            (
              record {
                extends = λ p m' k'. find_old ◌==◌ p n.symbol_names _ k';
                extern = λ name' j p k' l'.
                    let (m', at) = x name' j p k' l' in (m', find_old ◌==◌ p n.symbol_names _ at);
              },
              (m, find_last ◌==◌ out n.symbol_names m (==_refl out) k),
            )
    ]
  ]

  resolve_local-Kept :
      (symbol_addr : ℕ) (s : SectionRange) (addend : Option ℕ) (name : Result Text) (n : Names)
      → AreExternNamed sec n
      → Yields (Good n) (resolve_local symbol_addr s addend name n)
  unfolding resolve_local
  resolve_local-Kept symbol_addr s addend name n x =
      elim (Result-cases (set_section_idx s.index null)) [
        | inr (why, h) ↦ rw (h, resolve_local, Yields) tt
        | inl (e, h) ↦ elim (Bool-cases (leb (target_offset symbol_addr s addend) s.size)) [
          | inl k ↦ rw (h, resolve_local, k) (name_address-Kept _ name n x)
          | inr k ↦ rw (h, resolve_local, k, Yields) tt
        ]
      ]

  resolve_symbol-Kept :
      (symbol : LlvmSymbol) (addend : Option ℕ) (n : Names)
      → AreExternNamed sec n
      → Yields (Good n) (resolve_symbol sec symbol addend n)
  unfolding resolve_symbol
  resolve_symbol-Kept symbol addend n x = elim (Result-cases symbol.value_address) [
    | inr (why, h) ↦ rw (h, resolve_symbol, Yields) tt
    | inl (a, h) ↦ elim (Result-cases symbol.in_section) [
      | inr (why, k) ↦ rw (h, resolve_symbol, k, Yields) tt
      | inl (none, k) ↦ elim (Result-cases symbol.name) [
        | inr (why, l) ↦ rw (h, resolve_symbol, k, l, Yields) tt
        | inl (name, l) ↦ rw (h, resolve_symbol, k, l) (resolve_extern-Kept name n x)
      ]
      | inl (some s, k) ↦ rw (h, resolve_symbol, k) (resolve_local-Kept a s addend symbol.name n x)
    ]
  ]

  -- The relocations that are read after some others.
  abbrev pub Read : Names → List (ℕ × ℕ) × Names → Type 0
  Read n q = Kept n q.1 × AreNamed q.0 q.1

  Read-after :
      (n n' : Names) (r : Result (List (ℕ × ℕ) × Names))
      → Kept n n'
      → Yields (Read n') r
      → Yields (Read n) r
  Read-after n n' (ok q) a (b, c) = (Kept-trans n n' q.1 a b, c)
  Read-after n n' (err e) a b = tt

  read_relocations-Kept :
      (rs : List LlvmRelocation) (known : List (ℕ × ℕ)) (n : Names)
      → AreExternNamed sec n
      → AreNamed known n
      → Yields (Read n) (read_relocations sec rs known n)
  unfolding read_relocations
  read_relocations-Kept [] known n x h = (Kept-refl n x, h)
  read_relocations-Kept (r ∷ rs) known n x h = elim (Option-cases (find ◌==◌ r.offset known)) [
    | inr (twice, e) ↦ rw (e, read_relocations, Yields) tt
    | inl e ↦ elim (Option-cases r.symbol) [
      | inl k ↦ rw (e, read_relocations, k) (read_relocations-Kept rs known n x h)
      | inr (symbol, k) ↦ elim (Result-cases (resolve_symbol sec symbol r.addend n)) [
        | inr (why, l) ↦ rw (e, read_relocations, k, l, Yields) tt
        | inl (q, l) ↦
            let g : Good n q = rw (l, Yields) at (resolve_symbol-Kept symbol r.addend n x) in
            rw (e, read_relocations, k, l)
              (Read-after n q.1 _ g.0 (
                read_relocations-Kept rs _ q.1 g.0.extern (
                  AreNamed-append known r.offset q.0 q.1
                    (AreNamed-Extends known n q.1 g.0.extends h) g.1)))
      ]
    ]
  ]

  pub relocation_sections-Kept :
      (index : ℕ) (ss : List LlvmSection) (known : List (ℕ × ℕ)) (n : Names)
      → AreExternNamed sec n
      → AreNamed known n
      → Yields (Read n) (relocation_sections sec index ss known n)
  unfolding relocation_sections
  relocation_sections-Kept index [] known n x h = (Kept-refl n x, h)
  relocation_sections-Kept index (s ∷ ss) known n x h = elim (Result-cases s.relocated) [
    | inr (why, e) ↦ rw (e, relocation_sections, Yields) tt
    | inl (target, e) ↦ elim (Bool-cases (targets target index)) [
      | inr k ↦ rw (e, relocation_sections, k) (relocation_sections-Kept index ss known n x h)
      | inl k ↦ elim (Result-cases (read_relocations sec s.relocations known n)) [
        | inr (why, l) ↦ rw (e, relocation_sections, k, l, Yields) tt
        | inl (q, l) ↦
            let g : Read n q =
              rw (l, Yields) at (read_relocations-Kept s.relocations known n x h) in
            rw (e, relocation_sections, k, l)
              (Read-after n q.1 _ g.0 (relocation_sections-Kept index ss q.0 q.1 g.0.extern g.1))
      ]
    ]
  ]
