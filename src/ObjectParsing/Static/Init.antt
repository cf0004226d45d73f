-- ===== src/ObjectParsing/Static/Init.antt =====
-- `StaticObject::init`: the sections of a new object.
use bracelet.Prelude.{
  ℕ, zero, suc, ◌+◌, ◌-◌, ◌%◌, ◌^◌, ◌≡◌, inl, inr, refl, Bool, true, false, Option, none, some,
  List, [], ◌∷◌, ◌++◌, Result, Error, ok, err, ◌>>=◌, ◌>>◌, ensure, leb, if◌then◌else◌, length,
  get_or, set, replicate, Bool-cases, Result-cases,
}
use bracelet.Edges.Table.{find}
use bracelet.ObjectParsing.Static.{
  LlvmSection, Section, StaticObject, section_of, extern_section_name, resize_sections,
  add_sections, init,
}
use bracelet.ObjectParsing.Static.Named.{IsNamed}

-- No section has relocations that were read.
abbrev IsFresh : List (Option Section) → Type 0
IsFresh [] = Unit {0}
IsFresh (none ∷ ss) = IsFresh ss
IsFresh (some s ∷ ss) = (s.lazy_relocations ≡ none) × IsFresh ss

IsFresh-append : (xs ys : List (Option Section)) → IsFresh xs → IsFresh ys → IsFresh (xs ++ ys)
IsFresh-append [] ys h k = k
IsFresh-append (none ∷ xs) ys h k = IsFresh-append xs ys h k
IsFresh-append (some s ∷ xs) ys (e, h) k = (e, IsFresh-append xs ys h k)

IsFresh-replicate : (n : ℕ) → IsFresh (replicate n none)
IsFresh-replicate zero = tt
IsFresh-replicate (suc n) = IsFresh-replicate n

IsFresh-set :
    (xs : List (Option Section)) (i : ℕ) (s : Section)
    → s.lazy_relocations ≡ none
    → IsFresh xs
    → IsFresh (set xs i (some s))
IsFresh-set [] i s e h = tt
IsFresh-set (none ∷ xs) zero s e h = (e, h)
IsFresh-set (some t ∷ xs) zero s e h = (e, h.1)
IsFresh-set (none ∷ xs) (suc i) s e h = IsFresh-set xs i s e h
IsFresh-set (some t ∷ xs) (suc i) s e h = (h.0, IsFresh-set xs i s e h.1)

get_or-IsFresh :
    (xs : List (Option Section)) (i : ℕ) (s : Section)
    → IsFresh xs
    → get_or xs i none ≡ some s
    → s.lazy_relocations ≡ none
get_or-IsFresh [] i s h e = absurd (cc e)
get_or-IsFresh (none ∷ xs) zero s h e = absurd (cc e)
get_or-IsFresh (some t ∷ xs) zero s h e = let same : t ≡ s = cc e in rw (← same) h.0
get_or-IsFresh (none ∷ xs) (suc i) s h e = get_or-IsFresh xs i s h e
get_or-IsFresh (some t ∷ xs) (suc i) s h e = get_or-IsFresh xs i s h.1 e

sized-IsFresh :
    (xs : List (Option Section)) (n : ℕ)
    → IsFresh xs
    → IsFresh (if leb (length xs) n then resize_sections n xs else xs)
sized-IsFresh xs n h = elim (Bool-cases (leb (length xs) n)) [
  | inl e ↦ rw e (IsFresh-append xs _ h (IsFresh-replicate (n - length xs)))
  | inr e ↦ rw e h
]

tested :
    {A B : Type 0} (b : Bool) (e : Error) (m : Result A) (k : A → Result B) (y : B)
    → (ensure b e >> (m >>= k)) ≡ ok y
    → (a : A) × (k a ≡ ok y)
tested true e (ok a) k y h = (a, h)
tested true e (err why) k y h = absurd (cc h)
tested false e m k y h = absurd (cc h)

add_sections-IsFresh :
    (obj : List LlvmSection) (xs ys : List (Option Section))
    → IsFresh xs
    → add_sections obj xs ≡ ok ys
    → IsFresh ys
unfolding add_sections
add_sections-IsFresh [] xs ys h e = let same : xs ≡ ys = cc e in rw (← same) h
add_sections-IsFresh (s ∷ obj) xs ys h e =
    let idx = s.range.index in
    let sized = if leb (length xs) (idx + 1) then resize_sections (idx + 1) xs else xs in
    let fresh : IsFresh sized = sized-IsFresh xs (idx + 1) h in
    let (name, rest) =
      tested _ _ s.name (λ name. add_sections obj (set sized idx (some (section_of name (some s)))))
        ys e in
    add_sections-IsFresh obj _ ys (IsFresh-set sized idx (section_of name (some s)) refl fresh) rest

-- An object that `init` returns has no relocations that were read and no extern symbols: those it has
-- have names.
pub init-IsNamed :
    (bytes : ℕ) (obj : List LlvmSection) (so : StaticObject) → init bytes obj ≡ ok so → IsNamed so
unfolding init find
init-IsNamed bytes obj so e = elim (Result-cases (add_sections obj [])) [
  | inr (why, h) ↦ absurd (cc (rw (init, h) at e))
  | inl (ss, h) ↦
      let all = ss ++ some (section_of extern_section_name none) ∷ [] in
      let made : ◌≡◌ {A = StaticObject}
          (record {
            obj = obj;
            bytes_in_address = bytes;
            sections = all;
            extern_symbols_section = length ss % 2 ^ 32;
            names = record { extern_symbol_indices = []; symbol_names = [] };
          })
          so =
        cc (rw (init, h) at e) in
      let fresh : IsFresh all =
        IsFresh-append ss _ (add_sections-IsFresh obj [] ss tt h) (refl, tt) in
      rw (← made) (record {
        known = λ idx s rs at known. absurd (cc (get_or-IsFresh all idx s fresh at, known));
        extern = λ name i out found. absurd (cc found);
      })
]
