-- ===== src/ObjectParsing/Coredump/Walk.antt =====
-- `walkSections` of CoredumpObject.cpp and the order of the sections.
use bracelet.Prelude.{
  ℕ, suc, ◌+◌, ◌==◌, ◌≢◌, none, some, drop, arith, Bool-cases, Option-cases, inl, inr, IsIn, ◌≡◌,
  refl, sym, ◌∙◌, List, [], ◌∷◌, ◌++◌, map, Result, for_each, bind_assoc, bind_ext, for_each-append,
}
use bracelet.Edges.Bytes.{Text}
use bracelet.Edges.Section.{Section}
use bracelet.BraceletEdges.Locations.{find_from}
use bracelet.ObjectParsing.Coredump.{
  SbSection, SbSections, strip_prefix, no_sections, one_section, walk_sections, walk_target,
  section_of, visit_sections,
}

-- A section, what is below it, and what comes after it.
abbrev preorder : SbSections → List SbSection
preorder no_sections = []
preorder (one_section section subsections rest) = section ∷ (preorder subsections ++ preorder rest)

-- The sections of the modules, in order.
abbrev pub all_sections : List SbSections → List SbSection
all_sections [] = []
all_sections (m ∷ modules) = preorder m ++ all_sections modules

-- What is left of a name: what stands behind its first ']', or all of it if it has none; ']' is 93.
pub data IsStripped : Text → Text → Type 0 where
  behind : (prefix rest : Text) → ¬ IsIn 93 prefix → IsStripped (prefix ++ 93 ∷ rest) rest
  whole : (name : Text) → ¬ IsIn 93 name → IsStripped name name

-- The sections under their stripped names, at their load addresses and with their sizes.
abbrev pub AreStripped : List SbSection → List Section → Type 0
AreStripped [] [] = Unit {0}
AreStripped [] (t ∷ ts) = ⊥
AreStripped (s ∷ ss) [] = ⊥
AreStripped (s ∷ ss) (t ∷ ts) =
    IsStripped s.name t.name
    × (t.start ≡ s.load_address)
    × (t.size ≡ s.byte_size)
    × AreStripped ss ts

strip_more :
    (x : ℕ) (name rest : Text)
    → x ≢ 93
    → IsStripped name rest
    → (pos : ℕ) → find_from 93 0 name ≡ some pos
    → IsStripped (x ∷ name) rest
unfolding find_from
strip_more x name rest ne (behind prefix r fresh) pos found =
    behind (x ∷ prefix) r (λ h. elim h [ inl same ↦ ne (sym same) | inr later ↦ fresh later ])
strip_more x name rest ne (whole n fresh) pos found = absurd (fresh (find_from-IsIn n pos found))
  where
    find_from-IsIn : (xs : Text) (i : ℕ) → find_from 93 0 xs ≡ some i → IsIn 93 xs
    find_from-IsIn [] i h = absurd (cc h)
    find_from-IsIn (y ∷ ys) i h = elim (Bool-cases (y == 93)) [
      | inl here ↦ inl (ground (arith, here))
      | inr other ↦ elim (Option-cases (find_from 93 0 ys)) [
        | inl missing ↦ absurd (cc (rw (other, missing) at h))
        | inr (j, more) ↦ inr (find_from-IsIn ys j more)
      ]
    ]

-- The search for ']' cuts the name at the first one.
find_from-IsStripped :
    (name : Text)
    → (find_from 93 0 name ≡ none → ¬ IsIn 93 name)
      × ((pos : ℕ) → find_from 93 0 name ≡ some pos → IsStripped name (drop (pos + 1) name))
unfolding find_from
find_from-IsStripped [] = ((λ h never. never), λ pos h. absurd (cc h))
find_from-IsStripped (x ∷ name) =
    let (missing, cut) = find_from-IsStripped name in
    elim (Bool-cases (x == 93)) [
      | inl here ↦
          let e : x ≡ 93 = ground (arith, here) in
          (
            λ h. absurd (cc (rw here at h)),
            λ pos h.
                let first : pos ≡ 0 = cc (rw here at h) in
                rw (first, e) (behind [] name (λ never. never)),
          )
      | inr other ↦
          let ne : x ≢ 93 = λ e. absurd (ground (arith, e, other)) in
          elim (Option-cases (find_from 93 0 name)) [
            | inl none_left ↦ (
              λ h i. elim i [ inl same ↦ ne (sym same) | inr later ↦ missing none_left later ],
              λ pos h. absurd (cc (rw (other, none_left) at h)),
            )
            | inr (at, found) ↦ (
              λ h. absurd (cc (rw (other, found) at h)),
              λ pos h.
                  let next : pos ≡ suc at = cc (rw (other, found) at h) in
                  let shift : suc at + 1 ≡ suc (at + 1) = omega arith in
                  rw (next, shift) (strip_more x name _ ne (cut at found) at found),
            )
          ]
    ]

strip_prefix-IsStripped : (name : Text) → IsStripped name (strip_prefix name)
unfolding strip_prefix
strip_prefix-IsStripped name =
    let (missing, cut) = find_from-IsStripped name in
    elim (Option-cases (find_from 93 0 name)) [
      | inl h ↦ rw (h, strip_prefix) (whole name (missing h))
      | inr (pos, h) ↦ rw (h, strip_prefix) (cut pos h)
    ]

section_of-AreStripped : (ss : List SbSection) → AreStripped ss (map section_of ss)
section_of-AreStripped [] = tt
section_of-AreStripped (s ∷ ss) =
    (strip_prefix-IsStripped s.name, refl, refl, section_of-AreStripped ss)

for_each-map :
    {A B S : Type 0} (g : A → B) (f : B → S → Result S) (xs : List A) (s : S)
    → for_each f (map g xs) s ≡ for_each (λ x. f (g x)) xs s
for_each-map g f [] s = refl
for_each-map g f (x ∷ xs) s = bind_ext (f (g x) s) _ _ (λ t. for_each-map g f xs t)

walk_sections-for_each :
    {S : Type 0} (cb : SbSection → S → Result S) (m : SbSections) (s : S)
    → walk_sections cb m s ≡ for_each cb (preorder m) s
unfolding walk_sections
walk_sections-for_each cb no_sections s = refl
walk_sections-for_each cb (one_section x subs rest) s =
    bind_assoc (cb x s) _ _
    ∙ bind_ext (cb x s) _ _ (λ t. rw (walk_sections-for_each cb subs t) (
        bind_ext (for_each cb (preorder subs) t) _ _ (walk_sections-for_each cb rest)
        ∙ sym (for_each-append cb (preorder subs) (preorder rest) t)))

-- Each section with its name stripped by the code.
visit_sections-section_of :
    {S : Type 0} (callback : Section → S → Result S) (modules : List SbSections) (s : S)
    → visit_sections callback modules s
      ≡ for_each (λ x. callback (section_of x)) (all_sections modules) s
unfolding visit_sections walk_target
visit_sections-section_of callback [] s = refl
visit_sections-section_of callback (m ∷ modules) s =
    rw (walk_sections-for_each (λ x. callback (section_of x)) m s) (
      bind_ext _ _ _ (visit_sections-section_of callback modules)
      ∙ sym (for_each-append _ (preorder m) (all_sections modules) s))

-- Visiting the sections calls back, up to the first error, with each section of each module, a section
-- before its subsections and these before its next: at its load address and with its size, and under
-- what stands behind the first ']' of its name, or all of the name if it has no ']'.
pub visit_sections-for_each :
    {S : Type 0} (callback : Section → S → Result S) (modules : List SbSections) (s : S)
    → (sections : List Section) × AreStripped (all_sections modules) sections
      × (visit_sections callback modules s ≡ for_each callback sections s)
visit_sections-for_each callback modules s = (
  map section_of (all_sections modules),
  section_of-AreStripped (all_sections modules),
  visit_sections-section_of callback modules s
      ∙ sym (for_each-map section_of callback (all_sections modules) s),
)
