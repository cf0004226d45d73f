-- ===== src/PointsTo/Trace/Chain.antt =====
-- Lemmas on the chains of checks in `checkPointsToAgainstTrace` of src/PointsTo/PointsTo.cpp.
use bracelet.Prelude.{
  ◌≡◌, inl, inr, refl, ap, ◌∙◌, List, [], ◌∷◌, Result, ok, err, for_each, Result-cases,
}
use bracelet.PointsTo.Trace.{Check}

-- A chain of checks leaves no edge missing exactly when each of its parts adds none.
pub record IsFaithful {A : Type 0} (f : A → Check → Result Check) (P : A → Type 0) : Type 0 where
  pub passes : (x : A) (c : Check) → P x → (d : Check) × (f x c ≡ ok d) × (d.missing ≡ c.missing)
  pub only : (x : A) (c d : Check) → f x c ≡ ok d → d.missing ≡ [] → (c.missing ≡ []) × P x

abbrev pub All : {A : Type 0} → (A → Type 0) → List A → Type 0
All P [] = Unit {0}
All P (x ∷ xs) = P x × All P xs

pub All-map :
    {A : Type 0} (P Q : A → Type 0) → ((x : A) → P x → Q x) → (xs : List A) → All P xs → All Q xs
All-map P Q f [] all = tt
All-map P Q f (x ∷ xs) (p, all) = (f x p, All-map P Q f xs all)

pub for_each-passes :
    {A : Type 0} (f : A → Check → Result Check) (P : A → Type 0) (xs : List A) (c : Check)
    → IsFaithful f P
    → All P xs
    → (d : Check) × (for_each f xs c ≡ ok d) × (d.missing ≡ c.missing)
for_each-passes f P [] c h all = (c, refl, refl)
for_each-passes f P (x ∷ xs) c h (p, all) =
    let (d, run, same) = h.passes x c p in
    let (e, more, same') = for_each-passes f P xs d h all in (e, rw run more, same' ∙ same)

pub for_each-only :
    {A : Type 0} (f : A → Check → Result Check) (P : A → Type 0) (xs : List A) (c d : Check)
    → IsFaithful f P
    → for_each f xs c ≡ ok d
    → d.missing ≡ []
    → (c.missing ≡ []) × All P xs
for_each-only f P [] c d h run none_missing =
    let same : c ≡ d = cc run in (ap (λ x. x.missing) same ∙ none_missing, tt)
for_each-only f P (x ∷ xs) c d h run none_missing = elim (Result-cases (f x c)) [
  | inr (why, failed) ↦ absurd (let bad : err why ≡ ok d = rw failed at run in cc bad)
  | inl (b, first) ↦
      let (middle, all) = for_each-only f P xs b d h (rw first at run) none_missing in
      let (start, p) = h.only x c b first middle in (start, (p, all))
]

pub IsFaithful-for_each :
    {A : Type 0} (f : A → Check → Result Check) (P : A → Type 0)
    → IsFaithful f P
    → IsFaithful (for_each f) (All P)
IsFaithful-for_each f P h = record {
  passes = λ xs c all. for_each-passes f P xs c h all;
  only = λ xs c d run none_missing. for_each-only f P xs c d h run none_missing;
}
