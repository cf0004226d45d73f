-- ===== src/BraceletReachability/Visitor/Next.antt =====
-- How the operations of `EdgeVisitor` in src/BraceletReachability/BraceletReachability.cpp change the
-- table of locals: the relation between a visitor and a later one, and its rules along a chain.
use bracelet.Prelude.{
  ℕ, suc, ◌+◌, ◌≤◌, ◌≡◌, refl, sym, ◌∙◌, subst, Bool, true, false, Option, none, some, List, [],
  ◌∷◌, ◌++◌, Result, ok, err, ◌>>=◌, arith, Yields, Yields-bind, weaken, for_each, if◌then◌else◌,
}
use bracelet.Edges.Node.{Node, of_local}
use bracelet.Edges.Kind.{Kind, Label, shape}
use bracelet.BraceletReachability.Constants.{Writers, push}
use bracelet.BraceletReachability.Constants.Later.{
  IsLater, IsLater-refl, IsLater-trans, IsCounted, push-IsLater,
}
use bracelet.BraceletReachability.Visitor.{
  EdgeVisitor, Inserted, in_writers, push_edge, insert_call,
}

-- The nodes of a table are locals of the function `this`, in increasing order of their numbers, from
-- `low` on and below `high`.
abbrev pub AreOrdered : ℕ → ℕ → List (ℕ × Node) → ℕ → Type 0
AreOrdered this low [] high = low ≤ high
AreOrdered this low ((a, n) ∷ entries) high =
    (i : ℕ) × (low ≤ i) × (of_local this i ≡ ok n) × AreOrdered this (suc i) entries high

pub AreOrdered-longer :
    (this low : ℕ) (entries : List (ℕ × Node)) (high high' : ℕ)
    → high ≤ high'
    → AreOrdered this low entries high
    → AreOrdered this low entries high'
AreOrdered-longer this low [] high high' le h = omega arith
AreOrdered-longer this low ((a, n) ∷ entries) high high' le (i, l, e, h) =
    (i, l, e, AreOrdered-longer this (suc i) entries high high' le h)

pub AreOrdered-append :
    (this low : ℕ) (entries : List (ℕ × Node)) (high a : ℕ) (n : Node)
    → of_local this high ≡ ok n
    → AreOrdered this low entries high
    → AreOrdered this low (entries ++ (a, n) ∷ []) (high + 1)
AreOrdered-append this low [] high a n e h = (high, h, e, omega arith)
AreOrdered-append this low ((b, m) ∷ entries) high a n e (i, l, e', h) =
    (i, l, e', AreOrdered-append this (suc i) entries high a n e h)

-- The table is the given entries and then locals from `k` on, in the order of their numbers.
pub record IsNumbered (k : ℕ) (first : List (ℕ × Node)) (v : EdgeVisitor) : Type 0 where
  pub rest : List (ℕ × Node)
  pub locals_eq : v.locals ≡ first ++ rest
  pub ordered : AreOrdered v.writers.function.this_symbol_idx k rest v.writers.function.num_locals
  pub counted : IsCounted v.writers

pub record IsNext (v v' : EdgeVisitor) : Type 0 where
  pub later : IsLater v.writers v'.writers
  pub numbered : (k : ℕ) (first : List (ℕ × Node)) → IsNumbered k first v → IsNumbered k first v'
  pub num_allocas : v'.num_allocas ≡ v.num_allocas

pub IsNext-trans : (u v w : EdgeVisitor) → IsNext u v → IsNext v w → IsNext u w
IsNext-trans u v w p q = record {
  later = IsLater-trans u.writers v.writers w.writers p.later q.later;
  numbered = λ k first h. q.numbered k first (p.numbered k first h);
  num_allocas = q.num_allocas ∙ p.num_allocas;
}

-- Later writers, and the same table.
pub IsLater-IsNext :
    {v v' : EdgeVisitor}
    → IsLater v.writers v'.writers
    → v'.locals ≡ v.locals
    → v'.num_allocas ≡ v.num_allocas
    → IsNext v v'
IsLater-IsNext {v} {v'} l same allocas = record {
  later = l;
  numbered = λ k first h.
      let (more, counted) = l.locals h.counted in
      record {
        rest = h.rest;
        locals_eq = same ∙ h.locals_eq;
        ordered = rw l.this (AreOrdered-longer _ k h.rest _ _ more h.ordered);
        counted = counted;
      };
  num_allocas = allocas;
}

-- The writers and the table stay.
pub IsNext-same :
    {v v' : EdgeVisitor}
    → v'.writers ≡ v.writers
    → v'.locals ≡ v.locals
    → v'.num_allocas ≡ v.num_allocas
    → IsNext v v'
IsNext-same {v} w =
    IsLater-IsNext (subst (λ u. IsLater v.writers u) (sym w) (IsLater-refl v.writers))

pub IsNext-refl : (v : EdgeVisitor) → IsNext v v
IsNext-refl v = IsNext-same refl refl refl

-- Operations that give a visitor, and operations that give something with it.
abbrev pub Steps : EdgeVisitor → Result EdgeVisitor → Type 0
Steps v m = Yields (IsNext v) m

abbrev pub Gives : {A : Type 0} → EdgeVisitor → Result (A × EdgeVisitor) → Type 0
Gives v m = Yields (λ r. IsNext v r.1) m

pub Steps-then :
    (v : EdgeVisitor) (m : Result EdgeVisitor) (f : EdgeVisitor → Result EdgeVisitor)
    → Steps v m
    → ((u : EdgeVisitor) → Steps u (f u))
    → Steps v (m >>= f)
Steps-then v m f h k =
    Yields-bind (IsNext v) (IsNext v) m f h
      (λ u p. weaken (f u) (λ w q. IsNext-trans v u w p q) (k u))

module _ {A : Type 0} where
  pub Gives-then :
      (v : EdgeVisitor) (m : Result (A × EdgeVisitor)) (f : A × EdgeVisitor → Result EdgeVisitor)
      → Gives v m
      → ((a : A) (u : EdgeVisitor) → Steps u (f (a, u)))
      → Steps v (m >>= f)
  Gives-then v m f h k =
      Yields-bind (λ r. IsNext v r.1) (IsNext v) m f h
        (λ r p. weaken (f r) (λ w q. IsNext-trans v r.1 w p q) (k r.0 r.1))

  -- A chain whose first part changes no visitor, and a case split.
  pub Yields-value :
      {B : Type 0} (P : B → Type 0) (m : Result A) (f : A → Result B)
      → ((a : A) → Yields P (f a))
      → Yields P (m >>= f)
  Yields-value P (ok a) f k = k a
  Yields-value P (err e) f k = tt

  pub Yields-option :
      {B : Type 0} (P : B → Type 0) (o : Option A) (x : Result B) (f : A → Result B)
      → Yields P x
      → ((a : A) → Yields P (f a))
      → Yields P (elim o [ none ↦ x | some a ↦ f a ])
  Yields-option P none x f h k = h
  Yields-option P (some a) x f h k = k a

  pub Steps-for_each :
      (f : A → EdgeVisitor → Result EdgeVisitor) (xs : List A) (v : EdgeVisitor)
      → ((x : A) (u : EdgeVisitor) → Steps u (f x u))
      → Steps v (for_each f xs v)
  Steps-for_each f [] v k = IsNext-refl v
  Steps-for_each f (x ∷ xs) v k =
      Steps-then v (f x v) (for_each f xs) (k x v) (λ u. Steps-for_each f xs u k)

pub Yields-if :
    {A : Type 0} (P : A → Type 0) (b : Bool) (x y : Result A)
    → Yields P x
    → Yields P y
    → Yields P (if b then x else y)
Yields-if P true x y h k = h
Yields-if P false x y h k = k

pub Steps-ok : (v : EdgeVisitor) → Steps v (ok v)
Steps-ok v = IsNext-refl v

pub in_writers-IsNext :
    (f : Writers → Result (Node × Writers)) (v : EdgeVisitor)
    → Yields (λ r. IsLater v.writers r.1) (f v.writers)
    → Gives v (in_writers f v)
in_writers-IsNext f v h =
    Yields-bind (λ r. IsLater v.writers r.1) _ (f v.writers) _ h (λ r l. IsLater-IsNext l refl refl)

pub push_edge-IsNext :
    (k : Kind) (to from : Node) (label : Label (shape k)) (v : EdgeVisitor)
    → Steps v (push_edge k to from label v)
unfolding push_edge
push_edge-IsNext k to from label v =
    Yields-bind (IsLater v.writers) _ (push k to from label v.writers) _
      (push-IsLater k to from label v.writers) (λ w l. IsLater-IsNext l refl refl)

pub insert_call-IsNext : (call : Inserted) (v : EdgeVisitor) → IsNext v (insert_call call v)
unfolding insert_call
insert_call-IsNext call v = IsNext-same refl refl refl

pub insert_some-IsNext :
    (o : Option Inserted) (v : EdgeVisitor)
    → IsNext v (elim o [ none ↦ v | some call ↦ insert_call call v ])
insert_some-IsNext none v = IsNext-refl v
insert_some-IsNext (some call) v = insert_call-IsNext call v

pub IsNext-if :
    (v : EdgeVisitor) (b : Bool) (u w : EdgeVisitor)
    → IsNext v u
    → IsNext v w
    → IsNext v (if b then u else w)
IsNext-if v true u w h k = h
IsNext-if v false u w h k = k
