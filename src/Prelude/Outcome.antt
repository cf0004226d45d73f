-- ===== src/Prelude/Outcome.antt =====
-- The program's `Result<T>` with an error per message, and what a failed `assert` does.
use mathlib.Core.Path.{◌≡◌, refl, sym, ◌∙◌, subst}
use mathlib.Core.Logic.{◌⊎◌, inl, inr}
use mathlib.Core.Bool.{Bool, true, false}
use mathlib.Core.List.{List, [], ◌∷◌, ◌++◌}

-- `assertion` is a failed `assert` or an `abort()`, `undefined` what C++ leaves undefined, and
-- `no_more_probes` is the failed `assert` on
-- the attempts that a sequence of probes has left; `out_of_fuel` belongs to the model.
pub data Error : Type 0 where
  assertion : Error
  no_more_probes : Error
  out_of_fuel : Error
  symbol_out_of_bounds : Error
  end_of_function_data : Error
  string_out_of_bounds : Error
  local_out_of_bounds : Error
  blob_unterminated : Error
  local_range : Error
  too_many_allocas : Error
  blob_too_long : Error
  buffer_too_short : Error
  zstd_size : Error
  zstd_decompress : Error
  streamvbyte_invalid : Error
  no_section : Error
  out_of_section : Error
  duplicate_section : Error
  unknown_symbol : Error
  null_pointer : Error
  missing_relocation : Error
  bad_number : Error
  page_not_symbol : Error
  missing_name : Error
  bad_load_address : Error
  short_read : Error
  outside_sysroot : Error
  undefined : Error
  nargs_mismatch : Error
  unparsed_points_to : Error
  unknown_trace_site : Error
  no_start_address : Error
  missing_edges : Error

pub data Result {ℓ} (A : Type ℓ) : Type ℓ where
  err : Error → Result A
  ok : A → Result A

-- `abbrev`, so that `ok a >>= f` computes wherever it stands.
infixl 5 ◌>>=◌ ◌>>◌
abbrev pub ◌>>=◌ {ℓ κ} : {A : Type ℓ} {B : Type κ} → Result A → (A → Result B) → Result B
err reason >>= next = err reason
ok x >>= next = next x

abbrev pub ◌>>◌ {ℓ κ} : {A : Type ℓ} {B : Type κ} → Result A → Result B → Result B
first >> second = first >>= λ _. second

-- `BRACELET_ENSURE(test, message)` and `assert(test)`.
abbrev pub ensure : Bool → Error → Result (Unit {0})
ensure true e = ok tt
ensure false e = err e

abbrev pub assert : Bool → Result (Unit {0})
assert b = ensure b assertion

-- The first error of a chain of callbacks ends the chain.
abbrev pub for_each {ℓ κ} : {A : Type ℓ} {S : Type κ} → (A → S → Result S) → List A → S → Result S
for_each f [] s = ok s
for_each f (x ∷ xs) s = f x s >>= for_each f xs

-- The run succeeds, with a value that satisfies `P`.
abbrev pub Returns {ℓ κ} : {A : Type ℓ} → Result A → (A → Type κ) → Type (ℓ ⊔ κ)
Returns {A} r P = (a : A) × (r ≡ ok a) × P a

pub bind_assoc {ℓ κ ι} :
    {A : Type ℓ} {B : Type κ} {C : Type ι} (m : Result A) (f : A → Result B) (g : B → Result C)
    → (m >>= f) >>= g ≡ m >>= (λ a. f a >>= g)
bind_assoc (ok a) f g = refl
bind_assoc (err e) f g = refl

pub bind_ext {ℓ κ} :
    {A : Type ℓ} {B : Type κ} (m : Result A) (f g : A → Result B)
    → ((a : A) → f a ≡ g a)
    → (m >>= f) ≡ (m >>= g)
bind_ext (ok a) f g h = h a
bind_ext (err e) f g h = refl

pub Result-cases {ℓ} :
    {A : Type ℓ} (r : Result A) → ((a : A) × (r ≡ ok a)) ⊎ ((e : Error) × (r ≡ err e))
Result-cases (ok a) = inl (a, refl)
Result-cases (err e) = inr (e, refl)

pub for_each-append {ℓ κ} :
    {A : Type ℓ} {S : Type κ} (f : A → S → Result S) (xs ys : List A) (s : S)
    → for_each f (xs ++ ys) s ≡ (for_each f xs s >>= for_each f ys)
for_each-append f [] ys s = refl
for_each-append f (x ∷ xs) ys s =
    bind_ext (f x s) _ _ (λ t. for_each-append f xs ys t) ∙ sym (bind_assoc (f x s) _ _)

-- What holds of the value of a run that succeeds.
abbrev pub Yields {ℓ κ} : {A : Type ℓ} → (A → Type κ) → Result A → Type κ
Yields P (ok a) = P a
Yields P (err e) = Unit

pub weaken {ℓ κ ι} :
    {A : Type ℓ} {P : A → Type κ} {Q : A → Type ι} (m : Result A)
    → ((a : A) → P a → Q a)
    → Yields P m
    → Yields Q m
weaken (ok a) f p = f a p
weaken (err e) f p = tt

-- The value of a chain, from what holds of the value of its first part.
pub Yields-bind {ℓ κ ι μ} :
    {A : Type ℓ} {B : Type κ} (P : A → Type ι) (Q : B → Type μ) (m : Result A) (next : A → Result B)
    → Yields P m
    → ((a : A) → P a → Yields Q (next a))
    → Yields Q (m >>= next)
Yields-bind P Q (ok a) next p f = f a p
Yields-bind P Q (err e) next p f = tt

pub Yields-ok {ℓ κ} :
    {A : Type ℓ} (P : A → Type κ) (m : Result A) {a : A} → m ≡ ok a → Yields P m → P a
Yields-ok P m e p = subst (Yields P) e p

pub Yields-run {ℓ} : {A : Type ℓ} (m : Result A) → Yields (λ a. m ≡ ok a) m
Yields-run (ok a) = refl
Yields-run (err e) = tt
