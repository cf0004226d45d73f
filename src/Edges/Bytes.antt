-- ===== src/Edges/Bytes.antt =====
-- Texts as lists of bytes: their equality, and the C string at the head of a list.
use bracelet.Prelude.{ℕ, ◌≡◌, refl, Bool, true, false, ◌&&◌, List, [], ◌∷◌, ◌++◌, arith, ◌==◌, ◌≢◌}

abbrev pub Text : Type 0
Text = List ℕ

unfoldable pub equal : Text → Text → Bool
equal [] [] = true
equal [] (y ∷ ys) = false
equal (x ∷ xs) [] = false
equal (x ∷ xs) (y ∷ ys) = (x == y) && equal xs ys

pub equal_refl : (xs : Text) → equal xs xs ≡ true
unfolding equal
equal_refl [] = refl
equal_refl (x ∷ xs) = ground (arith, equal_refl xs)

pub equal→eq : (xs ys : Text) → equal xs ys ≡ true → xs ≡ ys
unfolding equal
equal→eq [] [] h = refl
equal→eq [] (y ∷ ys) h = cc
equal→eq (x ∷ xs) [] h = cc
equal→eq (x ∷ xs) (y ∷ ys) h = ground (arith, equal→eq xs ys)

-- What a `const char *` to the head of the list shows: the bytes before the first 0.
unfoldable pub c_string : Text → Text
c_string [] = []
c_string (x ∷ xs) = elim (x == 0) [ true ↦ [] | false ↦ x ∷ c_string xs ]

-- A text without a 0 byte.
abbrev pub IsPlain : Text → Type 0
IsPlain [] = Unit {0}
IsPlain (x ∷ xs) = (x ≢ 0) × IsPlain xs

pub c_string-append : (xs ys : Text) → IsPlain xs → c_string (xs ++ 0 ∷ ys) ≡ xs
unfolding c_string
c_string-append [] ys p = refl
c_string-append (x ∷ xs) ys p = ground (arith, c_string-append xs ys p.1)
