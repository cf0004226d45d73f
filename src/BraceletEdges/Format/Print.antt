-- ===== src/BraceletEdges/Format/Print.antt =====
-- Lemmas on the printed form of nodes, `printNodePure` of bracelet-edges.cpp.
use bracelet.Prelude.{
  ℕ, zero, suc, ◌/◌, ◌%◌, ◌^◌, ◌<◌, ◌≡◌, ◌↔◌, refl, sym, ap, ◌∙◌, Option, none, some, [], ◌∷◌, ◌++◌,
  ok, arith, length, length-append,
}
use bracelet.Edges.Bytes.{Text}
use bracelet.Edges.Node.Laws.{slot, node, max_symbol, symbol_eq, local_idx_eq}
use bracelet.BraceletEdges.Format.{
  digit, hex_digits, format_hex, format_local, local_suffix, print_node_pure,
}
use native.Mathlib.Nat.{pow-suc}

digit_injective : (a b : ℕ) → a < 16 → b < 16 → digit a ≡ digit b → a ≡ b
digit_injective a b h k e = ground arith

append_last :
    (xs ys : Text) (a b : ℕ)
    → xs ++ a ∷ [] ≡ ys ++ b ∷ []
    → length xs ≡ length ys
    → (xs ≡ ys) × (a ≡ b)
append_last [] [] a b e l = (refl, cc e)
append_last [] (y ∷ ys) a b e l = absurd (omega (arith, l))
append_last (x ∷ xs) [] a b e l = absurd (omega (arith, l))
append_last (x ∷ xs) (y ∷ ys) a b e l =
    let (p, q) = append_last xs ys a b (cc e) (omega (arith, l)) in (cc (e, p), q)

length-hex_digits : (width num : ℕ) → length (hex_digits width num) ≡ width
unfolding hex_digits
length-hex_digits zero num = refl
length-hex_digits (suc width) num = omega (
  arith,
  length-append (hex_digits width (num / 16)) (digit (num % 16) ∷ []),
  length-hex_digits width (num / 16),
)

hex_digits-injective :
    (width a b : ℕ)
    → a < 16 ^ width
    → b < 16 ^ width
    → hex_digits width a ≡ hex_digits width b
    → a ≡ b
unfolding hex_digits
hex_digits-injective zero a b h k e = omega (arith, h, k)
hex_digits-injective (suc width) a b h k e =
    let (p, q) =
      append_last (hex_digits width (a / 16)) (hex_digits width (b / 16)) _ _ e
        (length-hex_digits width (a / 16) ∙ sym (length-hex_digits width (b / 16))) in
    let high =
      hex_digits-injective width (a / 16) (b / 16) (omega (arith, pow-suc 16 width))
        (omega (arith, pow-suc 16 width)) p in
    let low = digit_injective (a % 16) (b % 16) (omega arith) (omega arith) q in
    omega (arith, high, low)

format_hex-injective : (a b : ℕ) → a < 2 ^ 64 → b < 2 ^ 64 → format_hex a ≡ format_hex b → a ≡ b
unfolding format_hex
format_hex-injective a b h k e = hex_digits-injective 16 a b (omega arith) (omega arith) (cc e)

split :
    (xs xs' ys ys' : Text)
    → xs ++ ys ≡ xs' ++ ys'
    → length xs ≡ length xs'
    → (xs ≡ xs') × (ys ≡ ys')
split [] [] ys ys' e l = (refl, e)
split [] (x' ∷ xs') ys ys' e l = absurd (omega (arith, l))
split (x ∷ xs) [] ys ys' e l = absurd (omega (arith, l))
split (x ∷ xs) (x' ∷ xs') ys ys' e l =
    let (p, q) = split xs xs' ys ys' (cc e) (omega (arith, l)) in (cc (e, p), q)

length-format_hex : (num : ℕ) → length (format_hex num) ≡ 18
unfolding format_hex
length-format_hex num = omega (arith, length-hex_digits 16 num)

local_suffix-injective :
    (l m : Option ℕ) → slot l < 2 ^ 16 → slot m < 2 ^ 16 → local_suffix l ≡ local_suffix m → l ≡ m
unfolding format_local
local_suffix-injective none none h k e = refl
local_suffix-injective none (some j) h k e = absurd (cc e)
local_suffix-injective (some i) none h k e = absurd (cc e)
local_suffix-injective (some i) (some j) h k e =
    ap some (hex_digits-injective 4 i j (omega (arith, h)) (omega (arith, k)) (cc e))

print_node_pure_eq :
    (s : ℕ) (l : Option ℕ)
    → s < max_symbol
    → slot l < 2 ^ 16
    → print_node_pure (node s l) ≡ ok (format_hex s ++ local_suffix l)
unfolding print_node_pure
print_node_pure_eq s l h k = rw (print_node_pure, local_idx_eq s l k, symbol_eq s l h k)

-- Every symbol and local in range is printed, and two are printed alike only if they are the same.
pub print_node_pure-injective :
    (s t : ℕ) (l m : Option ℕ)
    → s < max_symbol
    → t < max_symbol
    → slot l < 2 ^ 16
    → slot m < 2 ^ 16
    → ((text : Text) × (print_node_pure (node s l) ≡ ok text))
      × ((print_node_pure (node s l) ≡ print_node_pure (node t m)) ↔ ((s ≡ t) × (l ≡ m)))
print_node_pure-injective s t l m h k p q = (
  (_, print_node_pure_eq s l h p),
  (
    λ e.
        let same : format_hex s ++ local_suffix l ≡ format_hex t ++ local_suffix m =
          cc (sym (print_node_pure_eq s l h p) ∙ e ∙ print_node_pure_eq t m k q) in
        let (a, b) =
          split (format_hex s) (format_hex t) _ _ same
            (length-format_hex s ∙ sym (length-format_hex t)) in
        (
          format_hex-injective s t (omega (arith, h)) (omega (arith, k)) a,
          local_suffix-injective l m p q b,
        ),
    λ e. rw (e.0, e.1),
  ),
)
