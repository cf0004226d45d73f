-- ===== src/Edges/RoundTrip/Rows.antt =====
-- The edges of one kind: the reader's loop over the words of the writer's loop.
use bracelet.Prelude.{
  ℕ, ◌+◌, ◌-◌, ◌*◌, ◌%◌, ◌^◌, ◌<◌, ◌≡◌, refl, sym, subst, ◌∙◌, List, [], ◌∷◌, ◌++◌, Result, ◌>>=◌,
  for_each, bind_assoc, bind_ext, arith, length,
}
use mathlib.Core.List.{Perm, Permᴰ}
use mathlib.Core.Logic.{∥∥₁_elim}
use native.Mathlib.Bridge.{le_prop}
use bracelet.Edges.Node.{Node}
use bracelet.Edges.Kind.{Shape, singleton, indexed, Edge, num_components}
use bracelet.Edges.Encoding.{zigzag_encode, zigzag_decode}
use bracelet.Edges.Encoding.Zigzag.{zigzag_decode-encode}
use bracelet.Edges.Writer.{Row, encode_rows, label_words}
use bracelet.Edges.Reader.{Frame, decode_edge, visit_words}

-- Both numbers of each row are 32-bit words.
abbrev pub AreWords : {s : Shape} → List (Row s) → Type 0
AreWords [] = Unit {0}
AreWords (r ∷ rs) = (r.to < 2 ^ 32) × (r.from < 2 ^ 32) × AreWords rs

-- A wrapping difference that was encoded, added back.
delta :
    (prev x : ℕ)
    → prev < 2 ^ 32
    → x < 2 ^ 32
    → (prev + zigzag_decode (zigzag_encode ((x + 2 ^ 32 - prev) % 2 ^ 32))) % 2 ^ 32 ≡ x
delta prev x p q =
    let d = (x + 2 ^ 32 - prev) % 2 ^ 32 in
    rw ((zigzag_decode-encode d (omega arith)).0) (omega arith)

-- What the reader does with one row: it decodes the edge and calls the callback.
abbrev pub read_row :
    {S : Type 0} (s : Shape) → Frame → Node → (Edge s → S → Result S) → Row s → S → Result S
read_row s f function cb r st = decode_edge s f function r.to r.from r.label >>= λ e. cb e st

-- One round of the loop, over the words of one row.
visit_words_round :
    {S : Type 0} (s : Shape) (f : Frame) (function : Node) (cb : Edge s → S → Result S) (prev : ℕ)
    (r : Row s) (words : List ℕ) (st : S)
    → prev < 2 ^ 32
    → r.to < 2 ^ 32
    → r.from < 2 ^ 32
    → visit_words s f function cb prev
        (zigzag_encode ((r.to + 2 ^ 32 - prev) % 2 ^ 32)
          ∷ zigzag_encode ((r.from + 2 ^ 32 - r.to) % 2 ^ 32)
          ∷ (label_words s r.label ++ words))
        st
      ≡ read_row s f function cb r st >>= visit_words s f function cb r.from words
unfolding visit_words
visit_words_round singleton f function cb prev r words st p a b =
    rw (delta prev r.to p a, delta r.to r.from a b)
      (sym (
        bind_assoc (decode_edge singleton f function r.to r.from r.label) (λ e. cb e st)
          (visit_words singleton f function cb r.from words)))
visit_words_round indexed f function cb prev r words st p a b =
    rw (delta prev r.to p a, delta r.to r.from a b)
      (sym (
        bind_assoc (decode_edge indexed f function r.to r.from r.label) (λ e. cb e st)
          (visit_words indexed f function cb r.from words)))

-- The reader's loop over the words of any rows of 32-bit numbers decodes each row's numbers, in
-- order, and calls the callback with the edge of each; its first error ends the visit.
pub visit_words-encode_rows :
    {S : Type 0} (s : Shape) (f : Frame) (function : Node) (cb : Edge s → S → Result S) (prev : ℕ)
    (rows : List (Row s)) (st : S)
    → prev < 2 ^ 32
    → AreWords rows
    → visit_words s f function cb prev (encode_rows s prev rows) st
      ≡ for_each (read_row s f function cb) rows st
unfolding encode_rows
visit_words-encode_rows singleton f function cb prev [] st p h = unfold visit_words in refl
visit_words-encode_rows indexed f function cb prev [] st p h = unfold visit_words in refl
visit_words-encode_rows s f function cb prev (r ∷ rs) st p (a, b, h) =
    visit_words_round s f function cb prev r (encode_rows s r.from rs) st p a b
    ∙ bind_ext (read_row s f function cb r st) _ _
        (λ st'. visit_words-encode_rows s f function cb r.from rs st' b h)

pub length-encode_rows :
    (s : Shape) (prev : ℕ) (rows : List (Row s))
    → length (encode_rows s prev rows) ≡ num_components s * length rows
unfolding encode_rows
length-encode_rows singleton prev [] = omega arith
length-encode_rows indexed prev [] = omega arith
length-encode_rows singleton prev (r ∷ rs) = omega (arith, length-encode_rows singleton r.from rs)
length-encode_rows indexed prev (r ∷ rs) = omega (arith, length-encode_rows indexed r.from rs)

AreWords-prop : {s : Shape} (rows : List (Row s)) → IsProp (AreWords rows)
AreWords-prop [] = hlevel
AreWords-prop (r ∷ rs) = hlevel (le_prop, AreWords-prop rs)

AreWords-permᴰ : {s : Shape} {xs ys : List (Row s)} → Permᴰ xs ys → AreWords xs → AreWords ys
AreWords-permᴰ Permᴰ.nil h = h
AreWords-permᴰ (Permᴰ.cons e p) (a, b, h) =
    (subst (λ r. r.to < 2 ^ 32) e a, subst (λ r. r.from < 2 ^ 32) e b, AreWords-permᴰ p h)
AreWords-permᴰ (Permᴰ.swap e e') (a, b, (c, d, h)) = (
  subst (λ r. r.to < 2 ^ 32) e' c,
  subst (λ r. r.from < 2 ^ 32) e' d,
  (subst (λ r. r.to < 2 ^ 32) e a, subst (λ r. r.from < 2 ^ 32) e b, h),
)
AreWords-permᴰ (Permᴰ.trans p q) h = AreWords-permᴰ q (AreWords-permᴰ p h)

pub AreWords-perm : {s : Shape} {xs ys : List (Row s)} → Perm xs ys → AreWords xs → AreWords ys
AreWords-perm {s} {xs} {ys} p h = ∥∥₁_elim p (AreWords-prop ys) (λ q. AreWords-permᴰ q h)
