-- ===== src/Edges/RoundTrip/Words.antt =====
-- The words of a function: what `finish` appends, and how the reader splits them up again.
use bracelet.Prelude.{
  ℕ, ◌^◌, ◌<◌, ◌≡◌, refl, List, [], ◌∷◌, ◌++◌, ok, arith, append_assoc, append-nil, le→leb, lt→ltb,
  length, length-append, take-append, drop-append,
}
use bracelet.Edges.Kind.{Kind, shape, any_edge, Tuple, EdgeTuple, visit_tuple, get}
use bracelet.Edges.Writer.{Storage, Sort, row_less, encode_rows, finish_kind}
use bracelet.Edges.Reader.{Frame, EdgeData, next_words, next_word, read_kind}
use bracelet.Edges.RoundTrip.Rows.{length-encode_rows}

-- The frame with these words left to read.
abbrev pub at : Frame → List ℕ → Frame
at f words = record f { function_data = words }

pub next_words_append :
    (f : Frame) (xs ys : List ℕ) → next_words (length xs) (at f (xs ++ ys)) ≡ ok (xs, at f ys)
unfolding next_words
next_words_append f xs ys = rw (
  le→leb (length xs) (length (xs ++ ys)) (omega (arith, length-append xs ys)),
  take-append xs ys,
  drop-append xs ys,
)

pub next_word_cons : (f : Frame) (w : ℕ) (ws : List ℕ) → next_word (at f (w ∷ ws)) ≡ ok (w, at f ws)
unfolding next_word
next_word_cons f w ws = rw (next_words_append f (w ∷ []) ws)

-- The words of one kind's edges in a function: their count, and the edges.
abbrev pub kind_words : (k : Kind) → Storage k → List ℕ
kind_words k rows = length rows ∷ encode_rows (shape k) 0 rows

abbrev pub tuple_words : (ks : List Kind) → Tuple Storage ks → List ℕ
tuple_words [] t = []
tuple_words (k ∷ ks) t = kind_words k t.0 ++ tuple_words ks t.1

abbrev pub tuple_data : (ks : List Kind) → Tuple Storage ks → Tuple EdgeData ks
tuple_data [] t = tt
tuple_data (k ∷ ks) t = (encode_rows (shape k) 0 t.0, tuple_data ks t.1)

pub read_kind-kind_words :
    (k : Kind) (rows : Storage k) (old : List ℕ) (f : Frame) (rest : List ℕ)
    → read_kind k old (at f (kind_words k rows ++ rest))
      ≡ ok (encode_rows (shape k) 0 rows, at f rest)
unfolding read_kind
read_kind-kind_words k rows old f rest =
    let words = encode_rows (shape k) 0 rows in
    rw (
      next_word_cons f (length rows) (words ++ rest),
      ← length-encode_rows (shape k) 0 rows,
      next_words_append f words rest,
    )

pub read_kinds-tuple_words :
    (ks : List Kind) (t : Tuple Storage ks) (old : Tuple EdgeData ks) (f : Frame) (rest : List ℕ)
    → visit_tuple read_kind ks old (at f (tuple_words ks t ++ rest))
      ≡ ok (tuple_data ks t, at f rest)
unfolding visit_tuple
read_kinds-tuple_words [] t old f rest = refl
read_kinds-tuple_words (k ∷ ks) t old f rest = rw (
  append_assoc (kind_words k t.0) (tuple_words ks t.1) rest,
  read_kind-kind_words k t.0 old.0 f (tuple_words ks t.1 ++ rest),
  read_kinds-tuple_words ks t.1 old.1 f rest,
)

pub get-tuple_data :
    (k : Kind) (t : EdgeTuple Storage)
    → get EdgeData k (tuple_data any_edge t) ≡ encode_rows (shape k) 0 (get Storage k t)
unfolding get
get-tuple_data Kind.assign t = refl
get-tuple_data _ t = refl

module _ (sort : Sort) where
  abbrev pub sorted : (ks : List Kind) → Tuple Storage ks → Tuple Storage ks
  sorted [] t = tt
  sorted (k ∷ ks) t = (sort (shape k) (row_less (shape k)) t.0, sorted ks t.1)

  -- Every kind's edges can be counted in 32 bits.
  abbrev pub AreCounted : (ks : List Kind) → Tuple Storage ks → Type 0
  AreCounted [] t = Unit {0}
  AreCounted (k ∷ ks) t =
      (length (sort (shape k) (row_less (shape k)) t.0) < 2 ^ 32) × AreCounted ks t.1

  finish_kind_eq :
      (k : Kind) (rows : Storage k) (words : List ℕ)
      → let rows' = sort (shape k) (row_less (shape k)) rows in
        length rows' < 2 ^ 32
        → finish_kind sort k rows words ≡ ok (rows', words ++ kind_words k rows')
  unfolding finish_kind
  finish_kind_eq k rows words h = rw (lt→ltb _ _ h)

  pub finish_kinds_eq :
      (ks : List Kind) (t : Tuple Storage ks) (words : List ℕ)
      → AreCounted ks t
      → visit_tuple (finish_kind sort) ks t words
        ≡ ok (sorted ks t, words ++ tuple_words ks (sorted ks t))
  unfolding visit_tuple
  finish_kinds_eq [] t words h = rw append-nil
  finish_kinds_eq (k ∷ ks) t words h =
      let rows = sort (shape k) (row_less (shape k)) t.0 in
      rw (
        finish_kind_eq k t.0 words h.0,
        finish_kinds_eq ks t.1 (words ++ kind_words k rows) h.1,
        append_assoc words (kind_words k rows) (tuple_words ks (sorted ks t.1)),
      )
