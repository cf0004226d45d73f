-- ===== src/Edges/RoundTrip/Function.antt =====
-- One function: the words that `finish` appends are read back as that function.
use bracelet.Prelude.{
  not, ◌&&◌, ◌||◌, ℕ, ◌^◌, ◌≤◌, ◌<◌, ◌≡◌, refl, Bool, true, false, Option, none, some, List, [],
  ◌∷◌, ◌++◌, Result, ok, arith, append_assoc, Returns, le→leb, lt→ltb, length, get_elem?, take,
  drop, for_each,
}
use mathlib.Core.List.{Perm}
use mathlib.Core.List.Perm
use bracelet.Edges.Bytes.{Text}
use bracelet.Edges.Node.Laws.{node, max_symbol, of_symbol_eq}
use bracelet.Edges.Kind.{Shape, Kind, shape, any_edge, Edge, EdgeTuple, get}
use bracelet.Edges.Strings.{GraphDebugData, string}
use bracelet.Edges.Writer.{Row, Storage, Sort, GraphWriter, FunctionWriter, finish, row_less}
use bracelet.Edges.Reader.{
  Frame, FunctionInfo, symbol_address, next_locals, read_function, no_edge_data, sbom_of,
  visit_edges,
}
use bracelet.Edges.RoundTrip.Rows.{AreWords, AreWords-perm, read_row, visit_words-encode_rows}
use bracelet.Edges.RoundTrip.Words.{
  at, next_word_cons, tuple_words, tuple_data, read_kinds-tuple_words, get-tuple_data, sorted,
  AreCounted, finish_kinds_eq,
}

-- The first of the local indices, and the others.
abbrev pub head_locals : ℕ → Option (List ℕ) → Option (List ℕ)
head_locals n none = none
head_locals n (some l) = some (take n l)

abbrev pub tail_locals : ℕ → Option (List ℕ) → Option (List ℕ)
tail_locals n none = none
tail_locals n (some l) = some (drop n l)

abbrev pub FitLocals : ℕ → Option (List ℕ) → Type 0
FitLocals n none = Unit {0}
FitLocals n (some l) = n ≤ length l

abbrev pub with_locals : GraphDebugData → Option (List ℕ) → GraphDebugData
with_locals d l = record d { local_indices = l }

next_locals_eq :
    (n : ℕ) (f : Frame) (l : Option (List ℕ))
    → f.debug_data.local_indices ≡ l
    → FitLocals n l
    → next_locals n f
      ≡ ok (
        with_locals f.debug_data (head_locals n l),
        record f { debug_data = with_locals f.debug_data (tail_locals n l) },
      )
unfolding next_locals
next_locals_eq n f none e h = ground arith
next_locals_eq n f (some l) e h = ground (arith, le→leb n (length l) h)

-- The words of a function, with its edges sorted.
abbrev pub function_words : Sort → ℕ → FunctionWriter → List ℕ
function_words sort num_allocas fw =
    (fw.this_symbol_idx ∷ fw.sbom_component_idx ∷ fw.sbom_version_idx ∷ fw.num_locals ∷ num_allocas
      ∷ [])
    ++ tuple_words any_edge (sorted sort any_edge fw.edges)

-- What the frame must hold of the function: its address, its local indices and its two texts.
pub record Describes (f : Frame) (fw : FunctionWriter) (num_allocas address : ℕ)
    (component version : Text) : Type 0 where
  pub symbol : get_elem? f.symbol_addresses fw.this_symbol_idx ≡ some address
  pub low : address < max_symbol
  pub allocas : num_allocas ≤ fw.num_locals
  pub locals : FitLocals fw.num_locals f.debug_data.local_indices
  pub component_text : string f.debug_data fw.sbom_component_idx ≡ ok component
  pub version_text : string f.debug_data fw.sbom_version_idx ≡ ok version

-- The frame behind a function: its local indices are used up.
abbrev pub behind : ℕ → Frame → Frame
behind n f = record f {
  debug_data = with_locals f.debug_data (tail_locals n f.debug_data.local_indices);
}

abbrev pub info_of : Sort → Frame → FunctionWriter → ℕ → ℕ → Text → Text → List ℕ → FunctionInfo
info_of sort f fw num_allocas address component version rest = record {
  function = node address none;
  num_allocas = num_allocas;
  num_locals = fw.num_locals;
  debug_data = with_locals f.debug_data (head_locals fw.num_locals f.debug_data.local_indices);
  sbom_info = sbom_of component version;
  edge_data = tuple_data any_edge (sorted sort any_edge fw.edges);
  frame = at (behind fw.num_locals f) rest;
}

finish_eq :
    (sort : Sort) (num_allocas : ℕ) (fw : FunctionWriter) (gw : GraphWriter)
    → fw.written ≡ false
    → fw.this_symbol_idx < 2 ^ 32
    → AreCounted sort any_edge fw.edges
    → finish sort num_allocas fw gw
      ≡ ok (
        record fw { written = true; edges = sorted sort any_edge fw.edges },
        record gw {
          has_active_function_writer = false;
          function_data = gw.function_data ++ function_words sort num_allocas fw;
        },
      )
unfolding finish
finish_eq sort num_allocas fw gw w h c =
    rw (w, lt→ltb _ _ h, finish_kinds_eq sort any_edge fw.edges _ c, append_assoc gw.function_data)

symbol_address_eq :
    (f : Frame) (i : ℕ) {a : ℕ}
    → get_elem? f.symbol_addresses i ≡ some a
    → symbol_address f i ≡ ok a
unfolding symbol_address
symbol_address_eq f i h = rw (h, symbol_address)

string-with_locals :
    (d : GraphDebugData) (l : Option (List ℕ)) (i : ℕ) {s : Text}
    → string d i ≡ ok s
    → string (with_locals d l) i ≡ ok s
unfolding string
string-with_locals d l i h = h

read_function_eq :
    (sort : Sort) (f : Frame) (fw : FunctionWriter) (num_allocas address : ℕ)
    (component version : Text) (rest : List ℕ)
    → Describes f fw num_allocas address component version
    → read_function (at f (function_words sort num_allocas fw ++ rest))
      ≡ ok (
        info_of sort f fw num_allocas address component version rest,
        at (behind fw.num_locals f) rest,
      )
unfolding read_function
read_function_eq sort f fw num_allocas address component version rest d =
    let tail = tuple_words any_edge (sorted sort any_edge fw.edges) ++ rest in
    let c = fw.sbom_component_idx in
    let v = fw.sbom_version_idx in
    let n = fw.num_locals in
    rw (
      next_word_cons f fw.this_symbol_idx (c ∷ v ∷ n ∷ num_allocas ∷ tail),
      next_word_cons f c (v ∷ n ∷ num_allocas ∷ tail),
      next_word_cons f v (n ∷ num_allocas ∷ tail),
      symbol_address_eq (at f (n ∷ num_allocas ∷ tail)) fw.this_symbol_idx d.symbol,
      next_word_cons f n (num_allocas ∷ tail),
      next_word_cons f num_allocas tail,
      le→leb num_allocas n d.allocas,
      next_locals_eq n (at f tail) _ refl d.locals,
      of_symbol_eq address d.low,
      string-with_locals f.debug_data _ c d.component_text,
      string-with_locals f.debug_data _ v d.version_text,
      read_kinds-tuple_words any_edge (sorted sort any_edge fw.edges) no_edge_data (behind n f)
          rest,
    )

get-sorted :
    (sort : Sort) (k : Kind) (t : EdgeTuple Storage)
    → get Storage k (sorted sort any_edge t) ≡ sort (shape k) (row_less (shape k)) (get Storage k t)
unfolding get
get-sorted sort Kind.assign t = refl
get-sorted sort _ t = refl

visit_edges_eq :
    {S : Type 0} (sort : Sort) (k : Kind) (t : EdgeTuple Storage) (info : FunctionInfo)
    (cb : Edge (shape k) → S → Result S) (st : S)
    → info.edge_data ≡ tuple_data any_edge (sorted sort any_edge t)
    → AreWords (sort (shape k) (row_less (shape k)) (get Storage k t))
    → visit_edges k info cb st
      ≡ for_each
          (read_row (shape k) info.frame info.function cb)
          (sort (shape k) (row_less (shape k)) (get Storage k t))
          st
unfolding visit_edges
visit_edges_eq sort k t info cb st e h =
    rw (e, get-tuple_data k (sorted sort any_edge t), get-sorted sort k t)
      (visit_words-encode_rows (shape k) info.frame info.function cb 0 _ st (omega arith) h)

-- What a sort may ask of its comparison on the rows that it is given, a strict weak ordering: no row is
-- less than itself, and `less` and being neither less nor greater are transitive.
abbrev every : {A : Type 0} → (A → Bool) → List A → Bool
every p [] = true
every p (x ∷ xs) = p x && every p xs

abbrev neither : {A : Type 0} → (A → A → Bool) → A → A → Bool
neither less x y = not (less x y) && not (less y x)

abbrev pub is_strict_weak : {A : Type 0} → (A → A → Bool) → List A → Bool
is_strict_weak less rows =
    every (λ x. not (less x x)) rows
    && every
        (λ x.
          every
            (λ y.
              every
                (λ z.
                  (not (less x y && less y z) || less x z)
                  && (not (neither less x y && neither less y z) || neither less x z))
                rows)
            rows)
        rows

-- Finishing a function appends words to the graph's data. From a frame that starts with these words,
-- and holds the function's address, texts and local indices, the reader takes a function with that
-- address, those counts and that SBOM information, and leaves what follows the words. Visiting its
-- edges of any kind decodes the rows that the writer had of the kind, in some order, each once, and
-- calls the callback with each edge. The sort is any function that returns a permutation where the
-- comparison is a strict weak ordering on the rows given to it; and the function's rows of each kind
-- must be such that the writer's comparison is one on them, which it is not on all rows.
pub visit_edges-finish :
    {S : Type 0} (sort : Sort) (num_allocas : ℕ) (fw : FunctionWriter) (gw : GraphWriter)
    (f : Frame) (address : ℕ) (component version : Text) (rest : List ℕ) (k : Kind)
    (cb : Edge (shape k) → S → Result S) (st : S)
    → ((s : Shape) (less : Row s → Row s → Bool) (rows : List (Row s))
        → is_strict_weak less rows ≡ true
        → Perm (sort s less rows) rows)
    → ((j : Kind) → is_strict_weak (row_less (shape j)) (get Storage j fw.edges) ≡ true)
    → fw.written ≡ false
    → fw.this_symbol_idx < 2 ^ 32
    → AreCounted sort any_edge fw.edges
    → AreWords (get Storage k fw.edges)
    → Describes f fw num_allocas address component version
    → Returns (finish sort num_allocas fw gw) λ r.
      (words : List ℕ) × (r.1.function_data ≡ gw.function_data ++ words)
      × Returns (read_function (at f (words ++ rest))) λ q.
        (q.0.function ≡ node address none)
        × (q.0.num_allocas ≡ num_allocas)
        × (q.0.num_locals ≡ fw.num_locals)
        × (q.0.sbom_info ≡ sbom_of component version)
        × (q.1.function_data ≡ rest)
        × ((rows : List (Row (shape k))) × Perm rows (get Storage k fw.edges)
            × (visit_edges k q.0 cb st
                ≡ for_each (read_row (shape k) q.0.frame q.0.function cb) rows st))
visit_edges-finish sort num_allocas fw gw f address component version rest k cb st perm weak w h c a
      d =
    let info = info_of sort f fw num_allocas address component version rest in
    let rows = sort (shape k) (row_less (shape k)) (get Storage k fw.edges) in
    let p = perm (shape k) (row_less (shape k)) (get Storage k fw.edges) (weak k) in
    let visits = visit_edges_eq sort k fw.edges info cb st refl (AreWords-perm (Perm.symm p) a) in
    (
      _,
      finish_eq sort num_allocas fw gw w h c,
      (
        function_words sort num_allocas fw,
        refl,
        (
          (info, at (behind fw.num_locals f) rest),
          read_function_eq sort f fw num_allocas address component version rest d,
          (refl, refl, refl, refl, refl, (rows, p, visits)),
        ),
      ),
    )
