-- ===== src/BraceletReachability/Constants/Later.antt =====
-- The writers of src/BraceletReachability/BraceletReachability.cpp after more locals, edges and
-- symbols.
use bracelet.Prelude.{
  ℕ, ◌+◌, ◌^◌, ◌≤◌, ◌<◌, ◌≡◌, refl, ◌∙◌, Bool, true, false, some, [], ◌∷◌, ◌++◌, ok, arith, ◌==◌,
  length, get_elem?, get_elem?-append_left, Yields, Yields-bind, Yields-run, if◌then◌else◌,
}
use bracelet.Edges.Bytes.{Text}
use bracelet.Edges.Node.{Node, of_local}
use bracelet.Edges.Kind.{
  Kind, EdgeTuple, load, store, call, return, argument_definition, argument_supply,
  dlsym_page_pointer, shape, assign, Label, make_edge, get, modify,
}
use bracelet.Edges.Table.{find}
use bracelet.Edges.Symbols.{SymbolTable}
use bracelet.Edges.Writer.{
  Row, Storage, FunctionWriter, GraphWriter, fresh_local, graph_string, encode_edge, add_edge,
}
use bracelet.BraceletReachability.Constants.{Writers, fresh, push}

abbrev pub assigned : Writers → Storage assign
assigned w = get Storage assign w.function.edges

-- The numbers of symbols are 32-bit words, which is what the map holds.
abbrev pub AreWords : SymbolTable → Type 0
AreWords t = (a i : ℕ) → find ◌==◌ a t.symbols ≡ some i → i < 2 ^ 32

-- The number of locals is a `uint32_t`.
abbrev pub IsCounted : Writers → Type 0
IsCounted w = w.function.num_locals < 2 ^ 32

-- Later writers: of the same function and graph, with more rows and more symbols.
pub record IsLater (w w' : Writers) : Type 0 where
  pub this : w'.function.this_symbol_idx ≡ w.function.this_symbol_idx
  pub comdat : w'.graph.output_comdat ≡ w.graph.output_comdat
  pub rows :
      (i : ℕ) (row : Row (shape assign))
      → get_elem? (assigned w) i ≡ some row
      → get_elem? (assigned w') i ≡ some row
  pub symbols :
      (a i : ℕ)
      → find ◌==◌ a w.graph.symbols.symbols ≡ some i
      → find ◌==◌ a w'.graph.symbols.symbols ≡ some i
  pub longer : length w.graph.symbols.symbols ≤ length w'.graph.symbols.symbols
  pub words : AreWords w.graph.symbols → AreWords w'.graph.symbols
  pub locals : IsCounted w → (w.function.num_locals ≤ w'.function.num_locals) × IsCounted w'

pub IsLater-refl : (w : Writers) → IsLater w w
IsLater-refl w = record {
  this = refl;
  comdat = refl;
  rows = λ i row h. h;
  symbols = λ a i h. h;
  longer = omega arith;
  words = λ h. h;
  locals = λ h. (omega arith, h);
}

pub IsLater-trans : (u v w : Writers) → IsLater u v → IsLater v w → IsLater u w
IsLater-trans u v w p q = record {
  this = q.this ∙ p.this;
  comdat = q.comdat ∙ p.comdat;
  rows = λ i row h. q.rows i row (p.rows i row h);
  symbols = λ a i h. q.symbols a i (p.symbols a i h);
  longer = omega (arith, p.longer, q.longer);
  words = λ h. q.words (p.words h);
  locals = λ h.
      let (le, h') = p.locals h in let (le', h'') = q.locals h' in (omega (arith, le, le'), h'');
}

-- A fresh local changes neither rows nor symbols.
graph_kept :
    (b : Bool) (g g' : GraphWriter)
    → g'.symbols ≡ g.symbols
    → g'.output_comdat ≡ g.output_comdat
    → let chosen : GraphWriter = if b then g' else g in
      (chosen.symbols ≡ g.symbols) × (chosen.output_comdat ≡ g.output_comdat)
graph_kept true g g' p q = (p, q)
graph_kept false g g' p q = (refl, refl)

of_local_small : (s i : ℕ) (n : Node) → of_local s i ≡ ok n → i < 2 ^ 32 → i + 1 < 2 ^ 16
unfolding of_local
of_local_small s i n e h = ground arith

-- A fresh local is the next one, and changes neither rows nor symbols.
pub record IsFresh (w : Writers) (n : Node) (w' : Writers) : Type 0 where
  pub later : IsLater w w'
  pub node_eq : of_local w.function.this_symbol_idx w.function.num_locals ≡ ok n
  pub next : IsCounted w → w'.function.num_locals ≡ w.function.num_locals + 1

pub fresh-IsFresh : (name : Text) (w : Writers) → Yields (λ r. IsFresh w r.0 r.1) (fresh name w)
unfolding fresh fresh_local graph_string
fresh-IsFresh name w =
    let named = graph_string name w.graph in
    let this = w.function.this_symbol_idx in
    let number = w.function.num_locals in
    let kept =
      graph_kept w.function.record_debug_data w.graph
        (record (named.1) { local_names = w.graph.local_names ++ named.0 ∷ [] }) refl refl in
    Yields-bind
      (λ (q : Node × FunctionWriter × GraphWriter).
        IsFresh w q.0 (record { function = q.1; graph = q.2 }))
      _ (fresh_local name w.function w.graph) _
      (Yields-bind _ _ (of_local this number) _ (Yields-run _) (λ n e. record {
        later = record {
          this = refl;
          comdat = kept.1;
          rows = λ i row h. h;
          symbols = λ a i h. rw kept.0 h;
          longer = rw kept.0 (omega arith);
          words = λ h. rw kept.0 h;
          locals = λ h. let small = of_local_small this number n e h in (omega arith, omega arith);
        };
        node_eq = e;
        next = λ h. let small = of_local_small this number n e h in omega arith;
      }))
      (λ q p. p)

-- One more row of any kind keeps the rows of `Assign`.
modify_keeps :
    (k : Kind) (t : EdgeTuple Storage) (new : Row (shape k)) (i : ℕ) (row : Row (shape assign))
    → get_elem? (get Storage assign t) i ≡ some row
    → get_elem? (get Storage assign (modify Storage k (λ rows. rows ++ new ∷ []) t)) i ≡ some row
unfolding get modify
modify_keeps assign t new i row h = get_elem?-append_left (t.0) (new ∷ []) i h
modify_keeps load t new i row h = h
modify_keeps store t new i row h = h
modify_keeps call t new i row h = h
modify_keeps return t new i row h = h
modify_keeps argument_definition t new i row h = h
modify_keeps argument_supply t new i row h = h
modify_keeps dlsym_page_pointer t new i row h = h

pub push-IsLater :
    (k : Kind) (to from : Node) (label : Label (shape k)) (w : Writers)
    → Yields (IsLater w) (push k to from label w)
unfolding push add_edge
push-IsLater k to from label w =
    Yields-bind _ _ (make_edge (shape k) to from label) _ (Yields-run _) (λ e h.
      Yields-bind (λ fw. IsLater w (record w { function = fw })) _ (add_edge k e w.function) _
        (Yields-bind _ _ (encode_edge (shape k) w.function.this_symbol_idx e) _ (Yields-run _)
          (λ row q. record {
            this = refl;
            comdat = refl;
            rows = λ i r at. modify_keeps k w.function.edges row i r at;
            symbols = λ a i at. at;
            longer = omega arith;
            words = λ x. x;
            locals = λ x. (omega arith, x);
          }))
        (λ fw p. p))
