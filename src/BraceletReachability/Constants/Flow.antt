-- ===== src/BraceletReachability/Constants/Flow.antt =====
-- The nodes of constants in src/BraceletReachability/BraceletReachability.cpp against the rows of
-- `Assign` edges that `constantNode` adds.
use bracelet.Prelude.{
  ℕ, ◌≡◌, refl, some, [], ◌∷◌, ◌++◌, Result, ok, arith, ◌==◌, length, get_elem?,
  get_elem?-append_left, get_elem?-append_length, Yields, Yields-bind, Yields-run, subst,
}
use bracelet.Edges.Node.{Node, of_symbol}
use bracelet.Edges.Kind.{shape, assign, Label, Edge, make_edge, get, modify}
use bracelet.Edges.Table.{find}
use bracelet.Edges.Symbols.{GlobalValue, required_comdat, assert_comdat, resolve}
use bracelet.Edges.Writer.{Row, Storage, encode_node, encode_edge, add_edge}
use bracelet.BraceletReachability.Constants.{Writers, push}
use bracelet.BraceletReachability.Constants.Later.{assigned, IsLater}

-- A flow along the rows of `Assign` edges, between the words of nodes.
pub data Flows (rows : Storage assign) : ℕ → ℕ → Type 0 where
  stays : {x : ℕ} → Flows rows x x
  along :
      {x y : ℕ} (i : ℕ) (row : Row (shape assign))
      → Flows rows x y
      → get_elem? rows i ≡ some row
      → row.from ≡ y
      → Flows rows x row.to

-- The object of a global value has a number in the writer's table, and is one of this graph.
pub record IsKnown (gv : GlobalValue) (g : Node) (w : Writers) : Type 0 where
  pub index : ℕ
  pub found : find ◌==◌ (resolve gv).address w.graph.symbols.symbols ≡ some index
  pub node_eq : of_symbol index ≡ ok g
  pub comdat : assert_comdat (required_comdat (resolve gv)) w.graph.output_comdat ≡ ok tt

abbrev pub word : Writers → Node → Result ℕ
word w n = encode_node w.function.this_symbol_idx n

-- A node to which the node of a global value flows.
pub record IsReached (w : Writers) (gv : GlobalValue) (n : Node) : Type 0 where
  pub source : Node
  pub known : IsKnown gv source w
  pub from : ℕ
  pub from_eq : word w source ≡ ok from
  pub to : ℕ
  pub to_eq : word w n ≡ ok to
  pub flow : Flows (assigned w) from to

Flows-IsLater :
    {w w' : Writers} {x y : ℕ} → IsLater w w' → Flows (assigned w) x y → Flows (assigned w') x y
Flows-IsLater later stays = stays
Flows-IsLater later (along i row flow at e) =
    along i row (Flows-IsLater later flow) (later.rows i row at) e

pub IsReached-IsLater :
    {w w' : Writers} {gv : GlobalValue} {n : Node}
    → IsLater w w'
    → IsReached w gv n
    → IsReached w' gv n
IsReached-IsLater later r = record {
  source = r.source;
  known = record {
    index = r.known.index;
    found = later.symbols _ _ r.known.found;
    node_eq = r.known.node_eq;
    comdat = rw later.comdat r.known.comdat;
  };
  from = r.from;
  from_eq = rw later.this r.from_eq;
  to = r.to;
  to_eq = rw later.this r.to_eq;
  flow = Flows-IsLater later r.flow;
}

-- What one `Assign` edge adds.
pub record IsPushed (to from : Node) (w w' : Writers) : Type 0 where
  pub row : Row (shape assign)
  pub to_eq : word w to ≡ ok row.to
  pub from_eq : word w from ≡ ok row.from
  pub rows_eq : assigned w' ≡ assigned w ++ row ∷ []
  pub later : IsLater w w'

encode_edge_lem :
    (e : Edge (shape assign)) (this : ℕ)
    → Yields
        (λ row. (encode_node this e.to ≡ ok row.to) × (encode_node this e.from ≡ ok row.from))
        (encode_edge (shape assign) this e)
unfolding encode_edge
encode_edge_lem e this =
    Yields-bind (λ t. encode_node this e.to ≡ ok t) _ (encode_node this e.to) _ (Yields-run _)
      (λ t h.
        Yields-bind (λ f. encode_node this e.from ≡ ok f) _ (encode_node this e.from) _
          (Yields-run _) (λ f k. (h, k)))

add_edge-IsPushed :
    (e : Edge (shape assign)) (w : Writers)
    → Yields
        (λ fw. IsPushed e.to e.from w (record w { function = fw }))
        (add_edge assign e w.function)
unfolding add_edge get modify
add_edge-IsPushed e w =
    Yields-bind _ _ (encode_edge (shape assign) w.function.this_symbol_idx e) _
      (encode_edge_lem e w.function.this_symbol_idx)
      (λ row h. record {
        row = row;
        to_eq = h.0;
        from_eq = h.1;
        rows_eq = refl;
        later = record {
          this = refl;
          comdat = refl;
          rows = λ i r at. get_elem?-append_left (assigned w) _ i at;
          symbols = λ a i at. at;
          longer = omega arith;
          words = λ x. x;
          locals = λ x. (omega arith, x);
        };
      })

make_edge_lem :
    (to from : Node) (label : Label (shape assign))
    → Yields (λ e. (e.to ≡ to) × (e.from ≡ from)) (make_edge (shape assign) to from label)
unfolding make_edge
make_edge_lem to from label = ground arith

pub push-IsPushed :
    (to from : Node) (label : Label (shape assign)) (w : Writers)
    → Yields (IsPushed to from w) (push assign to from label w)
unfolding push
push-IsPushed to from label w =
    Yields-bind _ _ (make_edge (shape assign) to from label) _ (make_edge_lem to from label) (λ e h.
      Yields-bind _ _ (add_edge assign e w.function) _ (add_edge-IsPushed e w) (λ fw p.
        let w' : Writers = record w { function = fw } in
        subst (λ n. IsPushed n from w w') h.0 (subst (λ n. IsPushed e.to n w w') h.1 p)))

-- What reaches the source of an added edge reaches its target.
pub IsPushed-IsReached :
    {to from : Node} {w w' : Writers} {gv : GlobalValue}
    → IsPushed to from w w'
    → IsReached w gv from
    → IsReached w' gv to
IsPushed-IsReached {from = from} {w = w} {w' = w'} p r =
    let later = IsReached-IsLater p.later r in
    record {
      source = later.source;
      known = later.known;
      from = later.from;
      from_eq = later.from_eq;
      to = p.row.to;
      to_eq = rw p.later.this p.to_eq;
      flow =
          along (length (assigned w)) p.row later.flow
            (rw p.rows_eq (get_elem?-append_length (assigned w) [] p.row))
            (cc (p.from_eq, later.to_eq, p.later.this));
    }
