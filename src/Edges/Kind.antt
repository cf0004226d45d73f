-- ===== src/Edges/Kind.antt =====
-- The kinds of edges of src/Edges/Edges.h, tuples with one entry for each kind, and `visitTuple`.
use bracelet.Prelude.{ℕ, List, [], ◌∷◌, Result, ok, ◌>>=◌, ◌>>◌, assert}
use bracelet.Edges.Node.{Node, is_set}

-- `SingletonEdge` and `IndexedEdge`.
pub data Shape : Type 0 where
  singleton indexed : Shape

pub data Kind : Type 0 where
  assign load store call return argument_definition argument_supply dlsym_page_pointer : Kind

unfoldable pub shape : Kind → Shape
shape call = indexed
shape argument_definition = indexed
shape argument_supply = indexed
shape _ = singleton

-- The kinds in the order of `AnyEdge`.
abbrev pub any_edge : List Kind
any_edge =
    assign ∷ load ∷ store ∷ call ∷ return ∷ argument_definition ∷ argument_supply
    ∷ dlsym_page_pointer ∷ []

-- What an edge has besides its two ends: an index, or nothing.
abbrev pub Label : Shape → Type 0
Label singleton = Unit {0}
Label indexed = ℕ

abbrev pub num_components : Shape → ℕ
num_components singleton = 2
num_components indexed = 3

pub record Edge (s : Shape) : Type 0 where
  pub to : Node
  pub from : Node
  pub label : Label s

-- The constructors assert that both ends are set.
unfoldable pub make_edge : (s : Shape) → Node → Node → Label s → Result (Edge s)
make_edge s to from label =
    assert (is_set to)
    >> assert (is_set from)
    >> ok (record { to = to; from = from; label = label })

-- `std::tuple<T<Xs>...>`
abbrev pub Tuple : (Kind → Type 0) → List Kind → Type 0
Tuple T [] = Unit {0}
Tuple T (k ∷ ks) = T k × Tuple T ks

abbrev pub EdgeTuple : (Kind → Type 0) → Type 0
EdgeTuple T = Tuple T any_edge

-- `visitTuple`: the callback may change the entries, and works on a state; an error ends the visit.
unfoldable pub visit_tuple :
    {T U : Kind → Type 0} {S : Type 0}
    → ((k : Kind) → T k → S → Result (U k × S))
    → (ks : List Kind) → Tuple T ks
    → S
    → Result (Tuple U ks × S)
visit_tuple cb [] t s = ok (tt, s)
visit_tuple cb (k ∷ ks) t s = do
  (u, s') ← cb k t.0 s
  (us, s'') ← visit_tuple cb ks t.1 s'
  ok ((u, us), s'')

module _ (T : Kind → Type 0) where
  -- `std::get<T<X>>(tuple)`
  unfoldable pub get : (k : Kind) → EdgeTuple T → T k
  get assign t = t.0
  get load t = t.1.0
  get store t = t.1.1.0
  get call t = t.1.1.1.0
  get return t = t.1.1.1.1.0
  get argument_definition t = t.1.1.1.1.1.0
  get argument_supply t = t.1.1.1.1.1.1.0
  get dlsym_page_pointer t = t.1.1.1.1.1.1.1.0

  -- A change of the entry that `std::get` refers to.
  unfoldable pub modify : (k : Kind) → (T k → T k) → EdgeTuple T → EdgeTuple T
  modify assign f (a, t) = (f a, t)
  modify load f (a, (b, t)) = (a, (f b, t))
  modify store f (a, (b, (c, t))) = (a, (b, (f c, t)))
  modify call f (a, (b, (c, (d, t)))) = (a, (b, (c, (f d, t))))
  modify return f (a, (b, (c, (d, (e, t))))) = (a, (b, (c, (d, (f e, t)))))
  modify argument_definition f (a, (b, (c, (d, (e, (g, t)))))) = (a, (b, (c, (d, (e, (f g, t))))))
  modify argument_supply f (a, (b, (c, (d, (e, (g, (h, t))))))) =
      (a, (b, (c, (d, (e, (g, (f h, t)))))))
  modify dlsym_page_pointer f (a, (b, (c, (d, (e, (g, (h, (i, t)))))))) =
      (a, (b, (c, (d, (e, (g, (h, (f i, t))))))))
