-- ===== src/BraceletReachability/Constants/Reached.antt =====
-- `constantNode` of src/BraceletReachability/BraceletReachability.cpp: the global values in a constant
-- against the constant's node.
use bracelet.Prelude.{
  bit_or, ◌*◌, ℕ, ◌%◌, ◌^◌, ◌≤◌, ◌<◌, ◌≡◌, ◌⊎◌, inl, inr, refl, sym, ◌∙◌, subst, true, Option, none,
  some, List, [], ◌∷◌, ◌++◌, Result, ok, err, assert, arith, ◌==◌, ==_refl, length, length-append,
  Option-cases, Bool-cases, Yields, Yields-bind, Yields-run, Yields-ok, weaken, if◌then◌else◌,
}
use bracelet.Edges.Bytes.{Text}
use bracelet.Edges.Node.{Node, of_symbol, is_set, local_idx}
use bracelet.Edges.Node.Laws.{node, of_symbol_eq, symbol_eq, local_idx_eq}
use bracelet.Edges.Kind.{assign}
use bracelet.Edges.Table.{find, find-append, find-append_old}
use bracelet.Edges.Symbols.{
  GlobalValue, GlobalObject, SymbolTable, required_comdat, assert_comdat, resolve, add_object,
  add_symbol,
}
use bracelet.Edges.Writer.{GraphWriter, graph_symbol, encode_node}
use bracelet.BraceletReachability.Values.{
  Constant, global_value, compound, ignored, unknown_constant, Operands, end, operand, non_constant,
}
use bracelet.BraceletReachability.Constants.{
  Writers, fresh, symbol_node, push, Builder, new_builder, parent_name, make_fresh, add_set,
  add_node, constant_node, add_operands,
}
use bracelet.BraceletReachability.Constants.Later.{
  IsLater, IsLater-refl, IsLater-trans, AreWords, fresh-IsFresh,
}
use bracelet.BraceletReachability.Constants.Flow.{
  stays, word, IsReached, IsReached-IsLater, push-IsPushed, IsPushed-IsReached,
}

-- The global values that occur in a constant.
mutual
  pub data OccursIn (gv : GlobalValue) : Constant → Type 0 where
    here : OccursIn gv (global_value gv)
    below :
        {name : Option Text} {os : Operands} → OccursAmong gv os → OccursIn gv (compound name os)

  pub data OccursAmong (gv : GlobalValue) : Operands → Type 0 where
    at_head : {c : Constant} {os : Operands} → OccursIn gv c → OccursAmong gv (operand c os)
    in_tail : {c : Constant} {os : Operands} → OccursAmong gv os → OccursAmong gv (operand c os)

-- The numbers of symbols fit the 32 bits of the writer's map.
abbrev pub AreFewSymbols : Writers → Type 0
AreFewSymbols w = length w.graph.symbols.symbols < 2 ^ 32

AreFewSymbols-IsLater : {w w' : Writers} → IsLater w w' → AreFewSymbols w' → AreFewSymbols w
AreFewSymbols-IsLater l f = omega (arith, l.longer)

any : {A : Type 0} (m : Result A) → Yields (λ a. Unit {0}) m
any (ok a) = tt
any (err e) = tt

-- What entering an object into the table does.
record IsEntered (go : GlobalObject) (t : SymbolTable) (n : Node) (t' : SymbolTable) : Type 0 where
  symbols : (a i : ℕ) → find ◌==◌ a t.symbols ≡ some i → find ◌==◌ a t'.symbols ≡ some i
  longer : length t.symbols ≤ length t'.symbols
  words : AreWords t → AreWords t'
  known :
      length t'.symbols < 2 ^ 32
      → (i : ℕ) × (find ◌==◌ go.address t'.symbols ≡ some i) × (of_symbol i ≡ ok n)

AreWords-append :
    (t : SymbolTable) (a i : ℕ) (gos : List GlobalObject)
    → i < 2 ^ 32
    → AreWords t
    → AreWords (record { symbols = t.symbols ++ (a, i) ∷ []; symbols_in_order = gos })
AreWords-append t a i gos small h b j found = elim (Option-cases (find ◌==◌ b t.symbols)) [
  | inr (k, e) ↦ h b j (e ∙ (sym (find-append_old ◌==◌ b a k i t.symbols e) ∙ found))
  | inl none_old ↦
      let e : (if b == a then some i else none) ≡ some j =
        sym (find-append ◌==◌ b a i t.symbols none_old) ∙ found in
      ground arith
]

add_object-IsEntered :
    (go : GlobalObject) (t : SymbolTable) → Yields (λ r. IsEntered go t r.0 r.1) (add_object go t)
unfolding add_object
add_object-IsEntered go t = elim (Option-cases (find ◌==◌ go.address t.symbols)) [
  | inr (i, e) ↦
      rw (e, add_object)
        (Yields-bind _ _ (of_symbol i) _ (Yields-run _) (λ n h. record {
          symbols = λ a j k. k;
          longer = omega arith;
          words = λ k. k;
          known = λ few. (i, e, h);
        }))
  | inl fresh_object ↦
      let idx = length t.symbols in
      rw (fresh_object, add_object)
        (Yields-bind (λ u. Unit {0}) _ (assert (idx == length t.symbols_in_order)) _
          (any (assert (idx == length t.symbols_in_order)))
          (λ u q. Yields-bind _ _ (of_symbol idx) _ (Yields-run _) (λ n h. record {
            symbols = λ a j k. find-append_old ◌==◌ a go.address j (idx % 2 ^ 32) t.symbols k;
            longer = omega (arith, length-append t.symbols ((go.address, idx % 2 ^ 32) ∷ []));
            words = λ k.
                AreWords-append t go.address (idx % 2 ^ 32) (t.symbols_in_order ++ go ∷ [])
                  (omega arith) k;
            known = λ few.
                let fits : idx % 2 ^ 32 ≡ idx =
                  omega (arith, length-append t.symbols ((go.address, idx % 2 ^ 32) ∷ [])) in
                (
                  idx % 2 ^ 32,
                  find-append ◌==◌ go.address go.address (idx % 2 ^ 32) t.symbols fresh_object
                      ∙ rw (==_refl go.address),
                  rw fits h,
                );
          })))
]

word-of_symbol :
    (w : Writers) (i : ℕ) (g : Node) → i < 2 ^ 32 → of_symbol i ≡ ok g → (x : ℕ) × (word w g ≡ ok x)
unfolding encode_node
word-of_symbol w i g small e =
    let at : node i none ≡ g = cc (e, of_symbol_eq i (omega arith)) in
    let this = w.function.this_symbol_idx in
    subst (λ n. (x : ℕ) × (encode_node this n ≡ ok x)) at
      (
        bit_or (i * 2 % 2 ^ 64) 1 % 2 ^ 32,
        rw (
          encode_node,
          local_idx_eq i none (omega arith),
          symbol_eq i none (omega arith) (omega arith),
        ),
      )

symbol_node_lem :
    (gv : GlobalValue) (w : Writers)
    → Yields
        (λ r. IsLater w r.1 × (AreWords w.graph.symbols → AreFewSymbols r.1 → IsReached r.1 gv r.0))
        (symbol_node gv w)
unfolding symbol_node graph_symbol add_symbol
symbol_node_lem gv w =
    let go = resolve gv in
    Yields-bind
      (λ (q : Node × GraphWriter).
        let w' : Writers = record w { graph = q.1 } in
        IsLater w w' × (AreWords w.graph.symbols → AreFewSymbols w' → IsReached w' gv q.0))
      _ (graph_symbol gv w.graph) _
      (Yields-bind
        (λ (r : Node × SymbolTable).
          IsEntered go w.graph.symbols r.0 r.1
          × (assert_comdat (required_comdat go) w.graph.output_comdat ≡ ok tt))
        _ (add_symbol w.graph.output_comdat gv w.graph.symbols) _
        (Yields-bind _ _ (assert_comdat (required_comdat go) w.graph.output_comdat) _ (Yields-run _)
          (λ u checked.
            weaken (add_object go w.graph.symbols) (λ r h. (h, checked))
              (add_object-IsEntered go w.graph.symbols)))
        (λ r h. (
          record {
            this = refl;
            comdat = refl;
            rows = λ i row k. k;
            symbols = h.0.symbols;
            longer = h.0.longer;
            words = h.0.words;
            locals = λ x. (omega arith, x);
          },
          λ words few.
              let (i, found, node_eq) = h.0.known few in
              let small : i < 2 ^ 32 = h.0.words words go.address i found in
              let w' : Writers = record w { graph = record (w.graph) { symbols = r.1 } } in
              let (x, e) = word-of_symbol w' i r.0 small node_eq in
              record {
                source = r.0;
                known = record { index = i; found = found; node_eq = node_eq; comdat = h.1 };
                from = x;
                from_eq = e;
                to = x;
                to_eq = e;
                flow = stays;
              },
        )))
      (λ q h. h)

-- Adding a node to a builder: what reaches the node or the builder reaches the new builder.
record IsAdded (n : Node) (b : Builder) (w : Writers) (b' : Builder) (w' : Writers) : Type 0 where
  later : IsLater w w'
  node_reached : (gv : GlobalValue) → IsReached w gv n → IsReached w' gv b'.out
  builder_reached : (gv : GlobalValue) → IsReached w gv b.out → IsReached w' gv b'.out

IsReached-set : {w : Writers} {gv : GlobalValue} {n : Node} → IsReached w gv n → is_set n ≡ true
unfolding encode_node local_idx
IsReached-set {n = n} r = let e = r.to_eq in ground arith

make_fresh_lem :
    (parent : Option Text) (b : Builder) (w : Writers)
    → Yields
        (λ r.
          IsLater w r.1 × ((gv : GlobalValue) → IsReached w gv b.out → IsReached r.1 gv r.0.out))
        (make_fresh parent b w)
unfolding make_fresh
make_fresh_lem parent b w = elim (Bool-cases b.fresh_node_created) [
  | inl made ↦ rw (made, make_fresh, Yields) (IsLater-refl w, λ gv r. r)
  | inr unmade ↦
      rw (unmade, make_fresh)
        (Yields-bind _ _ (fresh (parent_name parent) w) _ (fresh-IsFresh (parent_name parent) w)
          (λ q l.
            Yields-bind _ _ (push assign q.0 b.out tt q.1) _ (push-IsPushed q.0 b.out tt q.1)
              (λ w' p. (
                IsLater-trans w q.1 w' l.later p.later,
                λ gv r. IsPushed-IsReached p (IsReached-IsLater l.later r),
              ))))
]

add_node-IsAdded :
    (parent : Option Text) (n : Node) (b : Builder) (w : Writers)
    → Yields (λ r. IsAdded n b w r.0 r.1) (add_node parent n b w)
unfolding add_node add_set
add_node-IsAdded parent n b w = elim (Bool-cases (is_set n)) [
  | inr null ↦
      rw (null, add_node)
        (record {
          later = IsLater-refl w;
          node_reached = λ gv r. absurd (cc (null, IsReached-set r));
          builder_reached = λ gv r. r;
        })
  | inl set ↦ elim (Bool-cases (is_set b.out)) [
    | inr vacant ↦
        rw (set, vacant, add_node, add_set)
          (record {
            later = IsLater-refl w;
            node_reached = λ gv r. r;
            builder_reached = λ gv r. absurd (cc (vacant, IsReached-set r));
          })
    | inl taken ↦
        rw (set, taken, add_node, add_set)
          (Yields-bind _ _ (make_fresh parent b w) _ (make_fresh_lem parent b w) (λ q l.
            Yields-bind _ _ (push assign q.0.out n tt q.1) _ (push-IsPushed q.0.out n tt q.1)
              (λ w' p. record {
                later = IsLater-trans w q.1 w' l.0 p.later;
                node_reached = λ gv r. IsPushed-IsReached p (IsReached-IsLater l.0 r);
                builder_reached = λ gv r. IsReached-IsLater p.later (l.1 gv r);
              })))
  ]
]

occurs_global : {gv other : GlobalValue} → OccursIn gv (global_value other) → other ≡ gv
occurs_global here = refl

occurs_compound :
    {gv : GlobalValue} {name : Option Text} {os : Operands}
    → OccursIn gv (compound name os)
    → OccursAmong gv os
occurs_compound (below o) = o

not_ignored : {gv : GlobalValue} → ¬ (OccursIn gv ignored)
not_ignored o = elim o [ ]

not_end : {gv : GlobalValue} → ¬ (OccursAmong gv end)
not_end o = elim o [ ]

occurs_operand :
    {gv : GlobalValue} {c : Constant} {os : Operands}
    → OccursAmong gv (operand c os)
    → OccursIn gv c ⊎ OccursAmong gv os
occurs_operand (at_head o) = inl o
occurs_operand (in_tail o) = inr o

mutual
  unfolding constant_node

  constant_node_lem :
      (c : Constant) (w : Writers)
      → Yields
          (λ r.
            IsLater w r.1
            × (AreWords w.graph.symbols
                → AreFewSymbols r.1
                → (gv : GlobalValue) → OccursIn gv c
                → IsReached r.1 gv r.0))
          (constant_node c w)
  constant_node_lem (global_value gv) w =
      weaken (symbol_node gv w)
        (λ r h. (
          h.0,
          λ words few other o. subst (λ x. IsReached r.1 x r.0) (occurs_global o) (h.1 words few),
        ))
        (symbol_node_lem gv w)
  constant_node_lem (compound name os) w =
      Yields-bind _ _ (add_operands name os new_builder w) _
        (add_operands_lem name os new_builder w)
        (λ r h. (h.0, λ words few gv o. h.2 words few gv (occurs_compound o)))
  constant_node_lem ignored w = (IsLater-refl w, λ words few gv o. absurd (not_ignored o))
  constant_node_lem unknown_constant w = tt

  add_operands_lem :
      (parent : Option Text) (os : Operands) (b : Builder) (w : Writers)
      → Yields
          (λ r.
            IsLater w r.1
            × ((gv : GlobalValue) → IsReached w gv b.out → IsReached r.1 gv r.0.out)
            × (AreWords w.graph.symbols
                → AreFewSymbols r.1
                → (gv : GlobalValue) → OccursAmong gv os
                → IsReached r.1 gv r.0.out))
          (add_operands parent os b w)
  add_operands_lem parent end b w =
      (IsLater-refl w, λ gv r. r, λ words few gv o. absurd (not_end o))
  add_operands_lem parent (operand c rest) b w =
      Yields-bind _ _ (constant_node c w) _ (constant_node_lem c w) (λ q h.
        Yields-bind _ _ (add_node parent q.0 b q.1) _ (add_node-IsAdded parent q.0 b q.1) (λ q' a.
          weaken (add_operands parent rest q'.0 q'.1)
            (λ r k. (
              IsLater-trans w q.1 r.1 h.0 (IsLater-trans q.1 q'.1 r.1 a.later k.0),
              λ gv reached. k.1 gv (a.builder_reached gv (IsReached-IsLater h.0 reached)),
              λ words few gv o. elim (occurs_operand o) [
                | inr among ↦ k.2 (a.later.words (h.0.words words)) few gv among
                | inl inside ↦
                    let few' = AreFewSymbols-IsLater (IsLater-trans q.1 q'.1 r.1 a.later k.0) few in
                    k.1 gv (a.node_reached gv (h.1 words few' gv inside))
              ],
            ))
            (add_operands_lem parent rest q'.0 q'.1)))
  add_operands_lem parent (non_constant rest) b w = tt

pub symbol_node-IsLater :
    (gv : GlobalValue) (w : Writers) → Yields (λ r. IsLater w r.1) (symbol_node gv w)
symbol_node-IsLater gv w = weaken (symbol_node gv w) (λ r h. h.0) (symbol_node_lem gv w)

pub constant_node-IsLater :
    (c : Constant) (w : Writers) → Yields (λ r. IsLater w r.1) (constant_node c w)
constant_node-IsLater c w = weaken (constant_node c w) (λ r h. h.0) (constant_node_lem c w)

-- When the numbers of symbols are words and stay fewer than 2^32, a constant's node is reached, over
-- the rows of `Assign` edges that the writer then has, from the symbol of every global value in the
-- constant, however deep, and the symbol's number is in the writer's table.
pub constant_node-IsReached :
    (c : Constant) (w : Writers) {n : Node} {w' : Writers}
    → AreWords w.graph.symbols
    → constant_node c w ≡ ok (n, w')
    → AreFewSymbols w'
    → (gv : GlobalValue) → OccursIn gv c
    → IsReached w' gv n
constant_node-IsReached c w words run few gv o =
    (Yields-ok _ (constant_node c w) run (constant_node_lem c w)).1 words few gv o
