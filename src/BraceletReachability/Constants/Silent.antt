-- ===== src/BraceletReachability/Constants/Silent.antt =====
-- `constantNode` of src/BraceletReachability/BraceletReachability.cpp on constants without global
-- values.
use bracelet.Prelude.{
  ◌≡◌, refl, sym, ◌>>=◌, Yields, Yields-bind, Yields-ok, Option, ok, Result, subst, arith, ap,
}
use bracelet.Edges.Bytes.{Text}
use bracelet.Edges.Node.{Node, empty, is_set}
use bracelet.BraceletReachability.Values.{
  Constant, global_value, compound, ignored, unknown_constant, Operands, end, operand, non_constant,
}
use bracelet.BraceletReachability.Constants.{
  Writers, Builder, new_builder, add_node, constant_node, add_operands,
}

-- No global value stands in the constant.
mutual
  pub data IsBare : Constant → Type 0 where
    bare_ignored : IsBare ignored
    bare_unknown : IsBare unknown_constant
    bare_compound : {name : Option Text} {os : Operands} → AreBare os → IsBare (compound name os)

  pub data AreBare : Operands → Type 0 where
    bare_end : AreBare end
    bare_operand : {c : Constant} {os : Operands} → IsBare c → AreBare os → AreBare (operand c os)
    bare_non_constant : {os : Operands} → AreBare os → AreBare (non_constant os)

add_node_empty :
    (parent : Option Text) (b : Builder) (w : Writers) → add_node parent empty b w ≡ ok (b, w)
unfolding add_node is_set
add_node_empty parent b w = ground arith

mutual
  unfolding constant_node

  bare_node :
      (c : Constant) (w : Writers) → IsBare c → Yields (λ r. r ≡ (empty, w)) (constant_node c w)
  bare_node (global_value gv) w h = elim h [ ]
  bare_node ignored w h = refl
  bare_node unknown_constant w h = tt
  bare_node (compound name os) w (bare_compound h) =
      Yields-bind _ _ (add_operands name os new_builder w) _ (bare_operands name os new_builder w h)
        (λ r e. ap (λ (q : Builder × Writers). (q.0.out, q.1)) e)

  bare_operands :
      (parent : Option Text) (os : Operands) (b : Builder) (w : Writers)
      → AreBare os
      → Yields (λ r. r ≡ (b, w)) (add_operands parent os b w)
  bare_operands parent end b w h = refl
  bare_operands parent (operand c os) b w (bare_operand h k) =
      Yields-bind _ _ (constant_node c w) _ (bare_node c w h) (λ q e.
        let next : Node × Writers → Result (Builder × Writers) =
          λ q. add_node parent q.0 b q.1 >>= (λ r. add_operands parent os r.0 r.1) in
        let start : ok (b, w) ≡ add_node parent empty b w = sym (add_node_empty parent b w) in
        let rest = bare_operands parent os b w k in
        subst (λ p. Yields (λ r. r ≡ (b, w)) (next p)) (sym e)
          (subst (λ m. Yields (λ r. r ≡ (b, w)) (m >>= (λ r. add_operands parent os r.0 r.1))) start
            rest))
  bare_operands parent (non_constant os) b w h = tt

-- The node of a constant without global values is null, and finding it adds no edge, local or symbol.
pub constant_node-empty :
    (c : Constant) (w : Writers) {n : Node} {w' : Writers}
    → IsBare c
    → constant_node c w ≡ ok (n, w')
    → (n ≡ empty) × (w' ≡ w)
constant_node-empty c w h run =
    let e = Yields-ok _ (constant_node c w) run (bare_node c w h) in
    (ap (λ r. r.0) e, ap (λ r. r.1) e)
