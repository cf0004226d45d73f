-- ===== src/BraceletReachability/Visitor/Edges.antt =====
-- The nodes and edges of `EdgeVisitor` in src/BraceletReachability/BraceletReachability.cpp keep the
-- table of locals.
use bracelet.Prelude.{
  ◌≡◌, inl, inr, refl, ap, ◌∙◌, append_assoc, [], ◌∷◌, ◌++◌, ◌==◌, ◌&&◌, not, assert, Option-cases,
  Yields, Yields-bind, weaken,
}
use bracelet.Edges.Table.{find}
use bracelet.Edges.Node.{Node, is_set, local_idx}
use bracelet.Edges.Kind.{Kind, Label, shape, assign, load, store}
use bracelet.BraceletReachability.Values.{
  Local, Value, constant, local_value, inline_asm, unknown_value,
}
use bracelet.BraceletReachability.Constants.{
  fresh, fresh_local_for_value, local_name_of, constant_node,
}
use bracelet.BraceletReachability.Constants.Later.{fresh-IsFresh}
use bracelet.BraceletReachability.Constants.Reached.{constant_node-IsLater}
use bracelet.BraceletReachability.Visitor.{
  Setting, EdgeVisitor, is_full, is_off, trace_site, local_node, node, traced, trace_local,
  trace_node, trace_value, push_to, trace_store, add_store_edge, add_load_edge, add_assign_edge,
}
use bracelet.BraceletReachability.Visitor.Next.{
  AreOrdered-append, IsNext, IsNext-refl, IsNext-same, Steps, Gives, Steps-then, Gives-then,
  Yields-value, Yields-option, insert_some-IsNext, Yields-if, Steps-ok, in_writers-IsNext,
  push_edge-IsNext,
}

-- A trace site changes neither the writers nor the table.
abbrev pub IsSame : EdgeVisitor → EdgeVisitor → Type 0
IsSame v u = (u.writers ≡ v.writers) × (u.locals ≡ v.locals) × (u.num_allocas ≡ v.num_allocas)

pub trace_site-IsSame : (n : Node) (v : EdgeVisitor) → Yields (λ r. IsSame v r.1) (trace_site n v)
unfolding trace_site
trace_site-IsSame n v = Yields-value _ (assert (is_set n)) _ (λ t.
    Yields-option _ (find ◌==◌ n.raw v.trace_sites) _ _
      (Yields-value _ (local_idx n) _ (λ l. Yields-option _ l _ _ tt (λ i. (refl, refl, refl))))
      (λ site. (refl, refl, refl)))

pub trace_site-IsNext : (n : Node) (v : EdgeVisitor) → Gives v (trace_site n v)
trace_site-IsNext n v =
    weaken (trace_site n v) (λ r h. IsNext-same h.0 h.1 h.2) (trace_site-IsSame n v)

module _ (s : Setting) where
  pub local_node-IsNext : (l : Local) (v : EdgeVisitor) → Gives v (local_node s l v)
  unfolding local_node fresh_local_for_value
  local_node-IsNext l v = elim (Option-cases (find ◌==◌ l.address v.locals)) [
    | inr (n, e) ↦ rw (e, local_node) (IsNext-refl v)
    | inl unseen ↦
        rw (unseen, local_node)
          (Yields-bind _ _ (fresh (local_name_of s.no_include_debug_data l) v.writers) _
            (fresh-IsFresh (local_name_of s.no_include_debug_data l) v.writers)
            (λ r f. record {
              later = f.later;
              numbered = λ k first h. record {
                rest = h.rest ++ (l.address, r.0) ∷ [];
                locals_eq =
                    ap (λ entries. entries ++ (l.address, r.0) ∷ []) h.locals_eq
                    ∙ append_assoc first h.rest ((l.address, r.0) ∷ []);
                ordered =
                    rw (f.later.this, f.next h.counted)
                      (AreOrdered-append _ k h.rest _ l.address r.0 f.node_eq h.ordered);
                counted = (f.later.locals h.counted).1;
              };
              num_allocas = refl;
            }))
  ]

  pub node-IsNext : (x : Value) (v : EdgeVisitor) → Gives v (node s x v)
  unfolding node
  node-IsNext (constant c) v =
      in_writers-IsNext (constant_node c) v (constant_node-IsLater c v.writers)
  node-IsNext (local_value l) v = local_node-IsNext l v
  node-IsNext inline_asm v = IsNext-refl v
  node-IsNext unknown_value v = tt

  trace_local-IsNext : (n : Node) (x : Value) (v : EdgeVisitor) → Steps v (trace_local s n x v)
  unfolding trace_local
  trace_local-IsNext n x v =
      Gives-then v _ _ (trace_site-IsNext n v)
        (λ site u. insert_some-IsNext (traced s site x (s.type_of x)) u)

  trace_node-IsNext : (x : Value) (n : Node) (v : EdgeVisitor) → Steps v (trace_node s x n v)
  unfolding trace_node
  trace_node-IsNext x n v =
      Yields-value (IsNext v) (local_idx n) _
        (λ l. Yields-option (IsNext v) l _ _ (Steps-ok v) (λ i. trace_local-IsNext n x v))

  pub trace_value-IsNext : (x : Value) (v : EdgeVisitor) → Steps v (trace_value s x v)
  unfolding trace_value
  trace_value-IsNext x v = Yields-value (IsNext v) (assert (not (is_off s.trace_mode))) _ (λ t.
      Gives-then v _ _ (node-IsNext x v)
        (λ n u. Yields-if (IsNext u) (is_set n) _ _ (trace_node-IsNext x n u) (Steps-ok u)))

  pub push_to-IsNext :
      (k : Kind) (label : Label (shape k)) (to : Value) (from : Node) (v : EdgeVisitor)
      → Steps v (push_to s k label to from v)
  unfolding push_to
  push_to-IsNext k label to from v =
      Gives-then v _ _ (node-IsNext to v) (λ n u. push_edge-IsNext k n from label u)

  trace_store-IsNext : (to from : Value) (v : EdgeVisitor) → Steps v (trace_store s to from v)
  unfolding trace_store
  trace_store-IsNext to from v =
      Yields-if (IsNext v) (is_full s.trace_mode) _ _
        (Steps-then v (trace_value s to v) _ (trace_value-IsNext to v)
          (λ u. trace_value-IsNext from u))
        (Steps-ok v)

  pub add_store_edge-IsNext :
      (to from : Value) (v : EdgeVisitor) → Steps v (add_store_edge s to from v)
  unfolding add_store_edge
  add_store_edge-IsNext to from v = Gives-then v _ _ (node-IsNext from v) (λ from_n u.
      Gives-then u _ _ (node-IsNext to u) (λ to_n t.
        Yields-if (IsNext t) (is_set from_n && is_set to_n) _ _
          (Steps-then t _ _ (push_edge-IsNext store to_n from_n tt t) (trace_store-IsNext to from))
          (Steps-ok t)))

  pub add_load_edge-IsNext :
      (to from : Value) (v : EdgeVisitor) → Steps v (add_load_edge s to from v)
  unfolding add_load_edge
  add_load_edge-IsNext to from v =
      Gives-then v _ _ (node-IsNext from v)
        (λ n u. Yields-if (IsNext u) (is_set n) _ _ (push_to-IsNext load tt to n u) (Steps-ok u))

  pub add_assign_edge-IsNext :
      (to from : Value) (v : EdgeVisitor) → Steps v (add_assign_edge s to from v)
  unfolding add_assign_edge
  add_assign_edge-IsNext to from v =
      Gives-then v _ _ (node-IsNext from v)
        (λ n u. Yields-if (IsNext u) (is_set n) _ _ (push_to-IsNext assign tt to n u) (Steps-ok u))
