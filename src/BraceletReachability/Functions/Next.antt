-- ===== src/BraceletReachability/Functions/Next.antt =====
-- The visit of a function's instructions in src/BraceletReachability/BraceletReachability.cpp, and the
-- definition of its arguments, keep the table of locals.
use bracelet.Prelude.{ℕ, suc, Option, List, [], ◌∷◌, refl, weaken}
use bracelet.Edges.Node.{is_set}
use bracelet.Edges.Kind.{return, argument_definition}
use bracelet.Edges.Writer.{Function}
use bracelet.BraceletReachability.Values
use bracelet.BraceletReachability.Values.{Local, Value, local_value, Operation, Instruction}
use bracelet.BraceletReachability.Constants.{symbol_node, this_function}
use bracelet.BraceletReachability.Constants.Reached.{symbol_node-IsLater}
use bracelet.BraceletReachability.Visitor.{Setting, EdgeVisitor, add_assign_edge}
use bracelet.BraceletReachability.Visitor.Next.{
  IsNext, IsNext-trans, IsNext-same, Steps, Steps-then, Gives-then, Yields-value, Yields-option,
  Yields-if, Steps-for_each, Steps-ok, in_writers-IsNext, push_edge-IsNext,
}
use bracelet.BraceletReachability.Visitor.Edges.{
  node-IsNext, push_to-IsNext, add_store_edge-IsNext, add_load_edge-IsNext, add_assign_edge-IsNext,
}
use bracelet.BraceletReachability.Calls.Next.{visit_call_base-IsNext}
use bracelet.BraceletReachability.Functions.{
  define_arguments, free_allocas, add_return_edge, visit_return, assign_both, load_and_store,
  visit_operation, visit,
}

module _ (s : Setting) where
  pub define_arguments-IsNext :
      (idx : ℕ) (args : List Local) (v : EdgeVisitor) → Steps v (define_arguments s idx args v)
  unfolding define_arguments
  define_arguments-IsNext idx [] v = Steps-ok v
  define_arguments-IsNext idx (arg ∷ args) v =
      Yields-value (IsNext v) (this_function v.writers) _ (λ this.
        Steps-then v _ _ (push_to-IsNext s argument_definition idx (local_value arg) this v)
          (define_arguments-IsNext (suc idx) args))

  add_return_edge-IsNext :
      (f : Function) (x : Value) (v : EdgeVisitor) → Steps v (add_return_edge s f x v)
  unfolding add_return_edge
  add_return_edge-IsNext f x v = Gives-then v _ _ (node-IsNext s x v) (λ n u.
      Yields-if (IsNext u) (is_set n) _ _
        (Gives-then u _ _
          (in_writers-IsNext (symbol_node f.value) u (symbol_node-IsLater f.value u.writers))
          (λ m w. push_edge-IsNext return m n tt w))
        (Steps-ok u))

  visit_return-IsNext :
      (f : Function) (x : Option Value) (v : EdgeVisitor) → Steps v (visit_return s f x v)
  unfolding visit_return free_allocas
  visit_return-IsNext f x v =
      let freed : IsNext v (free_allocas s v.allocas_to_free v) = IsNext-same refl refl refl in
      Yields-option (IsNext v) x _ _ freed (λ y.
        weaken (add_return_edge s f y (free_allocas s v.allocas_to_free v))
          (λ u h. IsNext-trans v _ u freed h) (add_return_edge-IsNext f y _))

  assign_both-IsNext : (to x y : Value) (v : EdgeVisitor) → Steps v (assign_both s to x y v)
  unfolding assign_both
  assign_both-IsNext to x y v =
      Steps-then v _ _ (add_assign_edge-IsNext s to x v) (add_assign_edge-IsNext s to y)

  load_and_store-IsNext :
      (to pointer x : Value) (v : EdgeVisitor) → Steps v (load_and_store s to pointer x v)
  unfolding load_and_store
  load_and_store-IsNext to pointer x v =
      Steps-then v _ _ (add_load_edge-IsNext s to pointer v) (add_store_edge-IsNext s pointer x)

  visit_operation-IsNext :
      (f : Function) (self : Local) (o : Operation) (v : EdgeVisitor)
      → Steps v (visit_operation s f self o v)
  unfolding visit_operation
  visit_operation-IsNext f self (Values.alloca size) v = Steps-ok v
  visit_operation-IsNext f self (Values.store p x) v = add_store_edge-IsNext s p x v
  visit_operation-IsNext f self (Values.load p) v = add_load_edge-IsNext s (local_value self) p v
  visit_operation-IsNext f self (Values.atomic_cmp_xchg p x) v = load_and_store-IsNext _ p x v
  visit_operation-IsNext f self (Values.atomic_rmw p x) v = load_and_store-IsNext _ p x v
  visit_operation-IsNext f self (Values.get_element_ptr p) v = add_assign_edge-IsNext s _ p v
  visit_operation-IsNext f self (Values.phi_node xs) v =
      Steps-for_each (add_assign_edge s (local_value self)) xs v (add_assign_edge-IsNext s _)
  visit_operation-IsNext f self (Values.ptr_to_int x) v = add_assign_edge-IsNext s _ x v
  visit_operation-IsNext f self (Values.int_to_ptr x) v = add_assign_edge-IsNext s _ x v
  visit_operation-IsNext f self (Values.bit_cast x) v = add_assign_edge-IsNext s _ x v
  visit_operation-IsNext f self (Values.addr_space_cast x) v = add_assign_edge-IsNext s _ x v
  visit_operation-IsNext f self (Values.select x y) v = assign_both-IsNext _ x y v
  visit_operation-IsNext f self Values.va_arg v = tt
  visit_operation-IsNext f self (Values.extract_element x) v = add_assign_edge-IsNext s _ x v
  visit_operation-IsNext f self (Values.insert_element x y) v = assign_both-IsNext _ x y v
  visit_operation-IsNext f self (Values.shuffle_vector x y) v = assign_both-IsNext _ x y v
  visit_operation-IsNext f self (Values.extract_value x) v = add_assign_edge-IsNext s _ x v
  visit_operation-IsNext f self (Values.insert_value x y) v = assign_both-IsNext _ x y v
  visit_operation-IsNext f self (Values.freeze x) v = add_assign_edge-IsNext s _ x v
  visit_operation-IsNext f self (Values.return_value x) v = visit_return-IsNext f x v
  visit_operation-IsNext f self (Values.cast_value x) v = add_assign_edge-IsNext s _ x v
  visit_operation-IsNext f self (Values.unary_operator x) v = add_assign_edge-IsNext s _ x v
  visit_operation-IsNext f self (Values.binary_operator x y) v = assign_both-IsNext _ x y v
  visit_operation-IsNext f self (Values.call_base c) v = visit_call_base-IsNext s self c v
  visit_operation-IsNext f self Values.other_operation v = Steps-ok v

  pub visit-IsNext : (f : Function) (i : Instruction) (v : EdgeVisitor) → Steps v (visit s f i v)
  unfolding visit
  visit-IsNext f i v = visit_operation-IsNext f i.self i.operation v
