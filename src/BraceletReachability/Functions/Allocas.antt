-- ===== src/BraceletReachability/Functions/Allocas.antt =====
-- The table of locals that src/BraceletReachability/BraceletReachability.cpp makes for a function: the
-- constructor of `EdgeVisitor` against `NumAllocas`.
use bracelet.Prelude.{
  ℕ, suc, ◌+◌, ◌≡◌, refl, sym, ap, ◌∙◌, false, Option, none, some, List, [], ◌∷◌, ◌++◌,
  append_assoc, append-nil, map, length, length-append, ok, assert, for_each, arith, ◌==◌, Yields,
  Yields-bind, weaken,
}
use mathlib.Core.List.{map-append}
use native.Mathlib.Nat.{zero-add}
use bracelet.BraceletReachability.Visitor.Edges.{IsSame, trace_site-IsSame}
use bracelet.Edges.Node.{Node, of_local, local_idx}
use bracelet.BraceletReachability.Values
use bracelet.BraceletReachability.Values.{Local, Instruction, Operation}
use bracelet.BraceletReachability.Names.{alloca_prefix}
use bracelet.BraceletReachability.Constants.{fresh}
use bracelet.BraceletReachability.Constants.Later.{IsCounted, IsFresh, fresh-IsFresh}
use bracelet.BraceletReachability.Visitor.{
  Setting, EdgeVisitor, in_writers, trace_site, insert_call,
}
use bracelet.BraceletReachability.Visitor.Next.{Yields-value, Yields-option}
use bracelet.BraceletReachability.Functions.{
  name_or_empty, replace_alloca, traced_size, preprocess_visit_alloca, pre_process,
}

-- The addresses of the `alloca` instructions, in order.
abbrev pub address_if_alloca : Local → Operation → List ℕ
address_if_alloca self (Values.alloca size) = self.address ∷ []
address_if_alloca self _ = []

abbrev pub alloca_addresses : List Instruction → List ℕ
alloca_addresses [] = []
alloca_addresses (i ∷ is) = address_if_alloca i.self i.operation ++ alloca_addresses is

abbrev pub local_addresses : List (ℕ × Node) → List ℕ
local_addresses = map (λ e. e.0)

-- The nodes of a table are the locals `j`, `j + 1` and so on of the function `this`.
abbrev pub AreFirst : ℕ → ℕ → List (ℕ × Node) → Type 0
AreFirst this j [] = Unit {0}
AreFirst this j ((a, n) ∷ entries) = (of_local this j ≡ ok n) × AreFirst this (suc j) entries

AreFirst-append :
    (this j : ℕ) (entries : List (ℕ × Node)) (a : ℕ) (n : Node)
    → AreFirst this j entries
    → of_local this (j + length entries) ≡ ok n
    → AreFirst this j (entries ++ (a, n) ∷ [])
AreFirst-append this j [] a n h e = let z : j + 0 ≡ j = omega arith in (rw z at e, tt)
AreFirst-append this j ((b, m) ∷ entries) a n (h, k) e =
    let z : j + suc (length entries) ≡ suc j + length entries = omega arith in
    (h, AreFirst-append this (suc j) entries a n k (rw z at e))

-- While the `alloca` instructions are visited, they alone are in the table.
pub record IsAllocated (this : ℕ) (v : EdgeVisitor) : Type 0 where
  pub this_eq : v.writers.function.this_symbol_idx ≡ this
  pub first : AreFirst this 0 v.locals
  pub number : v.writers.function.num_locals ≡ length v.locals
  pub counted : IsCounted v.writers

module _ (s : Setting) where
  replace_alloca-IsSame :
      (self : Local) (n : Node) (size : ℕ) (v : EdgeVisitor)
      → Yields (IsSame v) (replace_alloca s self n size v)
  unfolding replace_alloca insert_call
  replace_alloca-IsSame self n size v =
      Yields-bind _ _ (trace_site n v) _ (trace_site-IsSame n v) (λ r h. h)

  -- What is left of the first visit of an `alloca` once it has its local.
  entered :
      (this : ℕ) (self : Local) (n : Node) (v v₁ u : EdgeVisitor)
      → IsAllocated this v
      → IsFresh v.writers n v₁.writers
      → v₁.locals ≡ v.locals
      → IsSame v₁ u
      → let w : EdgeVisitor = record u { locals = u.locals ++ (self.address, n) ∷ [] } in
        IsAllocated this w
        × (local_addresses w.locals ≡ local_addresses v.locals ++ self.address ∷ [])
  entered this self n v v₁ u h f same k =
      let locals_eq : u.locals ≡ v.locals = k.1 ∙ same in
      let at : of_local this (0 + length v.locals) ≡ ok n =
        cc (f.node_eq, h.this_eq, h.number, zero-add (length v.locals)) in
      (
        record {
          this_eq = rw (k.0, f.later.this) h.this_eq;
          first = rw locals_eq (AreFirst-append this 0 v.locals self.address n h.first at);
          number =
              rw (k.0, locals_eq, f.next h.counted, h.number)
                (omega (arith, length-append v.locals ((self.address, n) ∷ [])));
          counted = rw k.0 ((f.later.locals h.counted).1);
        },
        rw locals_eq (map-append _ v.locals _),
      )

  preprocess_lem :
      (this : ℕ) (self : Local) (size : Option ℕ) (v : EdgeVisitor)
      → IsAllocated this v
      → Yields
          (λ u.
            IsAllocated this u
            × (local_addresses u.locals ≡ local_addresses v.locals ++ self.address ∷ []))
          (preprocess_visit_alloca s self size v)
  unfolding preprocess_visit_alloca
  preprocess_lem this self size v h =
      let name = alloca_prefix ++ name_or_empty self.name in
      Yields-bind
        (λ (r : Node × EdgeVisitor). IsFresh v.writers r.0 r.1.writers × (r.1.locals ≡ v.locals)) _
        (in_writers (fresh name) v) _
        (Yields-bind _ _ (fresh name v.writers) _ (fresh-IsFresh name v.writers) (λ r f. (f, refl)))
        (λ r f. Yields-value _ (local_idx r.0) _ (λ l.
          Yields-value _ (assert (elim l [ none ↦ false | some i ↦ i == length r.1.locals ])) _
            (λ t.
              Yields-bind (IsSame r.1) _ _ _
                (Yields-option _ (traced_size s size) _ _ (refl, refl, refl)
                  (λ bytes. replace_alloca-IsSame self r.0 bytes r.1))
                (λ u k. entered this self r.0 v r.1 u h f.0 f.1 k))))

  pre_process_lem :
      (this : ℕ) (self : Local) (o : Operation) (v : EdgeVisitor)
      → IsAllocated this v
      → Yields
          (λ u.
            IsAllocated this u
            × (local_addresses u.locals ≡ local_addresses v.locals ++ address_if_alloca self o))
          (pre_process s (record { self = self; operation = o }) v)
  unfolding pre_process
  pre_process_lem this self (Values.alloca size) v h = preprocess_lem this self size v h
  pre_process_lem this self _ v h = (h, sym (append-nil _))

  pub allocated :
      (this : ℕ) (is : List Instruction) (v : EdgeVisitor)
      → IsAllocated this v
      → Yields
          (λ u.
            IsAllocated this u
            × (local_addresses u.locals ≡ local_addresses v.locals ++ alloca_addresses is))
          (for_each (pre_process s) is v)
  allocated this [] v h = (h, sym (append-nil _))
  allocated this (i ∷ is) v h =
      Yields-bind _ _ (pre_process s i v) _ (pre_process_lem this i.self i.operation v h) (λ u k.
        weaken (for_each (pre_process s) is u)
          (λ w l. (
            l.0,
            l.1
                ∙ ap (λ xs. xs ++ alloca_addresses is) k.1
                ∙ append_assoc (local_addresses v.locals) (address_if_alloca i.self i.operation)
                    (alloca_addresses is),
          ))
          (allocated this is u k.0))
