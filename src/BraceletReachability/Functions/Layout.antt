-- ===== src/BraceletReachability/Functions/Layout.antt =====
-- The table of locals that src/BraceletReachability/BraceletReachability.cpp makes for a function,
-- against `NumAllocas`.
use bracelet.Prelude.{
  ℕ, ◌+◌, ◌%◌, ◌^◌, ◌≡◌, refl, sym, subst, ◌∙◌, Bool, inl, inr, List, [], ◌++◌, append-nil, length,
  ok, for_each, arith, if◌then◌else◌, Bool-cases, Yields, Yields-bind, Yields-ok, weaken,
}
use bracelet.Edges.Node.{Node}
use bracelet.Edges.Kind.{store, argument_definition}
use bracelet.BraceletReachability.Names.{var_args_alloca, var_args_area, var_args_name}
use bracelet.BraceletReachability.Constants.{Writers, fresh, this_function}
use bracelet.BraceletReachability.Constants.Later.{IsCounted, IsFresh, fresh-IsFresh}
use bracelet.BraceletReachability.Visitor.{Setting, EdgeVisitor, in_writers}
use bracelet.BraceletReachability.Visitor.Next.{
  AreOrdered, IsNumbered, IsNext, IsNext-trans, Yields-value, Steps-for_each, push_edge-IsNext,
}
use bracelet.BraceletReachability.Calls.Next.{fresh-IsNext}
use bracelet.BraceletReachability.Functions.{
  Body, new_visitor, pre_process, set_up_var_args, define_arguments, new_edge_visitor, visit,
  run_visitor,
}
use bracelet.BraceletReachability.Functions.Next.{define_arguments-IsNext, visit-IsNext}
use bracelet.BraceletReachability.Functions.Allocas.{
  alloca_addresses, local_addresses, AreFirst, IsAllocated, allocated,
}

-- The allocations of a function besides its `alloca` instructions.
abbrev pub var_arg_allocas : Bool → ℕ
var_arg_allocas is_var_arg = if is_var_arg then 2 else 0

-- The locals of a function: those of its `alloca` instructions are the first ones, in order; with the
-- two of a variadic function they are as many as `num_allocas`; all other values have locals from
-- there on, one each.
pub record IsLaidOut (f : Body) (v : EdgeVisitor) : Type 0 where
  pub allocas : List (ℕ × Node)
  pub rest : List (ℕ × Node)
  pub locals_eq : v.locals ≡ allocas ++ rest
  pub addresses_eq : local_addresses allocas ≡ alloca_addresses f.instructions
  pub first : AreFirst v.writers.function.this_symbol_idx 0 allocas
  pub num_allocas : v.num_allocas ≡ length allocas + var_arg_allocas f.is_var_arg
  pub ordered :
      AreOrdered v.writers.function.this_symbol_idx v.num_allocas rest v.writers.function.num_locals

-- The table after the constructor has numbered the allocations.
record IsStarted (allocas : List (ℕ × Node)) (count : ℕ) (v u : EdgeVisitor) : Type 0 where
  this_eq : u.writers.function.this_symbol_idx ≡ v.writers.function.this_symbol_idx
  numbered : IsNumbered count allocas u
  num_allocas : u.num_allocas ≡ count

IsStarted-IsNext :
    {allocas : List (ℕ × Node)} {count : ℕ} {v u w : EdgeVisitor}
    → IsNext u w
    → IsStarted allocas count v u
    → IsStarted allocas count v w
IsStarted-IsNext n h = record {
  this_eq = n.later.this ∙ h.this_eq;
  numbered = n.numbered _ _ h.numbered;
  num_allocas = n.num_allocas ∙ h.num_allocas;
}

fresh_numbered :
    (name : List ℕ) (v : EdgeVisitor)
    → Yields
        (λ r.
          IsFresh v.writers r.0 r.1.writers
          × (r.1.locals ≡ v.locals)
          × (r.1.num_allocas ≡ v.num_allocas))
        (in_writers (fresh name) v)
fresh_numbered name v =
    Yields-bind _ _ (fresh name v.writers) _ (fresh-IsFresh name v.writers) (λ r f. (f, refl, refl))

-- The table after the two locals of a `va_list`, and at the end of the constructor's part for it.
var_args_done :
    (this : ℕ) (v u c : EdgeVisitor) (n : Node)
    → IsAllocated this v
    → v.num_allocas ≡ length v.locals
    → u.writers.function.this_symbol_idx ≡ v.writers.function.this_symbol_idx
    → u.locals ≡ v.locals
    → u.writers.function.num_locals ≡ v.writers.function.num_locals + 2
    → IsCounted u.writers
    → IsNext u c
    → IsStarted v.locals
        (length v.locals + 2)
        v
        (record c { var_args = n; num_allocas = (v.num_allocas + 2) % 2 ^ 32 })
var_args_done this v u c n h allocas same_this same_locals number counted next =
    let start : IsNumbered (length v.locals + 2) v.locals u = record {
      rest = [];
      locals_eq = same_locals ∙ sym (append-nil v.locals);
      ordered = omega (arith, number, h.number);
      counted = counted;
    } in
    let at = next.numbered (length v.locals + 2) v.locals start in
    record {
      this_eq = next.later.this ∙ same_this;
      numbered = record {
        rest = at.rest;
        locals_eq = at.locals_eq;
        ordered = at.ordered;
        counted = at.counted;
      };
      num_allocas = omega (arith, number, h.number, allocas, counted);
    }

set_up_var_args-IsStarted :
    (s : Setting) (this arg_size : ℕ) (v : EdgeVisitor)
    → IsAllocated this v
    → v.num_allocas ≡ length v.locals
    → Yields (IsStarted v.locals (length v.locals + 2) v) (set_up_var_args s arg_size v)
unfolding set_up_var_args
set_up_var_args-IsStarted s this arg_size v h allocas =
    Yields-bind _ _ (in_writers (fresh var_args_alloca) v) _ (fresh_numbered var_args_alloca v)
      (λ r f.
        Yields-bind _ _ (in_writers (fresh var_args_area) r.1) _ (fresh_numbered var_args_area r.1)
          (λ q g.
            Yields-bind (λ p. IsNext q.1 p.1) _ (in_writers (fresh var_args_name) q.1) _
              (fresh-IsNext var_args_name q.1)
              (λ p n₁.
                let counted = (f.0.later.locals h.counted).1 in
                let counted' = (g.0.later.locals counted).1 in
                let number : q.1.writers.function.num_locals ≡ v.writers.function.num_locals + 2 =
                  omega (arith, f.0.next h.counted, g.0.next counted) in
                Yields-value _ (this_function p.1.writers) _ (λ this_node.
                  Yields-bind _ _ _ _
                    (push_edge-IsNext argument_definition p.0 this_node arg_size p.1)
                    (λ a n₂. Yields-bind _ _ _ _ (push_edge-IsNext store q.0 p.0 tt a) (λ b n₃.
                      Yields-bind _ _ _ _ (push_edge-IsNext store r.0 q.0 tt b) (λ c n₄.
                        var_args_done this v q.1 c r.0 h allocas (g.0.later.this ∙ f.0.later.this)
                          (g.1 ∙ f.1) number counted'
                          (IsNext-trans q.1 p.1 c n₁
                            (IsNext-trans p.1 a c n₂ (IsNext-trans a b c n₃ n₄))))))))))

-- The constructor up to the definition of the arguments, from the table of the `alloca`s on.
started :
    (s : Setting) (this : ℕ) (f : Body) (v : EdgeVisitor)
    → IsAllocated this v
    → let counted : EdgeVisitor = record v { num_allocas = length v.locals % 2 ^ 32 } in
      Yields
        (IsStarted v.locals (length v.locals + var_arg_allocas f.is_var_arg) counted)
        (if f.is_var_arg then set_up_var_args s (length f.args) counted else ok counted)
started s this f v h =
    let counted : EdgeVisitor = record v { num_allocas = length v.locals % 2 ^ 32 } in
    let h' : IsAllocated this counted = record {
      this_eq = h.this_eq;
      first = h.first;
      number = h.number;
      counted = h.counted;
    } in
    let fits : length v.locals % 2 ^ 32 ≡ length v.locals = omega (arith, h.number, h.counted) in
    elim (Bool-cases f.is_var_arg) [
      | inl variadic ↦
          rw variadic (set_up_var_args-IsStarted s this (length f.args) counted h' fits)
      | inr plain ↦ rw plain (record {
        this_eq = refl;
        numbered = record {
          rest = [];
          locals_eq = sym (append-nil v.locals);
          ordered = omega (arith, h.number);
          counted = h.counted;
        };
        num_allocas = omega (arith, fits);
      })
    ]

-- What is known of the table after the constructor and after every instruction.
abbrev IsKept : Body → Writers → EdgeVisitor → Type 0
IsKept f w u =
    (allocas : List (ℕ × Node)) × (local_addresses allocas ≡ alloca_addresses f.instructions)
    × AreFirst w.function.this_symbol_idx 0 allocas
    × IsStarted allocas (length allocas + var_arg_allocas f.is_var_arg) (new_visitor w) u

new_edge_visitor-IsKept :
    (s : Setting) (f : Body) (w : Writers)
    → w.function.num_locals ≡ 0
    → Yields (IsKept f w) (new_edge_visitor s f w)
unfolding new_edge_visitor
new_edge_visitor-IsKept s f w none_yet =
    let this = w.function.this_symbol_idx in
    let fresh_one : IsAllocated this (new_visitor w) = record {
      this_eq = refl;
      first = tt;
      number = none_yet;
      counted = omega (arith, none_yet);
    } in
    Yields-bind _ _ (for_each (pre_process s) f.instructions (new_visitor w)) _
      (allocated s this f.instructions (new_visitor w) fresh_one)
      (λ v h.
        Yields-bind _ (IsKept f w) _ (define_arguments s 0 f.args) (started s this f v h.0) (λ u k.
          weaken {Q = IsKept f w} (define_arguments s 0 f.args u)
            (λ z n.
              let at = IsStarted-IsNext n k in
              (
                v.locals,
                h.1,
                h.0.first,
                record {
                  this_eq = at.this_eq ∙ h.0.this_eq;
                  numbered = at.numbered;
                  num_allocas = at.num_allocas;
                },
              ))
            (define_arguments-IsNext s 0 f.args u)))

-- A fresh function's table of locals after the visit of the whole function is laid out: the `alloca`
-- instructions have the locals 0, 1 and so on in their order, `NumAllocas` counts them and the two
-- allocations of a variadic function, and every other value in the table has a local of its own, not
-- below `NumAllocas` and below the number of locals.
pub run_visitor-IsLaidOut :
    (s : Setting) (f : Body) (w : Writers) {v : EdgeVisitor}
    → w.function.num_locals ≡ 0
    → run_visitor s f w ≡ ok v
    → IsLaidOut f v
unfolding run_visitor
run_visitor-IsLaidOut s f w {v} none_yet run =
    let (u, (allocas, addresses_eq, first, at)) = Yields-ok _ (run_visitor s f w) run (
      Yields-bind _ (λ v. (u : EdgeVisitor) × IsKept f w v) (new_edge_visitor s f w) _
        (new_edge_visitor-IsKept s f w none_yet)
        (λ u k.
          weaken (for_each (visit s f.function) f.instructions u)
            (λ v n. (u, (k.0, k.1, k.2, IsStarted-IsNext n k.3)))
            (Steps-for_each (visit s f.function) f.instructions u (visit-IsNext s f.function)))) in
    record {
      allocas = allocas;
      rest = at.numbered.rest;
      locals_eq = at.numbered.locals_eq;
      addresses_eq = addresses_eq;
      first = subst (λ this. AreFirst this 0 allocas) (sym at.this_eq) first;
      num_allocas = at.num_allocas;
      ordered =
          subst
            (λ count.
              AreOrdered v.writers.function.this_symbol_idx count at.numbered.rest
                v.writers.function.num_locals)
            (sym at.num_allocas) at.numbered.ordered;
    }
