-- ===== src/BraceletReachability/Functions/Bounds.antt =====
-- `NumAllocas` and the number of locals of a function in
-- src/BraceletReachability/BraceletReachability.cpp.
use bracelet.Prelude.{ℕ, suc, ◌+◌, ◌≤◌, ◌≡◌, List, [], ◌∷◌, ok, arith, length, length-append}
use bracelet.Edges.Node.{Node}
use bracelet.BraceletReachability.Constants.{Writers}
use bracelet.BraceletReachability.Visitor.{Setting, EdgeVisitor}
use bracelet.BraceletReachability.Visitor.Next.{AreOrdered}
use bracelet.BraceletReachability.Functions.{Body, run_visitor}
use bracelet.BraceletReachability.Functions.Layout.{run_visitor-IsLaidOut}

AreOrdered-length :
    (this low : ℕ) (entries : List (ℕ × Node)) (high : ℕ)
    → AreOrdered this low entries high
    → low + length entries ≤ high
AreOrdered-length this low [] high h = omega (arith, h)
AreOrdered-length this low ((a, n) ∷ entries) high (i, l, e, h) =
    omega (arith, AreOrdered-length this (suc i) entries high h)

-- The number of allocations that the visit of a fresh function hands to `finish` is at most the number
-- of its locals, which the reader asks of a function, and so is the number of values in the table.
pub run_visitor-le :
    (s : Setting) (f : Body) (w : Writers) {v : EdgeVisitor}
    → w.function.num_locals ≡ 0
    → run_visitor s f w ≡ ok v
    → (v.num_allocas ≤ v.writers.function.num_locals)
      × (length v.locals ≤ v.writers.function.num_locals)
run_visitor-le s f w none_yet run =
    let h = run_visitor-IsLaidOut s f w none_yet run in
    let more = AreOrdered-length _ _ h.rest _ h.ordered in
    (
      omega (arith, more),
      rw h.locals_eq (omega (arith, length-append h.allocas h.rest, h.num_allocas, more)),
    )
