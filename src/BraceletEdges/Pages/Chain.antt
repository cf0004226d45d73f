-- ===== src/BraceletEdges/Pages/Chain.antt =====
-- Lists of the pages of `dlsym`, for the loop of `visit_edge_inner` of bracelet-edges.cpp.
use bracelet.Prelude.{
  ◌+◌, ◌%◌, ◌^◌, ◌≤◌, ◌⊎◌, inl, inr, ◌∷◌, length, take-append, ℕ, zero, suc, ◌<◌, ◌≡◌, ◌≢◌, refl,
  sym, ◌∙◌, List, [], ◌++◌, ok, for_each, for_each-append, bind_ext, ==_ne, arith,
}
use bracelet.Edges.Node.{Node}
use bracelet.Tracing.Simplify.{number_of_bytes}
use bracelet.BraceletEdges.Visitor.{Facts, PrintingOptions, EdgeOutputVisitor}
use bracelet.BraceletEdges.Pages.{min_of, pointer_at, page_pointers, assign_symbol, visit_pages}

-- A list of `n` pages that ends with a null pointer, and the pointers on the pages, in order. A page is
-- the pointer to the next page, a count in 8 bytes, and 2046 words, of which the first are its pointers:
-- as many as the count says, but no more than the words.
pub data Chain (facts : Facts) : ℕ → ℕ → List ℕ → Type 0 where
  last : Chain facts 0 0 []
  page :
      (addr next n : ℕ) (count here spare rest : List ℕ)
      → addr ≢ 0
      → facts.copy_data 8 ((addr + 8) % 2 ^ 64) ≡ ok count
      → facts.resolve_pointers 2046 ((addr + 16) % 2 ^ 64) ≡ ok (here ++ spare)
      → ((length here ≡ number_of_bytes count) × (number_of_bytes count ≤ 2046))
        ⊎ ((length here ≡ 2046) × (2046 < number_of_bytes count))
      → facts.resolve_pointers 1 addr ≡ ok (next ∷ [])
      → Chain facts next n rest
      → Chain facts addr (suc n) (here ++ rest)

page_pointers_eq :
    (facts : Facts) (addr : ℕ) (count here spare : List ℕ)
    → facts.copy_data 8 ((addr + 8) % 2 ^ 64) ≡ ok count
    → facts.resolve_pointers 2046 ((addr + 16) % 2 ^ 64) ≡ ok (here ++ spare)
    → ((length here ≡ number_of_bytes count) × (number_of_bytes count ≤ 2046))
      ⊎ ((length here ≡ 2046) × (2046 < number_of_bytes count))
    → page_pointers facts addr ≡ ok here
unfolding page_pointers
page_pointers_eq facts addr count here spare p q bound =
    let least : min_of (number_of_bytes count) 2046 ≡ length here = elim bound [
      | inl (exact, fits) ↦ ground (arith, exact, fits)
      | inr (full, above) ↦ ground (arith, full, above)
    ] in
    rw (p, q, least, take-append here spare)

pointer_at_eq :
    (facts : Facts) (addr next : ℕ)
    → facts.resolve_pointers 1 addr ≡ ok (next ∷ [])
    → pointer_at facts addr ≡ ok next
unfolding pointer_at
pointer_at_eq facts addr next q = rw q

-- On a list of pages that ends, more rounds than there are pages are enough, and the loop prints an
-- assignment for each pointer of the pages, in order, up to the first error.
pub visit_pages-for_each :
    (facts : Facts) (options : PrintingOptions) (dlsym_output : Node) (fuel addr n : ℕ)
    (pointers : List ℕ) (v : EdgeOutputVisitor)
    → Chain facts addr n pointers
    → n < fuel
    → visit_pages facts options fuel dlsym_output addr v
      ≡ for_each (assign_symbol facts options dlsym_output) pointers v
unfolding visit_pages
visit_pages-for_each facts options to zero addr n pointers v c h = absurd (omega (arith, h))
visit_pages-for_each facts options to (suc fuel) addr n pointers v last h = refl
visit_pages-for_each facts options to (suc fuel) addr n pointers v
      (page addr' next m count here spare rest ne p r bound q c) h =
    rw
      (
        visit_pages,
        ==_ne addr' 0 ne,
        page_pointers_eq facts addr' count here spare p r bound,
        pointer_at_eq facts addr' next q,
      )
      (bind_ext (for_each (assign_symbol facts options to) here v) _ _
          (λ v'. visit_pages-for_each facts options to fuel next m rest v' c (omega (arith, h)))
        ∙ sym (for_each-append (assign_symbol facts options to) here rest v))
