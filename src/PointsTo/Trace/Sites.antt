-- ===== src/PointsTo/Trace/Sites.antt =====
-- The loop over the trace sites of a section in `checkPointsToAgainstTrace` of
-- src/PointsTo/PointsTo.cpp.
use bracelet.Prelude.{
  ◌⊎◌, ◌≢◌, subst, ℕ, zero, suc, ◌+◌, ◌*◌, ◌%◌, ◌/◌, ◌^◌, ◌≤◌, ◌<◌, ◌≡◌, inl, inr, refl, ◌∙◌, ap,
  true, false, List, ok, ◌>>=◌, arith, leb, le→leb, leb_lt, Bool-cases,
}
use native.Mathlib.Nat.{div-add-mod, mod-lt, div-le_self}
use bracelet.Edges.Bytes.{Text, equal, equal_refl, equal→eq}
use bracelet.Edges.Node.{Node, of_local}
use bracelet.Edges.Section.{Section}
use bracelet.PointsTo.States.{assign_entry}
use bracelet.PointsTo.Trace.{SiteFormat, read_sites, section_sites}

-- The first addresses of the sites that lie within an area.
abbrev pub IsSite : ℕ → ℕ → ℕ → ℕ → Type 0
IsSite size start end addr = (i : ℕ) × (addr ≡ start + i * size) × (addr + size ≤ end)

-- The node that a site stands for.
abbrev pub SiteNode : SiteFormat → ℕ → Node → Type 0
SiteNode format addr n = (p : ℕ × ℕ) × (format.load_site addr ≡ ok p) × (of_local p.0 p.1 ≡ ok n)

-- The sites of an area can be read, and stand for these nodes.
abbrev pub AreSiteNodes : SiteFormat → (ℕ → Node) → ℕ → ℕ → Type 0
AreSiteNodes format node_at start end =
    (addr : ℕ) → IsSite format.size_of_site start end addr → SiteNode format addr (node_at addr)

-- The sites of an area, in order, entered into a map.
abbrev pub enter_sites : (ℕ → Node) → ℕ → ℕ → ℕ → List (ℕ × Node) → List (ℕ × Node)
enter_sites node_at size zero addr sites = sites
enter_sites node_at size (suc count) addr sites =
    enter_sites node_at size count (addr + size) (assign_entry addr (node_at addr) sites)

module _ (format : SiteFormat) (node_at : ℕ → Node) where
  read_sites_eq :
      (fuel end addr : ℕ) (sites : List (ℕ × Node))
      → read_sites format (suc fuel) end addr sites
        ≡ (elim (leb ((addr + format.size_of_site) % 2 ^ 64) end) [
          | false ↦ ok sites
          | true ↦ format.load_site addr >>= λ r. of_local r.0 r.1 >>= λ n.
              read_sites format fuel end
                ((addr + format.size_of_site) % 2 ^ 64)
                (assign_entry addr n sites)
        ])
  unfolding read_sites
  read_sites_eq fuel end addr sites = refl

  -- One more site, or none.
  read_sites_more :
      (fuel end addr : ℕ) (sites : List (ℕ × Node))
      → addr + format.size_of_site ≤ end
      → end < 2 ^ 64
      → SiteNode format addr (node_at addr)
      → read_sites format (suc fuel) end addr sites
        ≡ read_sites format fuel end
            (addr + format.size_of_site)
            (assign_entry addr (node_at addr) sites)
  read_sites_more fuel end addr sites fits small (p, loaded, node_eq) =
      let sum : (addr + format.size_of_site) % 2 ^ 64 ≡ addr + format.size_of_site = omega arith in
      let within : leb ((addr + format.size_of_site) % 2 ^ 64) end ≡ true =
        le→leb _ end (rw sum fits) in
      read_sites_eq fuel end addr sites
      ∙ rw (within, loaded, node_eq)
          (ap (λ next. read_sites format fuel end next (assign_entry addr (node_at addr) sites))
            sum)

  read_sites_end :
      (fuel end addr : ℕ) (sites : List (ℕ × Node))
      → end < addr + format.size_of_site
      → addr + format.size_of_site < 2 ^ 64
      → read_sites format (suc fuel) end addr sites ≡ ok sites
  read_sites_end fuel end addr sites above small =
      let sum : (addr + format.size_of_site) % 2 ^ 64 ≡ addr + format.size_of_site = omega arith in
      read_sites_eq fuel end addr sites ∙ rw (sum, leb_lt (addr + format.size_of_site) end above)

  -- The sites behind the first one.
  later_sites :
      (end addr : ℕ)
      → AreSiteNodes format node_at addr end
      → AreSiteNodes format node_at (addr + format.size_of_site) end
  later_sites end addr readable a (i, e, fits) =
      let size = format.size_of_site in
      let more : suc i * size ≡ size + i * size = omega arith in
      readable a (suc i, omega (arith, e, more), fits)

  read_sites-enter_sites :
      (fuel count end addr : ℕ) (sites : List (ℕ × Node))
      → count < fuel
      → addr + count * format.size_of_site ≤ end
      → end < addr + suc count * format.size_of_site
      → end + format.size_of_site < 2 ^ 64
      → AreSiteNodes format node_at addr end
      → read_sites format fuel end addr sites
        ≡ ok (enter_sites node_at format.size_of_site count addr sites)
  read_sites-enter_sites zero count end addr sites more fits above small readable =
      absurd (omega arith)
  read_sites-enter_sites (suc fuel) zero end addr sites more fits above small readable =
      read_sites_end fuel end addr sites (omega arith) (omega arith)
  read_sites-enter_sites (suc fuel) (suc count) end addr sites more fits above small readable =
      let size = format.size_of_site in
      let head : suc count * size ≡ size + count * size = omega arith in
      let next : suc (suc count) * size ≡ size + suc count * size = omega arith in
      let here : SiteNode format addr (node_at addr) =
        readable addr (0, omega arith, omega (arith, head)) in
      read_sites_more fuel end addr sites (omega (arith, head)) (omega arith) here
      ∙ read_sites-enter_sites fuel count end (addr + size) (assign_entry addr (node_at addr) sites)
          (omega arith) (omega (arith, head)) (omega (arith, next)) small
          (later_sites end addr readable)

-- The trace sites of a section are at its start and from there on, one behind the other, as far as they
-- fit into it. If the section has the name of the trace sites, lies below the last addresses, and each
-- of its sites can be read, as a node, the loop ends with exactly these sites entered, each with its
-- node. From a section of another name, which need not be readable, no site is entered.
pub section_sites-enter_sites :
    (format : SiteFormat) (node_at : ℕ → Node) (name : Text) (s : Section) (sites : List (ℕ × Node))
    → 0 < format.size_of_site
    → s.start + s.size + format.size_of_site < 2 ^ 64
    → (s.name ≡ name → AreSiteNodes format node_at s.start (s.start + s.size))
    → ((s.name ≡ name)
        × (section_sites format name s sites
            ≡ ok (
                enter_sites node_at format.size_of_site
                  (s.size / format.size_of_site)
                  s.start
                  sites)))
      ⊎ ((s.name ≢ name) × (section_sites format name s sites ≡ ok sites))
unfolding section_sites
section_sites-enter_sites format node_at name s sites positive low readable =
    elim (Bool-cases (equal s.name name)) [
      | inr other ↦ inr (
        (λ e. absurd (cc (subst (λ n. equal s.name n ≡ true) e (equal_refl s.name), other))),
        rw (other, section_sites),
      )
      | inl same ↦
          let size = format.size_of_site in
          let count = s.size / size in
          let sum : (s.start + s.size) % 2 ^ 64 ≡ s.start + s.size = omega arith in
          let split = div-add-mod s.size size in
          let left = mod-lt s.size positive in
          let e = equal→eq s.name name same in
          inl (
            e,
            rw (same, section_sites, sum)
                (read_sites-enter_sites format node_at (suc s.size) count (s.start + s.size) s.start
                  sites (omega (arith, div-le_self s.size size)) (omega (arith, split))
                  (omega (arith, split, left)) low (readable e)),
          )
    ]
