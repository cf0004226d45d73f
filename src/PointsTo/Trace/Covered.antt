-- ===== src/PointsTo/Trace/Covered.antt =====
-- `checkPointsToAgainstTrace` of src/PointsTo/PointsTo.cpp against the entries of the traces.
use bracelet.Prelude.{
  ℕ, ◌≡◌, missing_edges, ◌>>◌, ◌↔◌, inl, inr, refl, sym, ap, ◌∙◌, Option, none, some, List, [], ◌∷◌,
  ◌++◌, Result, ok, err, ◌>>=◌, for_each, Result-cases, Bool-cases,
}
use bracelet.Edges.Bytes.{Text}
use bracelet.Edges.Node.{Node}
use bracelet.Edges.Section.{Section}
use bracelet.Tracing.HashSet.{TraceEdge}
use bracelet.PointsTo.Trace.{
  Edges, holds_pair, insert_pair, SiteFormat, section_sites, Resolved, trace_pair, Check,
  check_pair, check_entry, check_files, print_missing, report, check_points_to_against_trace,
}
use bracelet.PointsTo.Trace.Chain.{
  All, All-map, IsFaithful, for_each-passes, for_each-only, IsFaithful-for_each,
}
use bracelet.PointsTo.Trace.Entries.{IsCovered, HasPair, IsCovered-HasPair, HasPair-IsCovered}

not_empty : (p : Node × Node) (es : Edges) → ¬ (insert_pair p es ≡ [])
unfolding insert_pair holds_pair
not_empty p [] h = absurd (cc h)
not_empty p (e ∷ es) h = elim (Bool-cases (holds_pair p (e ∷ es))) [
  | inl held ↦
      let kept : insert_pair p (e ∷ es) ≡ e ∷ es = rw (held, insert_pair) in absurd (cc (kept, h))
  | inr fresh ↦
      let longer : insert_pair p (e ∷ es) ≡ e ∷ (es ++ p ∷ []) = rw (fresh, insert_pair) in
      absurd (cc (longer, h))
]

failing :
    {B : Type 0} (m : Result (Unit {0})) → ◌>>◌ {B = Unit {0}} m (err missing_edges) ≡ ok tt → B
failing (ok u) h = absurd (cc h)
failing (err e) h = absurd (cc h)

module _ (resolve : ℕ → Resolved) (print : Node → Result (Unit {0})) (static_edges : Edges) where
  checked :
      (sites : List (ℕ × Node)) (e : TraceEdge) (c : Check) (o : Option (Node × Node))
      → trace_pair resolve print sites e ≡ ok o
      → check_entry resolve print static_edges sites e c ≡ ok (check_pair static_edges o c)
  unfolding check_entry
  checked sites e c o h = rw (h, check_entry)

  -- An edge that is missing stays so.
  pair_missing :
      (sites : List (ℕ × Node)) (e : TraceEdge) (c : Check) (o : Option (Node × Node))
      → trace_pair resolve print sites e ≡ ok o
      → (check_pair static_edges o c).missing ≡ []
      → (c.missing ≡ []) × HasPair resolve print static_edges sites e
  unfolding check_pair
  pair_missing sites e c none known none_missing = (none_missing, inl known)
  pair_missing sites e c (some p) known none_missing =
      elim (Bool-cases (holds_pair p static_edges)) [
        | inl held ↦ (rw held at none_missing, inr (p, known, held))
        | inr new ↦ absurd (not_empty p c.missing (rw new at none_missing))
      ]

  check_entry-IsFaithful :
      (sites : List (ℕ × Node))
      → IsFaithful
          (check_entry resolve print static_edges sites)
          (HasPair resolve print static_edges sites)
  unfolding check_entry check_pair
  check_entry-IsFaithful sites = record {
    passes = λ e c h. elim h [
      | inl unknown ↦ (c, checked sites e c none unknown, refl)
      | inr (p, known, held) ↦
          (check_pair static_edges (some p) c, checked sites e c (some p) known, rw held)
    ];
    only = λ e c d run none_missing. elim (Result-cases (trace_pair resolve print sites e)) [
      | inr (why, h) ↦
          let failed : check_entry resolve print static_edges sites e c ≡ err why =
            rw (h, check_entry) in
          absurd (cc (failed, run))
      | inl (o, h) ↦
          let at : check_pair static_edges o c ≡ d = cc (checked sites e c o h, run) in
          pair_missing sites e c o h (ap (λ x. x.missing) at ∙ none_missing)
    ];
  }

  report-nil : (es : Edges) → report print es ≡ ok tt → es ≡ []
  unfolding report
  report-nil [] h = refl
  report-nil (e ∷ es) h = failing (print_missing print (e ∷ es)) h

  -- The check once the sites are read.
  check_eq :
      (format : SiteFormat) (name : Text) (sections : List Section) (files : List (List TraceEdge))
      (sites : List (ℕ × Node))
      → for_each (section_sites format name) sections [] ≡ ok sites
      → check_points_to_against_trace resolve print static_edges format name sections files
        ≡ check_files resolve print static_edges sites files >>= (λ c. report print c.missing)
  unfolding check_points_to_against_trace
  check_eq format name sections files sites read = rw (read, check_points_to_against_trace)

  -- What a check that succeeds says of its runs.
  files-HasPair :
      (sites : List (ℕ × Node)) (files : List (List TraceEdge))
      → check_files resolve print static_edges sites files >>= (λ c. report print c.missing) ≡ ok tt
      → All (All (HasPair resolve print static_edges sites)) files
  unfolding check_files
  files-HasPair sites files run =
      let start : Check = record { missing = []; trace_edge_count = 0 } in
      let entry = check_entry resolve print static_edges sites in
      elim (Result-cases (for_each (for_each entry) files start)) [
        | inr (why, h) ↦ absurd (let bad : err why ≡ ok tt = rw h at run in cc bad)
        | inl (c, h) ↦
            (for_each-only (for_each entry) (All (HasPair resolve print static_edges sites)) files
              start c (IsFaithful-for_each _ _ (check_entry-IsFaithful sites)) h
              (report-nil c.missing (rw h at run))).1
      ]

  HasPair-files :
      (sites : List (ℕ × Node)) (files : List (List TraceEdge))
      → All (All (HasPair resolve print static_edges sites)) files
      → check_files resolve print static_edges sites files >>= (λ c. report print c.missing) ≡ ok tt
  unfolding check_files report print_missing
  HasPair-files sites files all =
      let start : Check = record { missing = []; trace_edge_count = 0 } in
      let entry = check_entry resolve print static_edges sites in
      let (c, run, same) =
        for_each-passes (for_each entry) (All (HasPair resolve print static_edges sites)) files
          start (IsFaithful-for_each _ _ (check_entry-IsFaithful sites)) all in
      rw (run, same)

  -- With the trace sites of the sections, the check succeeds exactly when each entry of each trace is
  -- empty, or stands at a known site and its value for no node (no site is there, and the address
  -- cannot be resolved, or has no symbol and the site's node can be printed), or the static graph has
  -- the edge from the node of its site, found without the lowest bit of its first word, to the node of
  -- its value, which is that of a site or else a symbol.
  pub check-IsCovered :
      (format : SiteFormat) (name : Text) (sections : List Section) (files : List (List TraceEdge))
      (sites : List (ℕ × Node))
      → for_each (section_sites format name) sections [] ≡ ok sites
      → (check_points_to_against_trace resolve print static_edges format name sections files
          ≡ ok tt)
        ↔ All (All (IsCovered resolve print static_edges sites)) files
  check-IsCovered format name sections files sites read =
      let e = check_eq format name sections files sites read in
      let each =
        All-map (HasPair resolve print static_edges sites)
          (IsCovered resolve print static_edges sites)
          (HasPair-IsCovered resolve print static_edges sites) in
      let back =
        All-map (IsCovered resolve print static_edges sites)
          (HasPair resolve print static_edges sites)
          (IsCovered-HasPair resolve print static_edges sites) in
      (
        λ run. All-map _ _ each files (files-HasPair sites files (sym e ∙ run)),
        λ all. e ∙ HasPair-files sites files (All-map _ _ back files all),
      )
