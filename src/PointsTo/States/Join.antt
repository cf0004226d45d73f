-- ===== src/PointsTo/States/Join.antt =====
-- `setNargs` of src/PointsTo/PointsTo.cpp against the lattice of states.
use bracelet.Prelude.{
  ℕ, ◌≡◌, ◌⊎◌, inl, inr, refl, sym, ap, ◌∙◌, true, false, none, some, List, [], ◌∷◌, ◌++◌,
  append_assoc, append-nil, Result, ok, err, nargs_mismatch, for_each, arith, ◌==◌, ==_iff, length,
  get_elem?, get_elem?-append_left, get_elem?-append_last, get_elem?-append_length, Option-cases,
  Bool-cases, if◌then◌else◌, subst,
}
use bracelet.Edges.Table.{find}
use bracelet.Edges.Node.{Node, local_idx}
use bracelet.PointsTo.States.{
  NodeState, undefined_state, global_data, function_state, same_state, NodeStates, assign_entry,
  merge, set_nargs,
}

-- The order of the lattice: `undefined_state` at the bottom, and the other states apart above it.
abbrev pub IsBelow : NodeState → NodeState → Type 0
IsBelow s t = (s ≡ undefined_state) ⊎ (s ≡ t)

find-assign_entry :
    (j k : ℕ) (v : NodeState) (m : NodeStates)
    → find ◌==◌ j (assign_entry k v m) ≡ (if j == k then some v else find ◌==◌ j m)
unfolding find assign_entry
find-assign_entry j k v [] = refl
find-assign_entry j k v ((i, w) ∷ m) = ground (arith, find-assign_entry j k v m)

-- A state that is asked of a node, in a list of them.
abbrev pub IsAsked : List (Node × NodeState) → ℕ → NodeState → Type 0
IsAsked xs k s = (i : ℕ) × (n : Node) × (get_elem? xs i ≡ some (n, s)) × (n.raw ≡ k)

-- The map has for each node a state that was asked of it and is above all that were.
pub record IsJoin (xs : List (Node × NodeState)) (m : NodeStates) : Type 0 where
  pub upper :
      (k : ℕ) (s : NodeState)
      → IsAsked xs k s
      → (t : NodeState) × (find ◌==◌ k m ≡ some t) × IsBelow s t
  pub least : (k : ℕ) (t : NodeState) → find ◌==◌ k m ≡ some t → IsAsked xs k t

-- Two states were asked of one node that no state is above.
pub record IsConflict (xs : List (Node × NodeState)) : Type 0 where
  pub node_word : ℕ
  pub one : NodeState
  pub other : NodeState
  pub one_asked : IsAsked xs node_word one
  pub other_asked : IsAsked xs node_word other
  pub apart : (t : NodeState) → IsBelow one t → ¬ (IsBelow other t)

-- What `merge` gives: the larger of the two states, or the error if they are apart.
abbrev IsMerged : NodeState → NodeState → Result NodeState → Type 0
IsMerged old new r =
    ((t : NodeState) × (r ≡ ok t) × IsBelow old t × IsBelow new t × ((t ≡ old) ⊎ (t ≡ new)))
    ⊎ ((r ≡ err nargs_mismatch) × ((t : NodeState) → IsBelow old t → ¬ (IsBelow new t)))

merge-IsMerged : (old new : NodeState) → IsMerged old new (merge old new)
unfolding merge same_state
merge-IsMerged undefined_state new = inl (new, refl, inl refl, inr refl, inr refl)
merge-IsMerged global_data undefined_state = inl (global_data, refl, inr refl, inl refl, inl refl)
merge-IsMerged global_data global_data = inl (global_data, refl, inr refl, inr refl, inl refl)
merge-IsMerged global_data (function_state n) = inr (refl, λ t p q. ground arith)
merge-IsMerged (function_state n) undefined_state =
    inl (function_state n, refl, inr refl, inl refl, inl refl)
merge-IsMerged (function_state n) global_data = inr (refl, λ t p q. ground arith)
merge-IsMerged (function_state n) (function_state m) = elim (Bool-cases (n == m)) [
  | inl same ↦ inl (
    function_state n,
    rw (same, merge, same_state),
    inr refl,
    inr (ap function_state (sym ((==_iff n m).0 same))),
    inl refl,
  )
  | inr other ↦ inr (rw (other, merge, same_state), λ t p q. ground arith)
]

IsAsked-append :
    {k : ℕ} {s : NodeState} (xs ys : List (Node × NodeState))
    → IsAsked xs k s
    → IsAsked (xs ++ ys) k s
IsAsked-append xs ys (i, n, at, e) = (i, n, get_elem?-append_left xs ys i at, e)

IsAsked-last :
    (xs : List (Node × NodeState)) (n : Node) (s : NodeState) → IsAsked (xs ++ (n, s) ∷ []) n.raw s
IsAsked-last xs n s = (length xs, n, get_elem?-append_length xs [] (n, s), refl)

-- What was asked of a list with one more at its end.
IsAsked-cases :
    {k : ℕ} {s : NodeState} (xs : List (Node × NodeState)) (n : Node) (new : NodeState)
    → IsAsked (xs ++ (n, new) ∷ []) k s
    → IsAsked xs k s ⊎ ((n.raw ≡ k) × (s ≡ new))
IsAsked-cases xs n new (i, n', at, e) = elim (get_elem?-append_last xs (n, new) i at) [
  | inl old ↦ inl (i, n', old, e)
  | inr (last, same) ↦ inr (ap (λ p. p.0.raw) (sym same) ∙ e, ap (λ p. p.1) same)
]

unseen_key : (k : ℕ) (t : NodeState) → ¬ (find ◌==◌ k [] ≡ some t)
unfolding find
unseen_key k t found = absurd (cc found)

IsBelow-trans : {a b c : NodeState} → IsBelow a b → IsBelow b c → IsBelow a c
IsBelow-trans (inl e) h = inl e
IsBelow-trans (inr e) h = rw e h

assigned_same :
    (k : ℕ) (n : Node) (t : NodeState) (m : NodeStates)
    → (k == n.raw) ≡ true
    → find ◌==◌ k (assign_entry n.raw t m) ≡ some t
assigned_same k n t m same = find-assign_entry k n.raw t m ∙ rw same

assigned_other :
    (k : ℕ) (n : Node) (t : NodeState) (m : NodeStates)
    → (k == n.raw) ≡ false
    → find ◌==◌ k (assign_entry n.raw t m) ≡ find ◌==◌ k m
assigned_other k n t m other = find-assign_entry k n.raw t m ∙ rw other

-- A new state for a node, above the old one and the one that is asked.
IsJoin-assign :
    (xs : List (Node × NodeState)) (m : NodeStates) (n : Node) (new t : NodeState)
    → IsJoin xs m
    → IsBelow new t
    → ((old : NodeState) → find ◌==◌ n.raw m ≡ some old → IsBelow old t)
    → ((IsAsked xs n.raw t) ⊎ (t ≡ new))
    → IsJoin (xs ++ (n, new) ∷ []) (assign_entry n.raw t m)
IsJoin-assign xs m n new t h above above_old from = record {
  upper = λ k s asked. elim (IsAsked-cases xs n new asked) [
    | inr (at, same) ↦ (t, assigned_same k n t m ((==_iff k n.raw).1 (sym at)), rw same above)
    | inl old ↦
        let (u, found, below) = h.upper k s old in
        elim (Bool-cases (k == n.raw)) [
          | inl same ↦
              let at : find ◌==◌ n.raw m ≡ some u =
                subst (λ j. find ◌==◌ j m ≡ some u) ((==_iff k n.raw).0 same) found in
              (t, assigned_same k n t m same, IsBelow-trans below (above_old u at))
          | inr other ↦ (u, assigned_other k n t m other ∙ found, below)
        ]
  ];
  least = λ k u found. elim (Bool-cases (k == n.raw)) [
    | inr other ↦
        IsAsked-append xs ((n, new) ∷ []) (h.least k u (sym (assigned_other k n t m other) ∙ found))
    | inl same ↦
        let at : n.raw ≡ k = sym ((==_iff k n.raw).0 same) in
        let this : t ≡ u = cc (assigned_same k n t m same, found) in
        elim from [
          | inl old ↦
              subst (λ j. IsAsked (xs ++ (n, new) ∷ []) j u) at
                (subst (IsAsked (xs ++ (n, new) ∷ []) n.raw) this
                  (IsAsked-append xs ((n, new) ∷ []) old))
          | inr fresh ↦
              subst (λ j. IsAsked (xs ++ (n, new) ∷ []) j u) at
                (subst (IsAsked (xs ++ (n, new) ∷ []) n.raw) (sym fresh ∙ this)
                  (IsAsked-last xs n new))
        ]
  ];
}

-- One call of `setNargs` after others.
abbrev IsOutcome : List (Node × NodeState) → Result NodeStates → Type 0
IsOutcome xs r =
    ((m : NodeStates) × (r ≡ ok m) × IsJoin xs m) ⊎ ((r ≡ err nargs_mismatch) × IsConflict xs)

set_nargs-IsOutcome :
    (xs : List (Node × NodeState)) (m : NodeStates) (n : Node) (new : NodeState)
    → local_idx n ≡ ok none
    → IsJoin xs m
    → IsOutcome (xs ++ (n, new) ∷ []) (set_nargs n new m)
unfolding set_nargs
set_nargs-IsOutcome xs m n new global h = elim (Option-cases (find ◌==◌ n.raw m)) [
  | inl unseen ↦ inl (
    assign_entry n.raw new m,
    rw (global, unseen, set_nargs),
    IsJoin-assign xs m n new new h (inr refl) (λ old e. absurd (cc (unseen, e))) (inr refl),
  )
  | inr (old, e) ↦ elim (merge-IsMerged old new) [
    | inl (t, run, below_old, below_new, which) ↦ inl (
      assign_entry n.raw t m,
      rw (global, e, run, set_nargs),
      IsJoin-assign xs m n new t h below_new
          (λ o k. subst (λ s. IsBelow s t) (let same : old ≡ o = cc (e, k) in same) below_old)
          (elim which [
            | inl same ↦ inl (subst (IsAsked xs n.raw) (sym same) (h.least n.raw old e))
            | inr same ↦ inr same
          ]),
    )
    | inr (run, apart) ↦ inr (
      rw (global, e, run, set_nargs),
      record {
        node_word = n.raw;
        one = old;
        other = new;
        one_asked = IsAsked-append xs ((n, new) ∷ []) (h.least n.raw old e);
        other_asked = IsAsked-last xs n new;
        apart = apart;
      },
    )
  ]
]

abbrev pub AreGlobal : List (Node × NodeState) → Type 0
AreGlobal [] = Unit {0}
AreGlobal ((n, s) ∷ xs) = (local_idx n ≡ ok none) × AreGlobal xs

abbrev pub set_all : List (Node × NodeState) → NodeStates → Result NodeStates
set_all = for_each (λ p. set_nargs p.0 p.1)

IsConflict-append : (xs ys : List (Node × NodeState)) → IsConflict xs → IsConflict (xs ++ ys)
IsConflict-append xs ys c = record {
  node_word = c.node_word;
  one = c.one;
  other = c.other;
  one_asked = IsAsked-append xs ys c.one_asked;
  other_asked = IsAsked-append xs ys c.other_asked;
  apart = c.apart;
}

set_more :
    (done xs : List (Node × NodeState)) (m : NodeStates)
    → AreGlobal xs
    → IsJoin done m
    → IsOutcome (done ++ xs) (set_all xs m)
set_more done [] m g h = inl (m, refl, rw (append-nil done) h)
set_more done ((n, s) ∷ xs) m (global, g) h = elim (set_nargs-IsOutcome done m n s global h) [
  | inl (m', run, join) ↦
      rw (run, ← append_assoc done ((n, s) ∷ []) xs) (set_more (done ++ (n, s) ∷ []) xs m' g join)
  | inr (run, conflict) ↦ inr (
    rw run,
    rw (← append_assoc done ((n, s) ∷ []) xs) (IsConflict-append (done ++ (n, s) ∷ []) xs conflict),
  )
]

-- A run of `setNargs` on symbols, from the empty map, either succeeds, with a map that has for each
-- symbol a state that was asked of it and is above all that were; or fails with the mismatch of
-- arguments, and then two states were asked of one symbol that no state is above.
pub set_all-IsJoin :
    (xs : List (Node × NodeState))
    → AreGlobal xs
    → ((m : NodeStates) × (set_all xs [] ≡ ok m) × IsJoin xs m)
      ⊎ ((set_all xs [] ≡ err nargs_mismatch) × IsConflict xs)
set_all-IsJoin xs g = set_more [] xs [] g (record {
  upper = λ k s asked. absurd (let at = asked.2 in cc at);
  least = λ k t found. absurd (unseen_key k t found);
})
