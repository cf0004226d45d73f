-- ===== src/ObjectParsing/Dwarf/Owners.antt =====
-- Lemmas on the entries that ObjectParsing.cpp collects from a compile unit.
use bracelet.Prelude.{
  ℕ, ◌+◌, ◌-◌, ◌%◌, ◌^◌, ◌<◌, ◌≡◌, ◌⊎◌, refl, sym, ◌∙◌, Option, none, some, List, [], ◌∷◌, Result,
  ok, err, arith, Result-cases, Bool-cases, Option-cases, inl, inr, length, drop,
}
use bracelet.Prelude.Bits.{bit_or_fields}
use bracelet.Edges.Bytes.{Text}
use bracelet.Edges.Section.{has_prefix}
use bracelet.Edges.Node.{Node, is_set, of_symbol, of_local, symbol}
use bracelet.ObjectParsing.Dwarf.{
  CallsiteEdge, InlineEdge, Die, Tag, label, inlined_subroutine, other_tag, label_prefix,
  label_name, back, parse_node_id_from_name, label_record, dwarf_label_die_to_record, label_of,
  insert_some, collect_cu_labels, inliner, inline_edge_of, subprogram, collect_cu_inline_edges,
  least,
}
use bracelet.ObjectParsing.Dwarf.Order.{
  IsOrdered, AllOwned, insert_entry-IsOrdered, insert_entry-AllOwned,
}

of_local-owned : (s i : ℕ) (n : Node) → s < 2 ^ 64 - 1 → of_local s i ≡ ok n → symbol n ≡ ok s
unfolding of_local symbol is_set
of_local-owned s i n h e = ground (arith, bit_or_fields 16 ((s + 1) % 2 ^ 64) ((i + 1) % 2 ^ 64))

of_symbol-owned : (s : ℕ) (n : Node) → s < 2 ^ 64 - 1 → of_symbol s ≡ ok n → symbol n ≡ ok s
unfolding of_symbol symbol is_set
of_symbol-owned s n h e = ground arith

Tag-cases : (t : Tag) → (t ≡ label) ⊎ ((t ≡ inlined_subroutine) ⊎ (t ≡ other_tag))
Tag-cases label = inl refl
Tag-cases inlined_subroutine = inr (inl refl)
Tag-cases other_tag = inr (inr refl)

module _ (get_as_integer : Text → Option ℕ) (addr_translate : ℕ → Result ℕ)
    (translated : (a b : ℕ) → addr_translate a ≡ ok b → b < 2 ^ 64 - 1) where
  parse_node_id_from_name-owned :
      (s : ℕ) (name : Text) (n : Node)
      → s < 2 ^ 64 - 1
      → parse_node_id_from_name get_as_integer addr_translate s name ≡ ok n
      → symbol n ≡ ok s
  unfolding parse_node_id_from_name
  parse_node_id_from_name-owned s name n h e =
      elim (Option-cases (get_as_integer (drop (length label_prefix) name))) [
        | inl k ↦ absurd (cc (rw (parse_node_id_from_name, k) at e))
        | inr (i, k) ↦ of_local-owned s i n h (rw (parse_node_id_from_name, k) at e)
      ]

  -- An entry that an entry of debugging information gives belongs to its key.
  abbrev Owns : {A : Type 0} → (A → Node) → Option (ℕ × A) → Type 0
  Owns node none = Unit {0}
  Owns node (some (k, v)) = symbol (node v) ≡ ok k

  label_record-owned :
      (addr : ℕ) (name : Text) (die : Die) (r : ℕ × CallsiteEdge)
      → label_record get_as_integer addr_translate addr name die ≡ ok r
      → symbol r.1.node_id ≡ ok r.0
  unfolding label_record
  label_record-owned addr name die r e = elim (Result-cases (back die.inlined_chain)) [
    | inr (why, a) ↦ absurd (cc (rw (label_record, a) at e))
    | inl (none, a) ↦ absurd (cc (rw (label_record, a) at e))
    | inl (some pc, a) ↦ elim (Result-cases (addr_translate pc)) [
      | inr (why, b) ↦ absurd (cc (rw (label_record, a, b) at e))
      | inl (f, b) ↦ elim (Result-cases (addr_translate addr)) [
        | inr (why, c) ↦ absurd (cc (rw (label_record, a, b, c) at e))
        | inl (t, c) ↦
            elim (Result-cases (parse_node_id_from_name get_as_integer addr_translate f name)) [
              | inr (why, d) ↦ absurd (cc (rw (label_record, a, b, c, d) at e))
              | inl (n, d) ↦
                  let made : ◌≡◌ {A = ℕ × CallsiteEdge}
                      (f, record { callsite_addr = t; node_id = n }) r =
                    cc (rw (label_record, a, b, c, d) at e) in
                  rw (← made) (parse_node_id_from_name-owned f name n (translated pc f b) d)
            ]
      ]
    ]
  ]

  abbrev callsite_node : CallsiteEdge → Node
  callsite_node e = e.node_id

  record-owned :
      (die : Die) (r : Option (ℕ × CallsiteEdge))
      → dwarf_label_die_to_record get_as_integer addr_translate die ≡ ok r
      → Owns callsite_node r
  unfolding dwarf_label_die_to_record
  record-owned die r e = elim (Result-cases (label_name die)) [
    | inr (why, a) ↦ absurd (cc (rw (dwarf_label_die_to_record, a) at e))
    | inl (name, a) ↦ elim (Option-cases die.low_pc) [
      | inl b ↦
          let made : none ≡ r = cc (rw (dwarf_label_die_to_record, a, b) at e) in rw (← made) tt
      | inr (addr, b) ↦
          elim (Result-cases (label_record get_as_integer addr_translate addr name die)) [
            | inr (why, c) ↦ absurd (cc (simp (dwarf_label_die_to_record, a, b, c) at e))
            | inl (q, c) ↦
                let made : some q ≡ r = cc (simp (dwarf_label_die_to_record, a, b, c) at e) in
                rw (← made) (label_record-owned addr name die q c)
          ]
    ]
  ]

  label_of-owned :
      (die : Die) (r : Option (ℕ × CallsiteEdge))
      → label_of get_as_integer addr_translate die ≡ ok r
      → Owns callsite_node r
  unfolding label_of
  label_of-owned die r e = elim (Tag-cases die.tag) [
    | inr a ↦
        let made : none ≡ r = elim a [
          | inl t ↦ cc (rw (label_of, t) at e)
          | inr t ↦ cc (rw (label_of, t) at e)
        ] in
        rw (← made) tt
    | inl a ↦ elim (Result-cases (label_name die)) [
      | inr (why, b) ↦ absurd (cc (rw (label_of, a, b) at e))
      | inl (name, b) ↦ elim (Bool-cases (has_prefix label_prefix name)) [
        | inr c ↦ let made : none ≡ r = cc (rw (label_of, a, b, c) at e) in rw (← made) tt
        | inl c ↦
            let same : label_of get_as_integer addr_translate die
                ≡ dwarf_label_die_to_record get_as_integer addr_translate die =
              rw (label_of, a, b, c) in
            record-owned die r (sym same ∙ e)
      ]
    ]
  ]

  abbrev inline_node : InlineEdge → Node
  inline_node e = e.inliner_id

  inliner-owned :
      (name : Text) (ranges : Result (List ℕ)) (r : Option (ℕ × InlineEdge))
      → inliner get_as_integer addr_translate name ranges ≡ ok r
      → Owns inline_node r
  unfolding inliner
  inliner-owned name (err why) r e = let made : none ≡ r = cc e in rw (← made) tt
  inliner-owned name (ok []) r e = let made : none ≡ r = cc e in rw (← made) tt
  inliner-owned name (ok (low ∷ lows)) r e = elim (Result-cases (addr_translate (least low lows))) [
    | inr (why, a) ↦ absurd (cc (rw (inliner, a) at e))
    | inl (f, a) ↦ elim (Result-cases (of_symbol f)) [
      | inr (why, b) ↦ absurd (cc (rw (inliner, a, b) at e))
      | inl (n, b) ↦
          let made : ◌≡◌ {A = Option (ℕ × InlineEdge)}
              (some (f, record { inliner_id = n; inlined_name = name })) r =
            cc (rw (inliner, a, b) at e) in
          rw (← made) (of_symbol-owned f n (translated (least low lows) f a) b)
    ]
  ]

  inline_edge_of-owned :
      (die : Die) (r : Option (ℕ × InlineEdge))
      → inline_edge_of get_as_integer addr_translate die ≡ ok r
      → Owns inline_node r
  unfolding inline_edge_of
  inline_edge_of-owned die r e = elim (Tag-cases die.tag) [
    | inl a ↦ let made : none ≡ r = cc (rw (inline_edge_of, a) at e) in rw (← made) tt
    | inr (inr a) ↦ let made : none ≡ r = cc (rw (inline_edge_of, a) at e) in rw (← made) tt
    | inr (inl a) ↦ elim (Bool-cases die.has_abstract_origin) [
      | inr b ↦ let made : none ≡ r = cc (rw (inline_edge_of, a, b) at e) in rw (← made) tt
      | inl b ↦ elim (Option-cases die.linkage_name) [
        | inl c ↦ let made : none ≡ r = cc (rw (inline_edge_of, a, b, c) at e) in rw (← made) tt
        | inr (name, c) ↦ elim (Result-cases (subprogram die.parents)) [
          | inr (why, d) ↦ absurd (cc (rw (inline_edge_of, a, b, c, d) at e))
          | inl (ranges, d) ↦ inliner-owned name ranges r (rw (inline_edge_of, a, b, c, d) at e)
        ]
      ]
    ]
  ]

  insert_some-kept :
      {A : Type 0} (node : A → Node) (r : Option (ℕ × A)) (res : List (ℕ × A))
      → Owns node r
      → IsOrdered res × AllOwned node res
      → IsOrdered (insert_some get_as_integer addr_translate r res)
        × AllOwned node (insert_some get_as_integer addr_translate r res)
  insert_some-kept node none res h all = all
  insert_some-kept node (some (k, v)) res h (o, all) =
      (insert_entry-IsOrdered k v res o, insert_entry-AllOwned node k v res h all)

  labels-kept :
      (dies : List Die) (res out : List (ℕ × CallsiteEdge))
      → IsOrdered res × AllOwned callsite_node res
      → collect_cu_labels get_as_integer addr_translate dies res ≡ ok out
      → IsOrdered out × AllOwned callsite_node out
  unfolding collect_cu_labels
  labels-kept [] res out h e = let same : res ≡ out = cc e in rw (← same) h
  labels-kept (die ∷ dies) res out h e =
      elim (Result-cases (label_of get_as_integer addr_translate die)) [
        | inr (why, a) ↦ absurd (cc (rw (collect_cu_labels, a) at e))
        | inl (r, a) ↦
            labels-kept dies _ out (insert_some-kept callsite_node r res (label_of-owned die r a) h)
              (rw (collect_cu_labels, a) at e)
      ]

  inlines-kept :
      (dies : List Die) (res out : List (ℕ × InlineEdge))
      → IsOrdered res × AllOwned inline_node res
      → collect_cu_inline_edges get_as_integer addr_translate dies res ≡ ok out
      → IsOrdered out × AllOwned inline_node out
  unfolding collect_cu_inline_edges
  inlines-kept [] res out h e = let same : res ≡ out = cc e in rw (← same) h
  inlines-kept (die ∷ dies) res out h e =
      elim (Result-cases (inline_edge_of get_as_integer addr_translate die)) [
        | inr (why, a) ↦ absurd (cc (rw (collect_cu_inline_edges, a) at e))
        | inl (r, a) ↦
            inlines-kept dies _ out
              (insert_some-kept inline_node r res (inline_edge_of-owned die r a) h)
              (rw (collect_cu_inline_edges, a) at e)
      ]

  -- When addresses are translated to less than the last 64-bit word: the call sites and the inlined
  -- functions that are collected from a unit stand in the order of their functions' addresses, and the
  -- node of each has as its symbol the address of the function that it is filed under.
  pub collect_cu-owned :
      (dies : List Die) (labels : List (ℕ × CallsiteEdge)) (inlines : List (ℕ × InlineEdge))
      → collect_cu_labels get_as_integer addr_translate dies [] ≡ ok labels
      → collect_cu_inline_edges get_as_integer addr_translate dies [] ≡ ok inlines
      → IsOrdered labels
        × IsOrdered inlines
        × AllOwned (λ e. e.node_id) labels
        × AllOwned (λ e. e.inliner_id) inlines
  collect_cu-owned dies labels inlines e e' =
      let (a, b) = labels-kept dies [] labels (tt, tt) e in
      let (c, d) = inlines-kept dies [] inlines (tt, tt) e' in (a, c, b, d)
