-- ===== src/Edges/Strings/Laws.antt =====
-- The blob that the writer fills gives every text back to the reader.
use bracelet.Prelude.{
  ℕ, zero, suc, ◌+◌, ◌-◌, ◌%◌, ◌^◌, ◌≤◌, ◌<◌, ◌≡◌, refl, sym, ap, ◌∙◌, inl, inr, Option, none, some,
  List, [], ◌∷◌, ◌++◌, ok, Returns, ◌≢◌, append-nil, get_or, get_or-append_right, arith, lt→ltb,
  ltb_ge, append_assoc, ==_ne, length, length-append, get_elem?, get_elem?-append_length, drop,
  drop-add, drop-append, Option-cases,
}
use bracelet.Edges.Bytes.{Text, equal, equal_refl, equal→eq, c_string, c_string-append, IsPlain}
use bracelet.Edges.Table.{IsTable, find, find-append, find-IsTable, IsTable-insert, length-IsTable}
use bracelet.Edges.Strings.{
  StringTable, GraphDebugData, add_string, find_zero, scan_offsets, string_offsets, string,
}

-- The texts, each with a 0 byte behind it.
abbrev pub joined : List Text → Text
joined [] = []
joined (s ∷ ss) = s ++ 0 ∷ joined ss

-- Where the texts begin, the first at `n`.
abbrev pub starts : ℕ → List Text → List ℕ
starts n [] = []
starts n (s ∷ ss) = n ∷ starts (n + length s + 1) ss

abbrev pub AllPlain : List Text → Type 0
AllPlain [] = Unit {0}
AllPlain (s ∷ ss) = IsPlain s × AllPlain ss

joined-append : (ss : List Text) (s : Text) → joined (ss ++ s ∷ []) ≡ (joined ss ++ s) ++ 0 ∷ []
joined-append [] s = refl
joined-append (x ∷ ss) s = rw (joined-append ss s) (simp append_assoc)

AllPlain-append : (ss : List Text) (s : Text) → AllPlain ss → IsPlain s → AllPlain (ss ++ s ∷ [])
AllPlain-append [] s p q = (q, tt)
AllPlain-append (x ∷ ss) s p q = (p.0, AllPlain-append ss s p.1 q)

length-le-joined : (ss : List Text) → length ss ≤ length (joined ss)
length-le-joined [] = omega arith
length-le-joined (s ∷ ss) = omega (arith, length-le-joined ss, length-append s (0 ∷ joined ss))

find_zero-append : (s r : Text) → IsPlain s → find_zero (s ++ 0 ∷ r) ≡ some (length s)
unfolding find_zero
find_zero-append [] r p = refl
find_zero-append (x ∷ s) r p = rw (==_ne x 0 p.0, find_zero-append s r p.1, find_zero)

drop-text : (blob s r : Text) (n : ℕ) → drop n blob ≡ s ++ 0 ∷ r → drop (n + length s + 1) blob ≡ r
drop-text blob s r n h =
    rw (drop-add (n + length s) 1 blob, drop-add n (length s) blob, h, drop-append s (0 ∷ r))

-- The loop finds the beginning of every text.
scan_offsets-joined :
    (fuel : ℕ) (blob : Text) (n : ℕ) (ss : List Text)
    → length ss < fuel
    → AllPlain ss
    → drop n blob ≡ joined ss
    → n + length (joined ss) ≡ length blob
    → length blob < 2 ^ 32
    → scan_offsets fuel blob n ≡ ok (starts n ss)
unfolding scan_offsets
scan_offsets-joined zero blob n ss h p e l k = absurd (omega arith)
scan_offsets-joined (suc fuel) blob n [] h p e l k =
    rw (ltb_ge n (length blob) (omega arith), scan_offsets)
scan_offsets-joined (suc fuel) blob n (s ∷ ss) h p e l k =
    let size = length-append s (0 ∷ joined ss) in
    let next = n + length s + 1 in
    let fits : next % 2 ^ 32 ≡ next = omega (arith, size) in
    rw (
      lt→ltb n (length blob) (omega (arith, size)),
      scan_offsets,
      e,
      find_zero-append s (joined ss) p.0,
      fits,
      scan_offsets-joined fuel blob next ss (omega arith) p.1 (drop-text blob s (joined ss) n e)
          (omega (arith, size)) k,
    )

-- What the table stands for: its texts in the order of their indices.
pub record Holds (texts : List Text) (t : StringTable) : Type 0 where
  pub table : IsTable equal texts t.indices
  pub blob : t.blob ≡ joined texts
  pub plain : AllPlain texts

-- Reading any index of the scanned blob.
get_elem?-starts :
    (blob : Text) (n : ℕ) (ss : List Text) (i : ℕ) {s : Text}
    → AllPlain ss
    → drop n blob ≡ joined ss
    → get_elem? ss i ≡ some s
    → (o : ℕ) × (get_elem? (starts n ss) i ≡ some o) × (c_string (drop o blob) ≡ s)
get_elem?-starts blob n [] i p e h = absurd (cc h)
get_elem?-starts blob n (x ∷ ss) zero p e h =
    (n, refl, rw (e, c_string-append x (joined ss) p.0) cc)
get_elem?-starts blob n (x ∷ ss) (suc i) p e h =
    get_elem?-starts blob (n + length x + 1) ss i p.1 (drop-text blob x (joined ss) n e) h

-- The reader's view of a blob: the debug data that `parse_debug_data` makes of it.
abbrev pub reader : Text → Option (List ℕ) → List ℕ → GraphDebugData
reader blob locals offsets = record {
  string_blob = blob;
  local_indices = locals;
  offsets = offsets;
}

last-joined : (ss : List Text) → get_or (joined ss) (length (joined ss) - 1) 0 ≡ 0
last-joined [] = refl
last-joined (s ∷ []) =
    let e : length (s ++ 0 ∷ []) - 1 ≡ length s + 0 = omega (arith, length-append s (0 ∷ [])) in
    rw (e, get_or-append_right s (0 ∷ []) 0 0)
last-joined (s ∷ x ∷ ss) =
    let rest = joined (x ∷ ss) in
    let e : length (s ++ 0 ∷ rest) - 1 ≡ length s + suc (length rest - 1) =
      omega (arith, length-append s (0 ∷ rest), length-append x (0 ∷ joined ss)) in
    rw (e, get_or-append_right s (0 ∷ rest) (suc (length rest - 1)) 0) (last-joined (x ∷ ss))

string_offsets-joined :
    (ss : List Text)
    → AllPlain ss
    → length (joined ss) < 2 ^ 32
    → string_offsets (joined ss) ≡ ok (starts 0 ss)
unfolding string_offsets
string_offsets-joined [] p k = refl
string_offsets-joined (s ∷ ss) p k =
    let blob = joined (s ∷ ss) in
    let some_bytes : length blob ≢ 0 = omega (arith, length-append s (0 ∷ joined ss)) in
    let scan =
      scan_offsets-joined (suc (length blob)) blob 0 (s ∷ ss)
        (omega (arith, length-le-joined (s ∷ ss))) p refl (omega arith) k in
    rw (==_ne (length blob) 0 some_bytes, string_offsets, scan, last-joined (s ∷ ss))

-- The reader accepts the blob of a table, and reads the text of every index from it.
pub string-Holds :
    (texts : List Text) (t : StringTable) (locals : Option (List ℕ)) (i : ℕ) {s : Text}
    → Holds texts t
    → length t.blob < 2 ^ 32
    → get_elem? texts i ≡ some s
    → Returns (string_offsets t.blob) (λ offsets. string (reader t.blob locals offsets) i ≡ ok s)
unfolding string
string-Holds texts t locals i h k e =
    let (o, at, read) = get_elem?-starts t.blob 0 texts i h.plain h.blob e in
    (
      starts 0 texts,
      rw h.blob (string_offsets-joined texts h.plain (rw h.blob at k)),
      rw (at, string) (ap ok read),
    )

add_string_found :
    (t : StringTable) (s : Text) (i : ℕ) → find equal s t.indices ≡ some i → add_string s t ≡ (i, t)
unfolding add_string
add_string_found t s i e = rw (e, add_string)

abbrev extended : StringTable → Text → StringTable
extended t s = record {
  indices = t.indices ++ (s, length t.indices) ∷ [];
  blob = (t.blob ++ s) ++ 0 ∷ [];
}

add_string_fresh :
    (t : StringTable) (s : Text)
    → find equal s t.indices ≡ none
    → length t.indices < 2 ^ 32
    → add_string s t ≡ (length t.indices, extended t s)
unfolding add_string
add_string_fresh t s e k =
    let fits : length t.indices % 2 ^ 32 ≡ length t.indices = omega arith in
    rw (e, add_string, fits)

-- What adding a text gives: an index at which the text stands, a table that keeps every text at its
-- index, and no more of either when the text comes again.
pub record Added (texts : List Text) (t : StringTable) (s : Text) (i : ℕ) (t' : StringTable)
    : Type 0 where
  pub added : List Text
  pub holds : Holds (texts ++ added) t'
  pub stands : get_elem? (texts ++ added) i ≡ some s
  pub again : add_string s t' ≡ (i, t')

-- Adding a text without a 0 byte to a table of fewer than 2^32 texts gives an index at which the text
-- stands, keeps every text at its index, and gives the same index and table when the text comes again.
pub add_string-Added :
    (texts : List Text) (t : StringTable) (s : Text)
    → Holds texts t
    → IsPlain s
    → length texts < 2 ^ 32
    → Added texts t s (add_string s t).0 (add_string s t).1
add_string-Added texts t s h p k = elim (Option-cases (find equal s t.indices)) [
  | inr (i, e) ↦
      let run = add_string_found t s i e in
      let (l, (j, at, same)) = find-IsTable equal texts t.indices s h.table e in
      rw run (record {
        added = [];
        holds = rw append-nil h;
        stands = rw append-nil (at ∙ ap some (sym (equal→eq s j same)));
        again = run;
      })
  | inl e ↦
      let len = length t.indices in
      let size = length-IsTable equal h.table in
      let next = extended t s in
      let found = find-append equal s s len t.indices e in
      rw (add_string_fresh t s e (omega (arith, size))) (record {
        added = s ∷ [];
        holds = record {
          table = IsTable-insert equal texts t.indices s (equal_refl s) h.table e;
          blob = rw (joined-append texts s, h.blob);
          plain = AllPlain-append texts s h.plain p;
        };
        stands = rw size (get_elem?-append_length texts [] s);
        again = add_string_found next s len (found ∙ rw (equal_refl s));
      })
]
