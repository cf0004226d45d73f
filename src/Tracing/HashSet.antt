-- ===== src/Tracing/HashSet.antt =====
-- src/Tracing/Runtime/edge_hash_set.h: a hash set of trace edges with open addressing, which is
-- rehashed in place when it doubles. The mapped array is a list; an edge is a record of two 64-bit
-- words, all zero where the slot is empty. The parameter `fnv1a` is Boost's hash of an edge's bytes.
-- Files and mappings are left out: `ftruncate` and `mremap` succeed and fill the new half with zeros.
pub mod Probe
pub mod Insert
pub mod Settled
pub mod Places
pub mod Resize
pub mod Slots
pub mod Vacant
pub mod Growth
pub mod Refines
pub mod Runs
use bracelet.Prelude.{
  ℕ, zero, suc, ◌+◌, ◌-◌, ◌*◌, ◌/◌, ◌%◌, ◌^◌, bit_and, bit_or, bit_xor, Bool, true, false, not,
  ◌&&◌, ◌||◌, Option, none, some, List, [], ◌∷◌, ◌++◌, Result, ok, err, ◌>>=◌, ◌>>◌, assert,
  no_more_probes, undefined, ensure, out_of_fuel, ltb, leb, ◌==◌, if◌then◌else◌, length, get_or,
  set, replicate,
}

pub record TraceEdge : Type 0 where
  pub trace_site : ℕ
  pub value : ℕ

abbrev pub edge_zero : TraceEdge
edge_zero = record { trace_site = 0; value = 0 }

unfoldable pub edge_present : TraceEdge → Bool
edge_present e = not (e.trace_site == 0)

unfoldable pub edge_epoch : TraceEdge → ℕ
edge_epoch e = e.trace_site % 2

unfoldable pub edge_equal : TraceEdge → TraceEdge → Bool
edge_equal a b = a.trace_site / 2 == b.trace_site / 2 && a.value == b.value

-- `((e.trace_site >> 1) << 1) | epoch`
unfoldable pub edge_set_epoch : TraceEdge → ℕ → TraceEdge
edge_set_epoch e epoch = record e { trace_site = bit_or (e.trace_site / 2 * 2) epoch }

pub record EdgeHashSet : Type 0 where
  pub edge_count : ℕ
  pub inserted_edges : ℕ
  pub resize_threshold : ℕ
  pub edges : List TraceEdge
  pub is_ready : Bool
  pub epoch : ℕ

-- `Murmur64`, on 64-bit words.
unfoldable pub murmur : ℕ → ℕ
murmur h =
    let h₁ = bit_xor h (h / 2 ^ 33) in
    let h₂ = h₁ * 0xff51_afd7_ed55_8ccd % 2 ^ 64 in
    let h₃ = bit_xor h₂ (h₂ / 2 ^ 33) in
    let h₄ = h₃ * 0xc4ce_b9fe_1a85_ec53 % 2 ^ 64 in bit_xor h₄ (h₄ / 2 ^ 33)

-- `IndexSequence`, as the list of the indices `hash & (edge_count - 1)` that its calls return while
-- `attempts_remaining` is not 0. A call after the last of them fails its assertion.
unfoldable pub indices : ℕ → ℕ → ℕ → List ℕ
unfolding murmur
indices edge_count zero hash = []
indices edge_count (suc attempts) hash =
    let next = if suc attempts % 4 == 3 then murmur hash else (hash + 1) % 2 ^ 64 in
    bit_and next (edge_count - 1) ∷ indices edge_count attempts next

-- `edge_count * sizeof(BraceletTraceEdge)` is the length of the mapping and not kept here.
unfoldable pub threshold : ℕ → ℕ
threshold edge_count = edge_count * 3 % 2 ^ 64 / 4

-- The constructor: a fresh file of zeros.
unfoldable pub empty_table : ℕ → EdgeHashSet
unfolding threshold
empty_table edge_count = record {
  edge_count = edge_count;
  inserted_edges = 0;
  resize_threshold = threshold edge_count;
  edges = replicate edge_count edge_zero;
  is_ready = true;
  epoch = 0;
}

-- `edge_count = 1 << log2_initial_buffer_size` shifts an `int`: from 31 on it has no number of slots.
unfoldable pub new : ℕ → Result EdgeHashSet
unfolding empty_table
new log2_initial_buffer_size =
    ensure (ltb log2_initial_buffer_size 31) undefined
    >> ok (empty_table (2 ^ log2_initial_buffer_size))

abbrev pub slot : List TraceEdge → ℕ → TraceEdge
slot edges i = get_or edges i edge_zero

-- The loop of `add_edge` over the sequence's indices.
unfoldable pub insert : TraceEdge → List ℕ → EdgeHashSet → Result (Bool × EdgeHashSet)
insert e [] s = err no_more_probes
insert e (i ∷ seq) s =
    if not (edge_present (slot s.edges i))
    then ok (
      true,
      record s { inserted_edges = (s.inserted_edges + 1) % 2 ^ 64; edges = set s.edges i e },
    )
    else if edge_equal (slot s.edges i) e
    then ok (false, s)
    else insert e seq s

-- The loop of `resize_insert`, for the edge that stands in slot `i`.
unfoldable pub rehash : ℕ → ℕ → List ℕ → List TraceEdge → Result (Bool × List TraceEdge)
rehash epoch i [] edges = err no_more_probes
rehash epoch i (j ∷ seq) edges =
    let edge = slot edges i in
    let dst = slot edges j in
    if edge_present dst
    then (if edge_epoch dst == epoch
        then (if edge_equal edge dst then ok (false, edges) else rehash epoch i seq edges)
        else ok (true, set (set edges i dst) j edge))
    else ok (false, set (set edges j (edge_set_epoch edge epoch)) i edge_zero)

module _ (fnv1a : TraceEdge → ℕ) where
  -- `edge_hash`: the lowest bit of the site is the epoch, which the hash leaves out.
  unfoldable pub edge_hash : TraceEdge → ℕ
  edge_hash e = fnv1a (record e { trace_site = e.trace_site / 2 * 2 })

  unfoldable pub index_sequence : ℕ → TraceEdge → List ℕ
  unfolding edge_hash
  index_sequence edge_count e = indices edge_count 1024 (edge_hash e)

  -- One call of `resize_insert` on slot `i`; `true` asks for another.
  unfoldable pub resize_insert : ℕ → ℕ → ℕ → List TraceEdge → Result (Bool × List TraceEdge)
  unfolding index_sequence rehash
  resize_insert edge_count epoch i edges =
      let edge = edge_set_epoch (slot edges i) epoch in
      if not (edge_present (slot edges i)) || edge_epoch (slot edges i) == epoch
      then ok (false, edges)
      else rehash epoch i (index_sequence edge_count edge) (set edges i edge)

  -- The calls for one slot, until one returns `false`.
  unfoldable pub resize_slot : ℕ → ℕ → ℕ → ℕ → List TraceEdge → Result (List TraceEdge)
  unfolding resize_insert
  resize_slot zero edge_count epoch i edges = err out_of_fuel
  resize_slot (suc fuel) edge_count epoch i edges = resize_insert edge_count epoch i edges >>= λ r.
      elim r.0 [ true ↦ resize_slot fuel edge_count epoch i r.1 | false ↦ ok r.1 ]

  -- The slots from `i` on, `n` of them. Each call that asks for another has moved one edge to its
  -- place, so there are at most as many as there are slots.
  unfoldable pub resize_slots : ℕ → ℕ → ℕ → ℕ → List TraceEdge → Result (List TraceEdge)
  unfolding resize_slot
  resize_slots edge_count epoch i zero edges = ok edges
  resize_slots edge_count epoch i (suc n) edges =
      resize_slot (suc (length edges)) edge_count epoch i edges
      >>= resize_slots edge_count epoch (i + 1) n

  unfoldable pub increase_size : EdgeHashSet → Result EdgeHashSet
  unfolding resize_slots threshold
  increase_size s = do
    let epoch = bit_xor s.epoch 1
    let edge_count = s.edge_count * 2 % 2 ^ 64
    edges ←
        resize_slots edge_count epoch 0 s.edge_count
          (s.edges ++ replicate (edge_count - s.edge_count) edge_zero)
    ok (record s {
      edge_count = edge_count;
      resize_threshold = threshold edge_count;
      edges = edges;
      epoch = epoch;
    })

  -- The resizing at the head of `add_edge`.
  unfoldable pub make_room : EdgeHashSet → Result EdgeHashSet
  make_room s =
      if leb s.resize_threshold s.inserted_edges
      then (increase_size s >>= λ t. assert (ltb t.inserted_edges t.resize_threshold) >> ok t)
      else ok s

  -- Whether an addition took place, and the set afterwards.
  unfoldable pub add_edge : TraceEdge → EdgeHashSet → Result (Bool × EdgeHashSet)
  add_edge e s = if not s.is_ready then ok (false, s) else (do
    assert (edge_epoch e == 0)
    t ← make_room s
    let e' = edge_set_epoch e t.epoch
    insert e' (index_sequence t.edge_count e') t)
