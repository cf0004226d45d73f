-- ===== src/Tracing/Segments.antt =====
-- src/Tracing/Runtime/elf_segments.cpp: the address ranges of the loaded ELF segments. The list that
-- `dl_iterate_phdr` walks is a state of the loader; the interval set of Boost, its hash and `std::sort`
-- are parameters.
pub mod Scan
pub mod Race
use bracelet.Prelude.{
  ℕ, ◌+◌, ◌-◌, ◌%◌, ◌^◌, Bool, true, false, not, ◌&&◌, ◌||◌, Option, none, some, List, [], ◌∷◌,
  ◌++◌, Result, ok, err, assertion, ◌>>=◌, ◌>>◌, assert, ltb, leb, ◌==◌, if◌then◌else◌,
}

-- `ElfW(Phdr)` and `dl_phdr_info`.
pub record ProgramHeader : Type 0 where
  pub p_type : ℕ
  pub p_vaddr : ℕ
  pub p_memsz : ℕ

pub record LoadedObject : Type 0 where
  pub dlpi_addr : ℕ
  pub dlpi_phdr : List ProgramHeader

abbrev pub pt_load : ℕ
pt_load = 1

abbrev pub max_address : ℕ
max_address = 2 ^ 64 - 1

-- `interval.lower()` and `interval.upper()`; the upper end is left out.
pub record Interval : Type 0 where
  pub lower : ℕ
  pub upper : ℕ

-- One segment, at its load address.
unfoldable pub interval_of : ℕ → ProgramHeader → Result Interval
interval_of dlpi_addr h = do
  let base = (dlpi_addr + h.p_vaddr) % 2 ^ 64
  let end = (base + h.p_memsz) % 2 ^ 64
  assert (ltb base end)
  assert (not (base == max_address))
  assert (not (end == max_address))
  ok (record { lower = base; upper = end })

-- The callback of `rescan`, over the headers of one object: only `PT_LOAD` counts.
unfoldable pub object_intervals : ℕ → List ProgramHeader → Result (List Interval)
unfolding interval_of
object_intervals dlpi_addr [] = ok []
object_intervals dlpi_addr (h ∷ hs) =
    let rest = object_intervals dlpi_addr hs in
    if not (h.p_type == pt_load)
    then rest
    else (interval_of dlpi_addr h >>= λ interval. rest >>= λ intervals. ok (interval ∷ intervals))

unfoldable pub intervals : List LoadedObject → Result (List Interval)
unfolding object_intervals
intervals [] = ok []
intervals (o ∷ os) = do
  first ← object_intervals o.dlpi_addr o.dlpi_phdr
  rest ← intervals os
  ok (first ++ rest)

-- What the code uses of `boost::icl::interval_set`, `std::sort` and xxh3.
pub record Library (Intervals : Type 0) : Type 0 where
  pub empty : Intervals
  pub add : Interval → Intervals → Intervals
  pub find : ℕ → Intervals → Bool
  pub sort : List Interval → List Interval
  pub hash : List Interval → ℕ

pub record ElfSegments (Intervals : Type 0) : Type 0 where
  pub segments : Intervals
  pub segments_hash : ℕ

module _ {Intervals : Type 0} (library : Library Intervals) where
  unfoldable pub add_all : List Interval → Intervals → Intervals
  add_all [] set = set
  add_all (i ∷ is) set = add_all is (library.add i set)

  -- The body of the loop of `rescan`, up to the comparison.
  unfoldable pub scan : List LoadedObject → Result (ElfSegments Intervals)
  unfolding intervals add_all
  scan loaded = do
    found ← intervals loaded
    ok (record {
      segments = add_all found library.empty;
      segments_hash = library.hash (library.sort found);
    })

  -- `old && new_intervals->segments_hash == old->segments_hash`
  unfoldable pub unchanged : Option (ElfSegments Intervals) → ElfSegments Intervals → Bool
  unchanged none new = false
  unchanged (some old) new = new.segments_hash == old.segments_hash

  -- `rescan` with no other thread: the exchange succeeds.
  unfoldable pub rescan :
      List LoadedObject → Option (ElfSegments Intervals) → Result (Option (ElfSegments Intervals))
  unfolding scan unchanged
  rescan loaded old = do new ← scan loaded; ok (if unchanged old new then old else some new)

  -- What follows the first scan.
  unfoldable pub first_lookup :
      ℕ → Option (ElfSegments Intervals) → Result (Bool × Option (ElfSegments Intervals))
  first_lookup ptr none = err assertion
  first_lookup ptr (some s) = ok (library.find ptr s.segments, some s)

  -- The lookup, which scans first if nothing is published.
  unfoldable pub lookup :
      ℕ
      → List LoadedObject
      → Option (ElfSegments Intervals)
      → Result (Bool × Option (ElfSegments Intervals))
  unfolding rescan first_lookup
  lookup ptr loaded (some s) = ok (library.find ptr s.segments, some s)
  lookup ptr loaded none = rescan loaded none >>= first_lookup ptr

  -- `pointerIsInElfSegment`, and what it leaves published.
  unfoldable pub pointer_is_in_elf_segment :
      ℕ
      → List LoadedObject
      → Option (ElfSegments Intervals)
      → Result (Bool × Option (ElfSegments Intervals))
  unfolding lookup
  pointer_is_in_elf_segment ptr loaded published =
      if ptr == max_address then ok (false, published) else lookup ptr loaded published
