-- ===== src/Tracing/Segments/Scan.antt =====
-- `rescan` and `pointerIsInElfSegment` of elf_segments.cpp, against the segments that are loaded.
use bracelet.Prelude.{
  ℕ, ◌+◌, ◌%◌, ◌^◌, ◌≡◌, refl, ◌⊎◌, inl, inr, Bool, false, ◌&&◌, ◌||◌, none, some, List, [], ◌∷◌,
  ◌++◌, Error, ◌≢◌, ok, err, ltb, leb, ◌==◌, arith, Returns, Result-cases, ==_ne,
}
use bracelet.Tracing.Segments.{
  ProgramHeader, LoadedObject, Interval, Library, ElfSegments, pt_load, max_address,
  object_intervals, intervals, add_all, scan, unchanged, rescan, lookup, first_lookup,
  pointer_is_in_elf_segment,
}

-- An address lies in an interval, in a loadable segment, in one of an object's, of a list's.
abbrev pub within : ℕ → Interval → Bool
within ptr i = leb i.lower ptr && ltb ptr i.upper

abbrev pub in_segment : ℕ → ℕ → ProgramHeader → Bool
in_segment ptr dlpi_addr h =
    h.p_type == pt_load
    && (leb ((dlpi_addr + h.p_vaddr) % 2 ^ 64) ptr
        && ltb ptr (((dlpi_addr + h.p_vaddr) % 2 ^ 64 + h.p_memsz) % 2 ^ 64))

abbrev pub in_object : ℕ → ℕ → List ProgramHeader → Bool
in_object ptr dlpi_addr [] = false
in_object ptr dlpi_addr (h ∷ hs) = in_segment ptr dlpi_addr h || in_object ptr dlpi_addr hs

abbrev pub is_loaded : ℕ → List LoadedObject → Bool
is_loaded ptr [] = false
is_loaded ptr (o ∷ os) = in_object ptr o.dlpi_addr o.dlpi_phdr || is_loaded ptr os

-- What is documented of the interval set: it holds the addresses of the intervals added.
pub record IsIntervalSet {Intervals : Type 0} (library : Library Intervals) : Type 0 where
  pub find-empty : (ptr : ℕ) → library.find ptr library.empty ≡ false
  pub find-add :
      (ptr : ℕ) (i : Interval) (set : Intervals)
      → library.find ptr (library.add i set) ≡ (within ptr i || library.find ptr set)

abbrev any_within : ℕ → List Interval → Bool
any_within ptr [] = false
any_within ptr (i ∷ is) = within ptr i || any_within ptr is

any_within-append :
    (ptr : ℕ) (is js : List Interval)
    → any_within ptr (is ++ js) ≡ (any_within ptr is || any_within ptr js)
any_within-append ptr [] js = refl
any_within-append ptr (i ∷ is) js = ground (arith, any_within-append ptr is js)

object_intervals-within :
    (ptr dlpi_addr : ℕ) (hs : List ProgramHeader) (is : List Interval)
    → object_intervals dlpi_addr hs ≡ ok is
    → any_within ptr is ≡ in_object ptr dlpi_addr hs
unfolding object_intervals
object_intervals-within ptr dlpi_addr [] is h = ground arith
object_intervals-within ptr dlpi_addr (p ∷ hs) is h =
    elim (Result-cases (object_intervals dlpi_addr hs)) [
      | inl (rest, e) ↦ ground (arith, e, object_intervals-within ptr dlpi_addr hs rest e)
      | inr (why, e) ↦ ground (arith, e)
    ]

intervals-within :
    (ptr : ℕ) (os : List LoadedObject) (is : List Interval)
    → intervals os ≡ ok is
    → any_within ptr is ≡ is_loaded ptr os
unfolding intervals
intervals-within ptr [] is h = ground arith
intervals-within ptr (o ∷ os) is h =
    elim (Result-cases (object_intervals o.dlpi_addr o.dlpi_phdr)) [
      | inr (why, e) ↦ absurd (cc (rw e at h))
      | inl (first, e) ↦ elim (Result-cases (intervals os)) [
        | inr (why, e') ↦ absurd (cc (rw (e, e') at h))
        | inl (rest, e') ↦
            let whole : first ++ rest ≡ is = cc (rw (e, e') at h) in
            rw (
              ← whole,
              any_within-append ptr first rest,
              object_intervals-within ptr o.dlpi_addr o.dlpi_phdr first e,
              intervals-within ptr os rest e',
            )
      ]
    ]

module _ {Intervals : Type 0} (library : Library Intervals) (law : IsIntervalSet library) where
  find-add_all :
      (ptr : ℕ) (is : List Interval) (set : Intervals)
      → library.find ptr (add_all library is set) ≡ (any_within ptr is || library.find ptr set)
  unfolding add_all
  find-add_all ptr [] set = refl
  find-add_all ptr (i ∷ is) set =
      ground (arith, find-add_all ptr is (library.add i set), law.find-add ptr i set)

  pub find-scan :
      (ptr : ℕ) (loaded : List LoadedObject) (new : ElfSegments Intervals)
      → scan library loaded ≡ ok new
      → library.find ptr new.segments ≡ is_loaded ptr loaded
  unfolding scan
  find-scan ptr loaded new h = elim (Result-cases (intervals loaded)) [
    | inr (why, e) ↦ absurd (cc (rw e at h))
    | inl (found, e) ↦
        let made : ◌≡◌ {A = ElfSegments Intervals}
            (record {
              segments = add_all library found library.empty;
              segments_hash = library.hash (library.sort found);
            })
            new =
          cc (rw e at h) in
        rw
          (
            ← made,
            find-add_all ptr found library.empty,
            law.find-empty ptr,
            intervals-within ptr loaded found e,
          )
          (ground arith)
  ]

  -- The lookup of a pointer when nothing was published, other than of the largest address: what is
  -- published from then on is a scan, in which a pointer is found exactly if it lies in a loaded
  -- segment, and the lookup says so; it fails the assertions only where the scan does.
  pub pointer_is_in_elf_segment-first :
      (ptr : ℕ) (loaded : List LoadedObject)
      → ptr ≢ max_address
      → Returns (pointer_is_in_elf_segment library ptr loaded none) (λ r.
        (r.0 ≡ is_loaded ptr loaded)
        × ((new : ElfSegments Intervals) × (scan library loaded ≡ ok new) × (r.1 ≡ some new)))
        ⊎ ((why : Error) × (scan library loaded ≡ err why)
            × (pointer_is_in_elf_segment library ptr loaded none ≡ err why))
  unfolding pointer_is_in_elf_segment lookup rescan unchanged first_lookup
  pointer_is_in_elf_segment-first ptr loaded ne = elim (Result-cases (scan library loaded)) [
    | inr (why, e) ↦ inr (why, e, rw (==_ne ptr max_address ne, e))
    | inl (new, e) ↦
        inl (_, rw (==_ne ptr max_address ne, e), (find-scan ptr loaded new e, (new, e, refl)))
  ]
