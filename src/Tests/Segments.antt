-- ===== src/Tests/Segments.antt =====
-- Examples for src/Tracing/Runtime/elf_segments.cpp, with a list of intervals for the interval set.
use bracelet.Prelude.{
  ℕ, ◌+◌, ◌^◌, ◌≡◌, ◌⊎◌, refl, Bool, true, false, ◌||◌, none, some, List, [], ◌∷◌, ok, err, Error,
  Returns, arith,
}
use bracelet.Tracing.Segments.{
  LoadedObject, Interval, Library, ElfSegments, scan, pointer_is_in_elf_segment,
}
use bracelet.Tracing.Segments.Scan.{
  within, is_loaded, IsIntervalSet, pointer_is_in_elf_segment-first,
}
use bracelet.Tracing.Segments.Race.{
  World, idle, scanning, open_object, start, here, next, Reach, IsSound, finds, at, Reach-finds,
}

abbrev any : ℕ → List Interval → Bool
any ptr [] = false
any ptr (i ∷ is) = within ptr i || any ptr is

abbrev total : List Interval → ℕ
total [] = 0
total (i ∷ is) = i.lower + i.upper + total is

abbrev pub library : Library (List Interval)
library = record { empty = []; add = λ i is. i ∷ is; find = any; sort = λ is. is; hash = total }

library-IsIntervalSet : IsIntervalSet library
library-IsIntervalSet = record { find-empty = λ ptr. refl; find-add = λ ptr i set. refl }

abbrev program : LoadedObject
program = record {
  dlpi_addr = 2 ^ 22;
  dlpi_phdr =
      record { p_type = 6; p_vaddr = 64; p_memsz = 512 }
      ∷ record { p_type = 1; p_vaddr = 4096; p_memsz = 8192 }
      ∷ [];
}

pointer_is_in_elf_segment-first_example :
    let ptr = 2 ^ 22 + 5000 in
    Returns (pointer_is_in_elf_segment library ptr (program ∷ []) none) (λ r.
      (r.0 ≡ is_loaded ptr (program ∷ []))
      × ((new : ElfSegments (List Interval)) × (scan library (program ∷ []) ≡ ok new)
          × (r.1 ≡ some new)))
    ⊎ ((why : Error) × (scan library (program ∷ []) ≡ err why)
        × (pointer_is_in_elf_segment library ptr (program ∷ []) none ≡ err why))
pointer_is_in_elf_segment-first_example =
    pointer_is_in_elf_segment-first library library-IsIntervalSet (2 ^ 22 + 5000) (program ∷ [])
      (λ h. absurd (omega (arith, h)))

-- Two threads begin to scan, and one object is loaded between.
abbrev world : World (List Interval)
world = record { loaded = program ∷ []; version = 0; published = none; threads = λ t. idle }

world-IsSound : IsSound library world
world-IsSound = record { published_loaded = λ ptr h. absurd (cc h); fine = λ t. tt }

abbrev scanning_world : World (List Interval)
scanning_world = at 0 (scanning 0 none) world

abbrev loaded_world : World (List Interval)
loaded_world = record scanning_world { loaded = program ∷ program ∷ [] }

abbrev last_world : World (List Interval)
last_world = at 1 (scanning 0 none) loaded_world

steps : Reach library world last_world
steps = next (next (next here (start 0 refl)) (open_object (program ∷ []))) (start 1 refl)

Reach-finds_example :
    (finds library 4200 none ≡ true → finds library 4200 last_world.published ≡ true)
    × (finds library 4200 last_world.published ≡ true → is_loaded 4200 last_world.loaded ≡ true)
    × IsSound library last_world
Reach-finds_example = Reach-finds library library-IsIntervalSet 4200 steps world-IsSound
