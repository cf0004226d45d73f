-- ===== src/Tracing/Segments/Race.antt =====
-- `rescan` on several threads: the loop around the compare-and-exchange of `ELF_SEGMENTS`, while other
-- objects are loaded. No object is unloaded, since `dlclose` does nothing, and no set that was ever
-- published is freed, so a pointer is told by the number of the publication; 0 is the null pointer.
use native.Mathlib.Decide.{ℕ_discrete}
use bracelet.Prelude.{
  ℕ, ◌+◌, ◌≤◌, ◌≡◌, ◌≢◌, refl, sym, ◌∙◌, Bool, true, false, Option, none, some, List, [], ◌∷◌, ◌++◌,
  ok, arith, ◌==◌, ==_refl, ==_ne, if◌then◌else◌,
}
use bracelet.Tracing.Segments.{LoadedObject, Library, ElfSegments, scan, unchanged}
use bracelet.Tracing.Segments.Scan.{IsIntervalSet, is_loaded, find-scan}

-- A thread outside `rescan`, before its scan, and between its scan and its exchange.
pub data Thread (Intervals : Type 0) : Type 0 where
  idle : Thread Intervals
  scanning : ℕ → Option (ElfSegments Intervals) → Thread Intervals
  exchanging : ℕ → Option (ElfSegments Intervals) → ElfSegments Intervals → Thread Intervals

pub record World (Intervals : Type 0) : Type 0 where
  pub loaded : List LoadedObject
  pub version : ℕ
  pub published : Option (ElfSegments Intervals)
  pub threads : ℕ → Thread Intervals

module _ {Intervals : Type 0} where
  abbrev pub at : ℕ → Thread Intervals → World Intervals → World Intervals
  at t thread w = record w { threads = λ u. if u == t then thread else w.threads u }

  -- The steps of `rescan`, one for each access to shared state, and the loading of objects.
  pub data Step (library : Library Intervals) (w : World Intervals) : World Intervals → Type 0 where
    open_object :
        (more : List LoadedObject) → Step library w (record w { loaded = w.loaded ++ more })
    start : (t : ℕ) → w.threads t ≡ idle → Step library w (at t (scanning w.version w.published) w)
    scanned :
        (t v : ℕ) (old : Option (ElfSegments Intervals)) (new : ElfSegments Intervals)
        → w.threads t ≡ scanning v old
        → scan library w.loaded ≡ ok new
        → Step library w (at t (exchanging v old new) w)
    keep :
        (t v : ℕ) (old : Option (ElfSegments Intervals)) (new : ElfSegments Intervals)
        → w.threads t ≡ exchanging v old new
        → unchanged library old new ≡ true
        → Step library w (at t idle w)
    exchange :
        (t : ℕ) (old : Option (ElfSegments Intervals)) (new : ElfSegments Intervals)
        → w.threads t ≡ exchanging w.version old new
        → unchanged library old new ≡ false
        → Step library w (at t idle (record w { version = w.version + 1; published = some new }))
    lose :
        (t v : ℕ) (old : Option (ElfSegments Intervals)) (new : ElfSegments Intervals)
        → w.threads t ≡ exchanging v old new
        → unchanged library old new ≡ false
        → v ≢ w.version
        → Step library w (at t (scanning w.version w.published) w)

  pub data Reach (library : Library Intervals) (w : World Intervals)
      : World Intervals → Type 0 where
    here : Reach library w w
    next : {u x : World Intervals} → Reach library w u → Step library u x → Reach library w x

module _ {Intervals : Type 0} (library : Library Intervals) where
  -- What `pointerIsInElfSegment` finds in what is published.
  abbrev pub finds : ℕ → Option (ElfSegments Intervals) → Bool
  finds ptr none = false
  finds ptr (some s) = library.find ptr s.segments

  -- What a thread's state is good for, in a world of these objects, this version and these segments.
  abbrev pub IsFine :
      List LoadedObject → ℕ → Option (ElfSegments Intervals) → Thread Intervals → Type 0
  IsFine loaded version published idle = Unit {0}
  IsFine loaded version published (scanning v old) = v ≤ version
  IsFine loaded version published (exchanging v old new) =
      (v ≤ version)
      × ((ptr : ℕ) → library.find ptr new.segments ≡ true → is_loaded ptr loaded ≡ true)
      × (v ≡ version
          → (ptr : ℕ) → finds ptr published ≡ true
          → library.find ptr new.segments ≡ true)

  pub record IsSound (w : World Intervals) : Type 0 where
    pub published_loaded : (ptr : ℕ) → finds ptr w.published ≡ true → is_loaded ptr w.loaded ≡ true
    pub fine : (t : ℕ) → IsFine w.loaded w.version w.published (w.threads t)

  is_loaded-append :
      (ptr : ℕ) (os more : List LoadedObject)
      → is_loaded ptr os ≡ true
      → is_loaded ptr (os ++ more) ≡ true
  is_loaded-append ptr [] more h = absurd (cc h)
  is_loaded-append ptr (o ∷ os) more h = ground (arith, is_loaded-append ptr os more)

  IsFine-open :
      (os more : List LoadedObject) (version : ℕ) (published : Option (ElfSegments Intervals))
      (th : Thread Intervals)
      → IsFine os version published th
      → IsFine (os ++ more) version published th
  IsFine-open os more version published idle f = tt
  IsFine-open os more version published (scanning v old) f = f
  IsFine-open os more version published (exchanging v old new) (a, b, c) =
      (a, λ ptr h. is_loaded-append ptr os more (b ptr h), c)

  IsFine-publish :
      (os : List LoadedObject) (version : ℕ) (published published' : Option (ElfSegments Intervals))
      (th : Thread Intervals)
      → IsFine os version published th
      → IsFine os (version + 1) published' th
  IsFine-publish os version published published' idle f = tt
  IsFine-publish os version published published' (scanning v old) f = omega arith
  IsFine-publish os version published published' (exchanging v old new) (a, b, c) =
      (omega arith, b, λ h. absurd (omega arith))

  -- A change of one thread.
  at-IsFine :
      (os : List LoadedObject) (version : ℕ) (published : Option (ElfSegments Intervals))
      (threads : ℕ → Thread Intervals) (t : ℕ) (th : Thread Intervals)
      → IsFine os version published th
      → ((u : ℕ) → IsFine os version published (threads u))
      → (u : ℕ) → IsFine os version published (if u == t then th else threads u)
  at-IsFine os version published threads t th f all u = elim (ℕ_discrete u t) [
    | yes same ↦ rw (same, ==_refl t) f
    | no other ↦ rw (==_ne u t other) (all u)
  ]

  module _ (law : IsIntervalSet library) where
    Step-IsSound : {w x : World Intervals} → Step library w x → IsSound w → IsSound x
    Step-IsSound {w} (open_object more) s = record {
      published_loaded = λ ptr h. is_loaded-append ptr w.loaded more (s.published_loaded ptr h);
      fine = λ t. IsFine-open w.loaded more w.version w.published (w.threads t) (s.fine t);
    }
    Step-IsSound {w} (start t h) s = record {
      published_loaded = s.published_loaded;
      fine = at-IsFine w.loaded w.version w.published w.threads t _ (omega arith) s.fine;
    }
    Step-IsSound {w} (scanned t v old new h k) s = record {
      published_loaded = s.published_loaded;
      fine =
          let f : IsFine w.loaded w.version w.published (scanning v old) = rw h at (s.fine t) in
          at-IsFine w.loaded w.version w.published w.threads t (exchanging v old new)
            (
              f,
              λ ptr l. sym (find-scan library law ptr w.loaded new k) ∙ l,
              λ same ptr l. find-scan library law ptr w.loaded new k ∙ s.published_loaded ptr l,
            )
            s.fine;
    }
    Step-IsSound {w} (keep t v old new h k) s = record {
      published_loaded = s.published_loaded;
      fine = at-IsFine w.loaded w.version w.published w.threads t idle tt s.fine;
    }
    Step-IsSound {w} (exchange t old new h k) s = record {
      published_loaded =
          let f : IsFine w.loaded w.version w.published (exchanging w.version old new) =
            rw h at (s.fine t) in
          f.1;
      fine =
          at-IsFine w.loaded (w.version + 1) (some new) w.threads t idle tt (λ u.
            IsFine-publish w.loaded w.version w.published (some new) (w.threads u) (s.fine u));
    }
    Step-IsSound {w} (lose t v old new h k l) s = record {
      published_loaded = s.published_loaded;
      fine = at-IsFine w.loaded w.version w.published w.threads t _ (omega arith) s.fine;
    }

    Step-finds :
        {w x : World Intervals} (ptr : ℕ)
        → Step library w x
        → IsSound w
        → finds ptr w.published ≡ true
        → finds ptr x.published ≡ true
    Step-finds ptr (open_object more) s h = h
    Step-finds ptr (start t k) s h = h
    Step-finds ptr (scanned t v old new k l) s h = h
    Step-finds ptr (keep t v old new k l) s h = h
    Step-finds {w} ptr (exchange t old new k l) s h =
        let f : IsFine w.loaded w.version w.published (exchanging w.version old new) =
          rw k at (s.fine t) in
        f.2 refl ptr h
    Step-finds ptr (lose t v old new k l m) s h = h

    -- However the threads and the loader interleave, from a world whose published segments are loaded:
    -- a pointer that is found stays found, and every pointer that is found is in a loaded segment.
    pub Reach-finds :
        {w x : World Intervals} (ptr : ℕ)
        → Reach library w x
        → IsSound w
        → (finds ptr w.published ≡ true → finds ptr x.published ≡ true)
          × (finds ptr x.published ≡ true → is_loaded ptr x.loaded ≡ true)
          × IsSound x
    Reach-finds ptr here s = (λ h. h, s.published_loaded ptr, s)
    Reach-finds ptr (next r st) s =
        let (a, b, sound) = Reach-finds ptr r s in
        let sound' = Step-IsSound st sound in
        (λ h. Step-finds ptr st sound (a h), sound'.published_loaded ptr, sound')
