-- ===== src/Tracing/Runtime/Words.antt =====
-- `traceBuffer` of trace_runtime.cpp and the words of a buffer.
use bracelet.Prelude.{
  ℕ, zero, suc, ◌+◌, ◌-◌, ◌*◌, ◌/◌, ◌<◌, ◌≡◌, refl, sym, ap, ◌∙◌, some, List, [], ◌∷◌, bind_ext,
  arith, for_each, length, take, drop, get_elem?, drop-add, length-drop, lt→ltb,
}
use bracelet.Tracing.HashSet.{TraceEdge}
use bracelet.Tracing.Simplify.{number_of_bytes}
use bracelet.Tracing.Segments.{Library}
use bracelet.Tracing.Runtime.{Runtime, trace_word, trace_bytes, trace_buffer}

-- The first `n` aligned words of some bytes.
abbrev pub words : ℕ → List ℕ → List ℕ
words zero bytes = []
words (suc n) bytes = number_of_bytes (take 8 bytes) ∷ words n (drop 8 bytes)

pub get_elem?-words :
    (n : ℕ) (bytes : List ℕ) (i : ℕ)
    → i < n
    → get_elem? (words n bytes) i ≡ some (number_of_bytes (take 8 (drop (8 * i) bytes)))
get_elem?-words zero bytes i h = absurd (omega arith)
get_elem?-words (suc n) bytes zero h = refl
get_elem?-words (suc n) bytes (suc i) h =
    let e : 8 * suc i ≡ 8 + 8 * i = omega arith in
    get_elem?-words n (drop 8 bytes) i (omega arith)
    ∙ ap (λ rest. some (number_of_bytes (take 8 rest))) (sym (rw e (drop-add 8 (8 * i) bytes)))

module _ {Intervals : Type 0} (library : Library Intervals) (fnv1a : TraceEdge → ℕ) (site : ℕ) where
  trace_bytes-words :
      (fuel n : ℕ) (bytes : List ℕ) (rt : Runtime Intervals)
      → length bytes < fuel
      → (length bytes - 1) / 8 ≡ n
      → trace_bytes library fnv1a fuel site bytes rt
        ≡ for_each (trace_word library fnv1a site) (words n bytes) rt
  unfolding trace_bytes
  trace_bytes-words zero n bytes rt h e = absurd (omega arith)
  trace_bytes-words (suc fuel) zero bytes rt h e = ground arith
  trace_bytes-words (suc fuel) (suc n) bytes rt h e =
      let more = lt→ltb 8 (length bytes) (omega arith) in
      rw (more, trace_bytes)
        (bind_ext (trace_word library fnv1a site (number_of_bytes (take 8 bytes)) rt) _ _ (λ rt'.
          trace_bytes-words fuel n (drop 8 bytes) rt' (omega (arith, length-drop 8 bytes))
            (omega (arith, length-drop 8 bytes))))

  -- Tracing a buffer of `n` bytes traces its first (n - 1) / 8 aligned words, in order, up to the first
  -- failure: the last word of a buffer of whole words is not traced.
  pub trace_buffer-words :
      (buffer : List ℕ) (rt : Runtime Intervals)
      → trace_buffer library fnv1a site buffer rt
        ≡ for_each (trace_word library fnv1a site) (words ((length buffer - 1) / 8) buffer) rt
  unfolding trace_buffer
  trace_buffer-words buffer rt =
      trace_bytes-words (suc (length buffer)) _ buffer rt (omega arith) refl
