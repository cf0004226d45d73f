-- ===== src/Tests/Runtime.antt =====
-- Examples for src/Tracing/Runtime/trace_runtime.cpp and exports.cpp.
use bracelet.Prelude.{ℕ, ◌-◌, ◌/◌, ◌≡◌, some, List, [], ◌∷◌, for_each, length}
use bracelet.Tracing.HashSet.{empty_table}
use bracelet.Tracing.Segments.{Interval, ElfSegments}
use bracelet.Tracing.Runtime.{Runtime, trace_word, trace_buffer}
use bracelet.Tracing.Runtime.Words.{words, trace_buffer-words}
use bracelet.Tests.Tracing.{hash, heap}
use bracelet.Tests.Segments.{library}

abbrev no_segments : ElfSegments (List Interval)
no_segments = record { segments = []; segments_hash = 0 }

abbrev runtime : Runtime (List Interval)
runtime = record {
  heap = heap;
  tl_buffer = empty_table 4;
  loaded = [];
  elf_segments = some no_segments;
}

abbrev two_words : List ℕ
two_words = 1 ∷ 0 ∷ 0 ∷ 0 ∷ 0 ∷ 0 ∷ 0 ∷ 0 ∷ 2 ∷ 0 ∷ 0 ∷ 0 ∷ 0 ∷ 0 ∷ 0 ∷ 0 ∷ []

trace_buffer-words_example :
    trace_buffer library hash 4096 two_words runtime
    ≡ for_each (trace_word library hash 4096) (words ((length two_words - 1) / 8) two_words) runtime
trace_buffer-words_example = trace_buffer-words library hash 4096 two_words runtime
