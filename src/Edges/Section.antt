-- ===== src/Edges/Section.antt =====
-- src/Edges/Encoding.h, `SectionNames` and `GraphHeader`; src/Edges/Reader.cpp, `FrameDecoder`,
-- `parse_debug_data` and `readEdges`: from the bytes of a section to frames. The object file is a
-- record of what `Object` offers; zstd and streamvbyte are parameters, and bytes stand for `char`.
-- The strings that the decoder keeps from graph to graph are its state, stale bytes included.
use bracelet.Prelude.{
  ℕ, zero, suc, ◌+◌, ◌-◌, ◌*◌, ◌%◌, ◌^◌, Bool, true, false, not, ◌&&◌, Option, none, some, List, [],
  ◌∷◌, ◌++◌, Result, ok, err, ◌>>=◌, ◌>>◌, ensure, assert, for_each, out_of_fuel, zstd_size,
  zstd_decompress, streamvbyte_invalid, blob_too_long, buffer_too_short, leb, ltb, ◌==◌,
  if◌then◌else◌, length, get_or, take, drop, replicate,
}
use bracelet.Edges.Bytes.{Text, equal}
use bracelet.Edges.Strings.{GraphDebugData, string_offsets}
use bracelet.Edges.Reader.{Frame, FunctionInfo, read_frame}

-- `object_parsing::Section` and the operations of `object_parsing::Object` that the reader calls.
pub record Section : Type 0 where
  pub name : Text
  pub start : ℕ
  pub size : ℕ

pub record Object : Type 0 where
  pub is_apple : Bool
  pub pointer_size : ℕ
  pub sections : List Section
  pub copy_data : ℕ → ℕ → Result Text
  pub resolve_pointers : ℕ → ℕ → Result (List ℕ)

-- What the reader calls of zstd and streamvbyte: the size of a frame's content, its content in a
-- buffer of some capacity, the check of a stream of so many bytes, and the two decoders.
pub record Codecs : Type 0 where
  pub padding : ℕ
  pub frame_content_size : Text → Option ℕ
  pub decompress : ℕ → Text → Option Text
  pub validate_stream : Text → ℕ → ℕ → Bool
  pub decode : Text → ℕ → List ℕ
  pub delta_decode : Text → ℕ → List ℕ

-- "GR_graph_edges", with "__DATA,__" in front for Apple.
abbrev pub graph_name : Bool → Text
graph_name is_apple =
    (if is_apple then 95 ∷ 95 ∷ 68 ∷ 65 ∷ 84 ∷ 65 ∷ 44 ∷ 95 ∷ 95 ∷ [] else [])
    ++ 71 ∷ 82 ∷ 95 ∷ 103 ∷ 114 ∷ 97 ∷ 112 ∷ 104 ∷ 95 ∷ 101 ∷ 100 ∷ 103 ∷ 101 ∷ 115 ∷ []

pub record GraphHeader : Type 0 where
  pub magic_number : List ℕ
  pub function_data_compressed_size : ℕ
  pub debug_data_compressed_size : ℕ
  pub num_symbols : ℕ
  pub string_blob_length : ℕ
  pub has_debug_locals : ℕ
  pub total_num_locals : ℕ
  pub num_functions : ℕ
  pub function_array_length : ℕ

abbrev pub graph_magic_number : List ℕ
graph_magic_number = 0x3ac7_3b4e ∷ 0x445e_cf19 ∷ []

-- The same eight bytes, in memory.
abbrev pub graph_magic_number_bytes : Text
graph_magic_number_bytes = 0x4e ∷ 0x3b ∷ 0xc7 ∷ 0x3a ∷ 0x19 ∷ 0xcf ∷ 0x5e ∷ 0x44 ∷ []

-- The `uint32_t` number `i` of some bytes, the low byte first.
unfoldable pub word_at : Text → ℕ → ℕ
word_at b i =
    get_or b (4 * i) 0
    + 2 ^ 8 * get_or b (4 * i + 1) 0
    + 2 ^ 16 * get_or b (4 * i + 2) 0
    + 2 ^ 24 * get_or b (4 * i + 3) 0

-- `memcpy` to a `GraphHeader`.
unfoldable pub header_of_bytes : Text → GraphHeader
unfolding word_at
header_of_bytes b = record {
  magic_number = word_at b 0 ∷ word_at b 1 ∷ [];
  function_data_compressed_size = word_at b 2;
  debug_data_compressed_size = word_at b 3;
  num_symbols = word_at b 4;
  string_blob_length = word_at b 5;
  has_debug_locals = word_at b 6;
  total_num_locals = word_at b 7;
  num_functions = word_at b 8;
  function_array_length = word_at b 9;
}

pub record Decoder : Type 0 where
  pub full_section_data : Text
  pub section_data_cursor : ℕ
  pub section_start : ℕ
  pub function_data_decompressed : Text
  pub decompressed_debug_data : Text

-- `std::string::resize`, and what a write to the head of a buffer leaves.
unfoldable pub resize : ℕ → Text → Text
resize n b = take n b ++ replicate (n - length b) 0

unfoldable pub overwrite : Text → Text → Text
overwrite out b = out ++ drop (length out) b

unfoldable pub has_prefix : Text → Text → Bool
has_prefix [] b = true
has_prefix (x ∷ xs) [] = false
has_prefix (x ∷ xs) (y ∷ b) = x == y && has_prefix xs b

-- `std::string::find`, from the head of the list.
unfoldable pub find_text : Text → Text → Option ℕ
unfolding has_prefix
find_text what [] = if has_prefix what [] then some 0 else none
find_text what (x ∷ xs) = elim (has_prefix what (x ∷ xs)) [
  | true ↦ some 0
  | false ↦ elim (find_text what xs) [ none ↦ none | some n ↦ some (suc n) ]
]

-- `consumeBytes`; the sum of the test is that of 64-bit words.
unfoldable pub consume_bytes : ℕ → Decoder → Result (Text × Decoder)
consume_bytes num_bytes d =
    let cursor = (d.section_data_cursor + num_bytes) % 2 ^ 64 in
    ensure (leb cursor (length d.full_section_data)) buffer_too_short
    >> ok (
      take num_bytes (drop d.section_data_cursor d.full_section_data),
      record d { section_data_cursor = cursor },
    )

module _ (target : Object) (codecs : Codecs) where
  unfoldable pub consume_addresses : ℕ → Decoder → Result (List ℕ × Decoder)
  unfolding consume_bytes
  consume_addresses count d = do
    let addr = (d.section_start + d.section_data_cursor) % 2 ^ 64
    (bytes, d₁) ← consume_bytes (count * target.pointer_size % 2 ^ 64) d
    addresses ← target.resolve_pointers count addr
    ok (addresses, d₁)

  -- `ZSTD_getFrameContentSize` and `ZSTD_decompress` to the buffer, of the content's size and so many
  -- bytes of padding; `spare` of these are handed to zstd.
  unfoldable pub decompress_to : ℕ → Text → Text → Result (ℕ × Text)
  unfolding resize overwrite
  decompress_to spare compressed buffer = elim (codecs.frame_content_size compressed) [
    | none ↦ err zstd_size
    | some size ↦ elim (codecs.decompress (size + spare) compressed) [
      | none ↦ err zstd_decompress
      | some out ↦
          assert (length out == size)
          >> ok (size, overwrite out (resize (size + codecs.padding) buffer))
    ]
  ]

  -- The local indices behind the text blob, if the header says that there are any.
  unfoldable pub local_string_indices : GraphHeader → Text → Result (Option (List ℕ))
  local_string_indices header encoded =
      if header.has_debug_locals == 0
      then ok none
      else (ensure
            (codecs.validate_stream encoded ((length encoded + 2 ^ 64 - codecs.padding) % 2 ^ 64)
              header.total_num_locals)
            streamvbyte_invalid
          >> ok (some (codecs.delta_decode encoded header.total_num_locals)))

  unfoldable pub parse_debug_data : GraphHeader → ℕ → Text → Result (GraphDebugData × Text)
  unfolding decompress_to local_string_indices string_offsets
  parse_debug_data header debug_data_address buffer = do
    assert (not (debug_data_address == 0))
    compressed ← target.copy_data header.debug_data_compressed_size debug_data_address
    (size, full) ← decompress_to codecs.padding compressed buffer
    ensure (leb header.string_blob_length (length full)) blob_too_long
    let string_blob = take header.string_blob_length full
    locals ← local_string_indices header (drop header.string_blob_length full)
    offsets ← string_offsets string_blob
    ok (record { string_blob = string_blob; local_indices = locals; offsets = offsets }, full)

  unfoldable pub consume_one_graph : Decoder → Result (Frame × Decoder)
  unfolding consume_bytes header_of_bytes consume_addresses decompress_to parse_debug_data
  consume_one_graph d = do
    (bytes, d₁) ← consume_bytes 40 d
    let header = header_of_bytes bytes
    assert (equal header.magic_number graph_magic_number)
    (debug_data_addresses, d₂) ← consume_addresses 1 d₁
    (symbol_addresses, d₃) ← consume_addresses header.num_symbols d₂
    (compressed, d₄) ← consume_bytes header.function_data_compressed_size d₃
    (size, decompressed) ← decompress_to 0 compressed d₄.function_data_decompressed
    ensure (codecs.validate_stream decompressed size header.function_array_length)
        streamvbyte_invalid
    (debug_data, full) ←
        parse_debug_data header (get_or debug_data_addresses 0 0) d₄.decompressed_debug_data
    ok (
      record {
        num_functions = header.num_functions;
        function_data = codecs.decode decompressed header.function_array_length;
        symbol_addresses = symbol_addresses;
        debug_data = debug_data;
      },
      record d₄ { function_data_decompressed = decompressed; decompressed_debug_data = full },
    )

  -- The loop of `runOnSection`; the warning on bytes that it skips is left out.
  unfoldable pub run_from :
      {S : Type 0} → (Frame → S → Result S) → ℕ → Decoder → S → Result (Decoder × S)
  unfolding find_text consume_one_graph
  run_from cb zero d s = err out_of_fuel
  run_from cb (suc fuel) d s =
      let found =
        find_text graph_magic_number_bytes (drop d.section_data_cursor d.full_section_data) in
      elim (ltb d.section_data_cursor (length d.full_section_data)) [
        | false ↦ ok (d, s)
        | true ↦ elim found [
          | none ↦ ok (d, s)
          | some n ↦ do
            (frame, d₁) ←
                consume_one_graph (record d { section_data_cursor = d.section_data_cursor + n })
            s₁ ← cb frame s
            run_from cb fuel d₁ s₁
        ]
      ]

  -- A graph takes its header's 40 bytes at least, so the length of the section is fuel enough.
  unfoldable pub run_on_section :
      {S : Type 0} → (Frame → S → Result S) → Section → Decoder × S → Result (Decoder × S)
  unfolding run_from
  run_on_section cb section (d, s) = do
    bytes ← target.copy_data section.size section.start
    run_from cb (suc (length bytes))
        (record d {
          full_section_data = bytes;
          section_data_cursor = 0;
          section_start = section.start;
        })
        s

  unfoldable pub read_edges : {S : Type 0} → (FunctionInfo → S → Result S) → S → Result S
  unfolding run_on_section read_frame
  read_edges callback s = do
    let decoder : Decoder = record {
      full_section_data = [];
      section_data_cursor = 0;
      section_start = 0;
      function_data_decompressed = [];
      decompressed_debug_data = [];
    }
    (d, s₁) ←
        for_each
          (λ section state.
            if equal section.name (graph_name target.is_apple)
            then run_on_section (read_frame callback) section state
            else ok state)
          target.sections (decoder, s)
    ok s₁
