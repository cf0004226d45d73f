-- ===== src/Edges/Image.antt =====
-- src/Edges/Writer.cpp, `GraphWriter::writeTo`: the contents of the two LLVM globals. Their alignment,
-- linkage and names are left to LLVM; zstd and streamvbyte are parameters.
use bracelet.Prelude.{
  ℕ, ◌+◌, ◌*◌, ◌/◌, ◌%◌, ◌^◌, ◌<◌, ◌≡◌, Bool, Option, none, some, List, [], ◌∷◌, ◌++◌, Result, ok,
  err, assertion, ◌>>=◌, arith, length, if◌then◌else◌, sym, ap,
}
use bracelet.Edges.Bytes.{Text}
use bracelet.Edges.Symbols.{Comdat, GlobalObject}
use bracelet.Edges.Writer.{GraphWriter, as_u32}
use bracelet.Edges.Section.{GraphHeader, graph_magic_number, graph_name, word_at, header_of_bytes}

-- `streamvbyte_encode`, `streamvbyte_delta_encode` from 0, and `ZSTD_compress` at the level that the
-- code asks for.
pub record Encoders : Type 0 where
  pub encode : List ℕ → Text
  pub delta_encode : List ℕ → Text
  pub compress : Text → Option Text

-- The graph's global: header, pointer to the debug data, symbols, function data; and the debug data.
pub record GraphImage : Type 0 where
  pub header : Text
  pub symbols : List GlobalObject
  pub function_data : Text
  pub debug_data : Text
  pub section : Text
  pub comdat : Option Comdat

-- A `uint32_t` in memory, and a list of them.
unfoldable pub word_bytes : ℕ → Text
word_bytes w = w % 2 ^ 8 ∷ w / 2 ^ 8 % 2 ^ 8 ∷ w / 2 ^ 16 % 2 ^ 8 ∷ w / 2 ^ 24 % 2 ^ 8 ∷ []

unfoldable pub words_bytes : List ℕ → Text
words_bytes [] = []
words_bytes (w ∷ ws) = word_bytes w ++ words_bytes ws

-- A `GraphHeader` as its 40 bytes; the magic number is the constant.
unfoldable pub header_bytes : GraphHeader → Text
unfolding words_bytes word_bytes
header_bytes h = words_bytes (
    graph_magic_number
    ++ h.function_data_compressed_size ∷ h.debug_data_compressed_size ∷ h.num_symbols
      ∷ h.string_blob_length ∷ h.has_debug_locals ∷ h.total_num_locals ∷ h.num_functions
      ∷ h.function_array_length ∷ [])

-- A failed compression fails the assertion.
unfoldable pub compressed : Option Text → Result Text
compressed none = err assertion
compressed (some out) = ok out

unfoldable pub write_to : Encoders → Bool → GraphWriter → Result GraphImage
unfolding as_u32 compressed header_bytes
write_to encoders is_apple gw = do
  array_length ← as_u32 (length gw.function_data)
  function_data ← compressed (encoders.compress (encoders.encode gw.function_data))
  num_locals ← as_u32 (length gw.local_names)
  debug_data ←
      compressed (encoders.compress (gw.strings.blob ++ encoders.delta_encode gw.local_names))
  function_size ← as_u32 (length function_data)
  debug_size ← as_u32 (length debug_data)
  num_symbols ← as_u32 (length gw.symbols.symbols)
  blob_length ← as_u32 (length gw.strings.blob)
  ok (record {
    header = header_bytes (record {
      magic_number = graph_magic_number;
      function_data_compressed_size = function_size;
      debug_data_compressed_size = debug_size;
      num_symbols = num_symbols;
      string_blob_length = blob_length;
      has_debug_locals = if gw.record_debug_data then 1 else 0;
      total_num_locals = num_locals;
      num_functions = gw.num_functions;
      function_array_length = array_length;
    });
    symbols = gw.symbols.symbols_in_order;
    function_data = function_data;
    debug_data = debug_data;
    section = graph_name is_apple;
    comdat = gw.output_comdat;
  })

-- Every field of a header is a 32-bit word.
pub record AreFields (h : GraphHeader) : Type 0 where
  pub magic : h.magic_number ≡ graph_magic_number
  pub function_size : h.function_data_compressed_size < 2 ^ 32
  pub debug_size : h.debug_data_compressed_size < 2 ^ 32
  pub symbols : h.num_symbols < 2 ^ 32
  pub blob : h.string_blob_length < 2 ^ 32
  pub has_locals : h.has_debug_locals < 2 ^ 32
  pub locals : h.total_num_locals < 2 ^ 32
  pub functions : h.num_functions < 2 ^ 32
  pub array : h.function_array_length < 2 ^ 32

word_eq :
    (w : ℕ)
    → w < 2 ^ 32
    → w % 2 ^ 8
        + 2 ^ 8 * (w / 2 ^ 8 % 2 ^ 8)
        + 2 ^ 16 * (w / 2 ^ 16 % 2 ^ 8)
        + 2 ^ 24 * (w / 2 ^ 24 % 2 ^ 8)
      ≡ w
word_eq w h = omega arith

-- A header of 32-bit fields and the magic number is read from the bytes that are written for it.
pub header_of_bytes-header_bytes :
    (h : GraphHeader) → AreFields h → header_of_bytes (header_bytes h) ≡ h
unfolding header_of_bytes header_bytes words_bytes word_bytes word_at
header_of_bytes-header_bytes h f =
    rw
      (
        word_eq _ f.function_size,
        word_eq _ f.debug_size,
        word_eq _ f.symbols,
        word_eq _ f.blob,
        word_eq _ f.has_locals,
        word_eq _ f.locals,
        word_eq _ f.functions,
        word_eq _ f.array,
      )
      (ap (λ m. record h { magic_number = m }) (sym f.magic))
