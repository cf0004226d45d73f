-- ===== src/Lib.antt =====
-- Bracelet: the graph of data flow that a compiler pass writes into object files and a reader takes
-- out of them again, and the runtime that records the edges that a run takes.
--
-- The parts and how they interact.
--
-- src/Edges. A compiler pass makes a `GraphWriter` for a module and a `FunctionWriter` for each of
-- its functions. The writers number symbols and texts, and turn edges between nodes into 32-bit
-- words. `readEdges` takes these words from an object file, function by function, and calls back
-- with the edges of each.
--   Edges/Node       Edges.h, `Node`: a 64-bit word for a symbol or a local.
--   Edges/Kind       Edges.h: the kinds of edges, tuples by kind, `visitTuple`.
--   Edges/Encoding   Encoding.h: the zigzag code, `int32_t` as a 32-bit word in two's complement.
--   Edges/Bytes      `std::string` as a list of bytes, C strings.
--   Edges/Table      hash maps that number their keys in order, as association lists.
--   Edges/Symbols    Writer.cpp, `requiredComdat`, `assertComdat`, `GraphWriter::symbol`.
--   Edges/Strings    Writer.cpp, `GraphWriter::string`; Reader.cpp, `GraphDebugData` and the scan of
--                    `parse_debug_data` over the text blob.
--   Edges/Writer     Writer.h and Writer.cpp but for `writeTo`, which Edges/Image has.
--   Edges/Reader     Reader.h and Reader.cpp from `Frame` on.
--   Edges/Section    Reader.cpp, from the bytes of a section to frames; Encoding.h, `GraphHeader`.
--   Edges/RoundTrip  the reader on what the writer wrote.
--
-- src/Tracing/Runtime. The runtime keeps the edges of a thread in an `EdgeHashSet`; a malloc of its
-- own, vhmalloc, ties a tag to each allocation, from which the runtime learns what a pointer is.
--   Tracing/HashSet    edge_hash_set.h: the table as a list of slots, the state passed along; Insert
--                      adds below the threshold, Settled to Growth resize, Refines and
--                      Runs have additions and runs of them.
--   Tracing/Vhmalloc   vhmalloc.cpp: slabs and pools in a store, pointers as their numbers.
--   Tracing/Segments   elf_segments.cpp: the segments of the loaded objects; Segments/Race has the
--                      steps of threads in `rescan`.
--   Tracing/Runtime    trace_runtime.cpp and exports.cpp: traced values become edges.
--   Tracing/Simplify   src/RuntimeFormat/bracelet-trace-simplify.cpp: trace files to one set of edges.
--
-- src/ObjectParsing. What the reader and the commands ask of an object file: sections, data, pointers
-- and names.
--   ObjectParsing/Address  StaticObject.cpp, `ExplodedAddress` and `translateAddr`.
--   ObjectParsing/Static   StaticObject.cpp, `StaticObject`: data and relocations, read when asked for.
--   ObjectParsing/Dwarf    ObjectParsing.cpp: the call sites and inlined functions of a compile unit.
--   ObjectParsing/Coredump CoredumpObject.cpp: sections, names, data and lines of a core dump.
--
-- src/bracelet-edges. The command that writes the edges and nodes of each function as tables of facts.
--   BraceletEdges/Format     `format_hex`, `printNodePure` and number formats.
--   BraceletEdges/Locations  the source position in a local's name, in `emitAddresses`.
--   BraceletEdges/Visitor    `EdgeOutputVisitor`: printing of nodes, `emitNodeInfo`, edges.
--   BraceletEdges/Pages      `visit_edge`, with the pages of `dlsym`, and the functions.
--
-- src/BraceletReachability. The compiler pass that finds the edges of a module: a node for each value of
-- a function and each constant, and the edges of each instruction.
--   BraceletReachability/Values     what the pass reads of LLVM's constants, values and instructions.
--   BraceletReachability/Names      the names and prefixes, and AllocFunctions.h.
--   BraceletReachability/Constants  `freshLocalForValue`, `MultiConstantNodeBuilder`, `constantNode`.
--   BraceletReachability/Visitor    the state of `EdgeVisitor`, the node of a value, trace sites, edges.
--   BraceletReachability/Calls      `visitCallBase`.
--   BraceletReachability/Functions  the constructor, the other instructions, and a whole function.
--   BraceletReachability/Modules    `runBraceletReachability` up to `writeTo`.
--
-- src/PointsTo. The command that writes the edges as C code for SVF and checks the graph that comes
-- back against traces.
--   PointsTo/States  `NodeState`, `setNargs` and `initial_pass` of `EmitC`.
--   PointsTo/Text    the declarations and reports of `EmitC`, and the names that are printed.
--   PointsTo/Trace   the lines of `pts.csv`, and `checkPointsToAgainstTrace`.
--
-- How it is modelled. State is passed explicitly as records. `Result` is the program's result with one
-- error for each message; `assertion` is a failed `assert` or an `abort`, `no_more_probes` the failed
-- `assert` on the attempts left of a sequence of probes, and `undefined` what C++
-- leaves undefined, so a pointer that leads nowhere shows. Words wrap where the source's do.
-- Parameters stand for what is not the program's: the sort of Boost, which the theorems require to
-- return a permutation where the comparison is a strict weak ordering on the rows; its hash fnv1a; zstd and streamvbyte; the object file; the addresses that the
-- system heap returns; random numbers; Boost's interval set, `std::sort` and the hash of the segments;
-- what LLVM and LLDB answer of an object file and its debugging entries; what LLVM knows of a value's
-- type and text and of the target; the parsing of numbers and of lines; and the format of a trace
-- site.
--
-- Fuel. The scan of a section has the section's length and one as fuel, since each graph takes 40
-- bytes at least, and the scan of a blob the blob's, since each round moves on by a byte. The walks
-- along the lists of slabs have the number of slabs, as no list holds a slab twice. The rehash of a
-- slot of the edge table has the number of slots and one, as each call but the last moves an edge to
-- its place. The entries of a trace file have the file's length, and the words of a traced buffer the
-- buffer's. `emitNodeInfo` has depth 3, as the call for a symbol comes back at its own call. The loop
-- over the pages of `dlsym` has what its caller gives, since pages in a circle never end. The scan of a
-- section for trace sites has the section's size and one.
--
-- Not modelled: the C code of functions, which PointsTo has in templates, and the runs of make and
-- SVF on it; the file table and the runtime's bitcode that the pass reads, and its registration;
-- opening object files and core dumps; the command line and the tables by compile unit of bracelet-
-- edges; opening and writing files, temporary files and processes. On an error the model keeps no
-- state, as the program ends.
pub mod Prelude
pub mod Edges
pub mod Tracing
pub mod ObjectParsing
pub mod BraceletEdges
pub mod BraceletReachability
pub mod PointsTo
pub mod Tests
