-- ===== src/Edges.antt =====
-- The graph of a program: its nodes and edges, their encoding, and the code that writes and reads it.
pub mod Node
pub mod Encoding
pub mod Bytes
pub mod Kind
pub mod Table
pub mod Symbols
pub mod Strings
pub mod Writer
pub mod Reader
pub mod Section
pub mod Image
pub mod RoundTrip
