-- ===== src/Edges/RoundTrip.antt =====
-- What the reader makes of the words that the writer makes.
pub mod Rows
pub mod Nodes
pub mod Words
pub mod Function
