-- ===== src/BraceletEdges.antt =====
-- src/bracelet-edges/bracelet-edges.cpp: the tables of facts of each function. Streams are kept as the
-- rows written to them and a row as its columns, which a tab separates; a failing disk and the
-- directories are left out. The object file and `absl::SimpleAtoi` are parameters.
pub mod Format
pub mod Locations
pub mod Visitor
pub mod Pages
