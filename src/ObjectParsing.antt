-- ===== src/ObjectParsing.antt =====
-- src/ObjectParsing: reading the sections, pointers and names of object files.
pub mod Address
pub mod Static
pub mod Dwarf
pub mod Coredump
