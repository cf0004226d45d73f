-- ===== src/Tests.antt =====
-- Concrete inputs at which the theorems apply, and runs of the definitions.
pub mod Edges
pub mod RoundTrip
pub mod Tracing
pub mod HashSet
pub mod Segments
pub mod Runtime
pub mod ObjectParsing
pub mod Static
pub mod Dwarf
pub mod BraceletEdges
pub mod BraceletReachability
pub mod PointsTo
pub mod Coredump
