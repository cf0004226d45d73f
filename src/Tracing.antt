-- ===== src/Tracing.antt =====
-- The tracing runtime, src/Tracing/Runtime.
pub mod HashSet
pub mod Vhmalloc
pub mod Simplify
pub mod Segments
pub mod Runtime
