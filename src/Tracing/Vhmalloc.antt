-- ===== src/Tracing/Vhmalloc.antt =====
-- src/Tracing/Runtime/vhmalloc.cpp and vhmalloc.h: an allocator of 26 pools of slabs that keeps a tag
-- for each object. One thread's view: its pools, all slabs, and the map from pages to slabs. Locks,
-- the zeroing of objects and the aligned allocation of Heap-Layers are left out.
pub mod Heap
pub mod Slabs
pub mod Malloc
pub mod Index
pub mod Bins
pub mod Tags
