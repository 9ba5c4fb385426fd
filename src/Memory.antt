-- ===== src/Memory.antt =====
-- src/gc.h, src/gcinit.h and src/memalloc.h: the allocation functions, and the collector that keeps
-- track of what they allocate.
pub mod State
pub mod Tree
pub mod Alloc
pub mod Blocks
pub mod Registry
pub mod Tracking
pub mod Descriptors
pub mod Clean
pub mod FreeAll
pub mod Handlers
pub mod Fork
pub mod Program
pub mod Setup
pub mod Stale
mod Examples
