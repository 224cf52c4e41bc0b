-- ===== src/M61.antt =====
-- pset1/m61.cc and pset1/m61.hh: the debugging allocator.
pub mod State
pub mod Malloc
pub mod Free
pub mod Coalesce
pub mod Blocks
pub mod Invariant
pub mod Preserve
pub mod Allocation
pub mod Freeing
pub mod Resizing
pub mod Reports
pub mod Separation
pub mod Realloc
pub mod History
pub mod Whole
mod Examples
