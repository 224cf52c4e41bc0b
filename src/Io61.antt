-- ===== src/Io61.antt =====
-- The I/O library of pset4/io61.cc (pset6/io61.cc is the same file).
pub mod Locks
pub mod Cache
pub mod Reading
mod Examples
mod CacheExamples
mod ReadExamples
