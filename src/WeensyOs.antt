-- ===== src/WeensyOs.antt =====
-- pset3, the teaching operating system: its C library (pset3/lib.cc, pset3/lib.hh), and the page
-- allocator and the scheduler of its kernel (pset3/kernel.cc).
pub mod Memory
pub mod Strings
pub mod Numbers
pub mod Printing
pub mod Console
pub mod Kernel
mod Examples
