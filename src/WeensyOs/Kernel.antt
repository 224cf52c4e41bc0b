-- ===== src/WeensyOs/Kernel.antt =====
-- The kernel of pset3: its physical pages (pset3/kernel.cc, pset3/k-hardware.cc) and its scheduler.
pub mod Pages
pub mod Scheduling
