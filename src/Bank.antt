-- ===== src/Bank.antt =====
-- pset6, the bank transfers of several threads (pset6/ftxxfer.cc, pset6/ftxdb.hh,
-- pset6/ftxhelpers.cc).
pub mod Transfers
pub mod Records
mod Examples
