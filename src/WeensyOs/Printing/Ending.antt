-- ===== src/WeensyOs/Printing/Ending.antt =====
-- The loop of `vprintf` ends.
