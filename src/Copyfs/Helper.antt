-- ===== src/Copyfs/Helper.antt =====
-- helper.c: strings, string arrays, path names and lines. Allocation does not fail here: on
-- failure `helper_malloc` and its like abort the daemon.
pub mod Names
pub mod ReadLine
pub mod Split
pub mod Composite
