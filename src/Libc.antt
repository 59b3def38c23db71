-- ===== src/Libc.antt =====
-- The functions of the C library that the programs call: printing and reading numbers, streams,
-- string searches, and the calls on the real file system below the daemons.
pub mod Text
pub mod Print
pub mod Scan
pub mod Numbers
pub mod Integer
pub mod Stream
pub mod Os
