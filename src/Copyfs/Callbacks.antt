-- ===== src/Copyfs/Callbacks.antt =====
-- interface.c: the FUSE callbacks of the daemon. Each returns 0 or a count, or minus an error number.
pub mod Common
pub mod Stat
pub mod Pass
pub mod Listing
pub mod Make
pub mod Remove
pub mod Change
pub mod Contents
