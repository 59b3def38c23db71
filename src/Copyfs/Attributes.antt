-- ===== src/Copyfs/Attributes.antt =====
-- ea.c: the extended attributes through which versions are pinned, listed and purged.
pub mod Purge
pub mod Lock
pub mod Dump
pub mod Dispatch
