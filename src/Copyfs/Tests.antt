-- ===== src/Copyfs/Tests.antt =====
-- The theorems about fs/copyfs at concrete inputs, and runs of the code.
mod Lookup
mod Helper
mod Files
mod Create
mod Copying
mod Attributes
mod Caching
mod Deletion
