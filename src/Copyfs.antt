-- ===== src/Copyfs.antt =====
-- fs/copyfs/box/source: a copy-on-write file system that keeps every version of a file.
pub mod Structs
pub mod Lookup
pub mod Helper
pub mod Write
pub mod Parse
pub mod World
pub mod Cache
pub mod Default
pub mod Translate
pub mod CopyFile
pub mod Create
pub mod NewFile
pub mod Callbacks
pub mod Attributes
pub mod Main
pub mod Tests
