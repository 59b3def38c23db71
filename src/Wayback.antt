-- ===== src/Wayback.antt =====
-- fs/waybackfs/box/source/src: a file system that logs beside each file how to undo its changes.
pub mod Globals
pub mod Words
pub mod Log
pub mod Names
pub mod Catalog
pub mod Callbacks
pub mod Settings
pub mod Tools
pub mod History
mod Tests
