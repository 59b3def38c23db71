-- ===== src/Copyfs/Parse/Total.antt =====
-- The parser of metadata files on any file: it ends, and makes no version with the number 0.
use reproduction.Base.{◌≢◌, List, [], Option, none, some}
use reproduction.Base.Text.{Bytes}
use reproduction.Libc.Os.{Os, Node}
use reproduction.Libc.Stream.{Stream}
use reproduction.Copyfs.Structs.{Version, Metadata}

-- A version that is in use.
abbrev pub IsUsed : Version → Type 0
IsUsed v = v.v_vid ≢ 0

-- The chain of what the parser returns; NULL has none.
abbrev pub chain_of : Option Metadata → List Version
chain_of none = []
chain_of (some md) = md.md_versions

-- What a file holds; nothing, if there is none.
abbrev pub held : Option Node → Bytes
held none = []
held (some n) = n.contents
