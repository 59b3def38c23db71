-- ===== src/Copyfs/Attributes/Dump/Files.antt =====
-- What `rcs.metadata_dump` says of the files on the disk.
use reproduction.Base.{List, Option, map}
use reproduction.Base.Text.{Bytes}
use reproduction.Libc.Os.{Os, Node}
use reproduction.Copyfs.Attributes.Dump.{Unfilled, dump_version}
use reproduction.Copyfs.Structs.{Version}
use reproduction.Copyfs.World.{World}

-- The lines of the versions.
abbrev lines_of : Unfilled → (Bytes → Option Node) → List Version → List Bytes
lines_of unfilled disk = map (λ v. dump_version unfilled v (disk v.v_rfile))
