-- ===== src/Wayback/Tests.antt =====
-- Runs of the daemon of fs/waybackfs on small inputs.
mod History
mod Names
mod Catalog
mod Settings
use reproduction.Base.{ℕ, ◌∷◌, [], ◌++◌, Option, none, some, Bool, if◌then◌else◌}
use reproduction.Base.Text.{Bytes, codes, str_eq}
use reproduction.Libc.Os.{Os, Node, Kind}
use reproduction.Wayback.Globals.{Globals, Host, Stats, defaults, ilp32}

abbrev pub no_stats : Stats
no_stats = record { st_mode = 0; st_uid = 0; st_gid = 0; st_atime = 0; st_mtime = 0; st_ctime = 0 }

abbrev pub small_host : Host
small_host = record { sizes = ilp32; stat_of = λ path n. no_stats; unset = no_stats }

abbrev pub file_node : Node
file_node = record { kind = Kind.regular; perm = 0o644; contents = codes "hello" }

-- One node at `//f`.
abbrev pub disk_with : Node → Os
disk_with n = record {
  disk = λ q. if str_eq q (codes "//f") then some n else none;
  faults = [];
  errno = 0;
  now = 7;
}
