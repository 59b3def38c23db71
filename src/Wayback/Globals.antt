-- ===== src/Wayback/Globals.antt =====
-- The global strings of wayback.c, and the widths of the types that the logs are made of.
use reproduction.Base.{ℕ}
use reproduction.Libc.Os.{Node}
use reproduction.Base.Text.{Bytes, codes}

pub record Globals : Type 0 where
  pub redirectpath : Bytes
  pub deletedmodifier : Bytes
  pub versionmodifier : Bytes

-- `char* redirectpath = "/"` and so on.
abbrev pub defaults : Globals
defaults = record {
  redirectpath = codes "/";
  deletedmodifier = codes ".  versionfs! deleted";
  versionmodifier = codes ".   versionfs! version";
}

-- `sizeof` of the types, on the machine that the daemon is built for.
pub record Sizes : Type 0 where
  pub time_t : ℕ
  pub off_t : ℕ
  pub size_t : ℕ
  pub int : ℕ
  pub mode_t : ℕ
  pub uid_t : ℕ
  pub gid_t : ℕ

-- 32 bits with `-D_FILE_OFFSET_BITS=64`, as the tools expect the logs; and 64 bits.
abbrev pub ilp32 : Sizes
ilp32 = record { time_t = 4; off_t = 8; size_t = 4; int = 4; mode_t = 4; uid_t = 4; gid_t = 4 }

abbrev pub lp64 : Sizes
lp64 = record { time_t = 8; off_t = 8; size_t = 8; int = 4; mode_t = 4; uid_t = 4; gid_t = 4 }

-- What `lstat` reports.
pub record Stats : Type 0 where
  pub st_mode : ℕ
  pub st_uid : ℕ
  pub st_gid : ℕ
  pub st_atime : ℕ
  pub st_mtime : ℕ
  pub st_ctime : ℕ

-- The machine: its types, what it says of a node at a path, and what a `struct stat` holds that was
-- never filled.
pub record Host : Type 0 where
  pub sizes : Sizes
  pub stat_of : Bytes → Node → Stats
  pub unset : Stats
