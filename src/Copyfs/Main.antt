-- ===== src/Copyfs/Main.antt =====
-- `main` of main.c.
use reproduction.Base.{ℕ, Option, none, some}
use reproduction.Base.Prog.{Prog, pure, ◌>>◌}
use reproduction.Base.Text.{Bytes, codes}
use reproduction.Copyfs.Cache.{cache_initialize, cache_finalize}
use reproduction.Copyfs.World.{World}

-- The assignment of the environment variable.
abbrev set_version_path : Bytes → Prog World (Unit {0})
set_version_path path w = some (tt, record w { version_path = path })

-- The code with which the process ends; what FUSE does with the callbacks is given.
unfoldable pub main : (Bytes → Option Bytes) → Prog World (Unit {0}) → Prog World ℕ
main getenv fuse_main = elim (getenv (codes "RCS_VERSION_PATH")) [
  | none ↦ pure 1
  | some path ↦ do set_version_path path; cache_initialize; fuse_main; cache_finalize; pure 0
]
