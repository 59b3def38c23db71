-- ===== src/Copyfs/Callbacks/Stat.antt =====
-- `callback_getattr` and `callback_readlink` of interface.c.
use Prim.Native.Nat.{bit_or}
use reproduction.Base.{ℕ, ◌+◌, ◌-◌, ◌*◌, ◌/◌, Option, none, some, length}
use reproduction.Base.Int.{ℤ, pos}
use reproduction.Base.Prog.{Prog, pure, ◌>>=◌}
use reproduction.Base.Text.{Bytes}
use reproduction.Libc.Os.{
  Node, Kind, regular, symbolic, directory, special, lstat, readlink, enoent,
}
use reproduction.Copyfs.Cache.{cache_get_metadata}
use reproduction.Copyfs.Create.{root}
use reproduction.Copyfs.Parse.{Unset}
use reproduction.Copyfs.Structs.{Version}
use reproduction.Copyfs.Translate.{translate_path, latest_version}
use reproduction.Copyfs.World.{World, load, deref, system}
use reproduction.Copyfs.Callbacks.Common.{failed, failed_errno}

-- What `getattr` reports, the fields that the daemon sets.
pub record Stat : Type 0 where
  pub st_mode : ℕ
  pub st_uid : ℕ
  pub st_gid : ℕ
  pub st_size : ℕ

-- The file type in `st_mode`.
abbrev pub type_bits : Kind → ℕ
type_bits regular = 0o100000
type_bits symbolic = 0o120000
type_bits directory = 0o040000
type_bits (special t) = t * 0o10000

-- "Mix our metadata to the stat results": `(st_mode & ~0777) | version->v_mode`.
abbrev pub mixed : Node → Version → Stat
mixed n version = record {
  st_mode = bit_or ((type_bits n.kind + n.perm) / 0o1000 * 0o1000) version.v_mode;
  st_uid = version.v_uid;
  st_gid = version.v_gid;
  st_size = length n.contents;
}

unfoldable pub getattr : Unset → Bytes → Prog World (ℤ × Option Stat)
getattr u path = do
  vroot ← root
  found ← translate_path u path vroot
  elim found [
    | none ↦ failed enoent
    | some rpath ↦ do
      cached ← cache_get_metadata path
      p ← deref cached
      md ← load p
      visible ← latest_version md
      stat ← system (lstat rpath)
      elim stat [
        | none ↦ failed_errno
        | some n ↦ do version ← deref visible; pure (pos 0, some (mixed n version))
      ]
  ]

-- `callback_readlink`: `size - 1` bytes at most, and a NUL behind them.
unfoldable pub read_link : Unset → Bytes → ℕ → Prog World (ℤ × Option Bytes)
read_link u path size = do
  vroot ← root
  found ← translate_path u path vroot
  elim found [
    | none ↦ failed enoent
    | some rpath ↦ do
      got ← system (readlink rpath (size - 1))
      elim got [ none ↦ failed_errno | some s ↦ pure (pos 0, some s) ]
  ]
