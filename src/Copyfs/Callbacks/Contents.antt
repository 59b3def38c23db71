-- ===== src/Copyfs/Callbacks/Contents.antt =====
-- `callback_open`, `callback_read`, `callback_write`, `callback_release` and `callback_fsync` of
-- interface.c.
use reproduction.Base.{
  ℕ, ◌/◌, ◌%◌, Option, none, some, Bool, false, ◌||◌, ◌==◌, if◌then◌else◌, length,
}
use reproduction.Base.Int.{ℤ, pos, eq_ℤ}
use reproduction.Base.Prog.{Prog, pure, ◌>>=◌}
use reproduction.Base.Text.{Bytes}
use reproduction.Libc.Os.{open_existing}
use reproduction.Libc.Os.Access.{pread, pwrite}
use reproduction.Copyfs.Create.{root, minus_errno, create_new_version}
use reproduction.Copyfs.Parse.{Unset}
use reproduction.Copyfs.Translate.{translate_path}
use reproduction.Copyfs.World.{World}
use reproduction.Copyfs.Write.{minus_one}
use reproduction.Copyfs.Callbacks.Common.{failed_errno, at_path}

-- `(flags & O_WRONLY) || (flags & O_RDWR)`.
abbrev pub writes : ℕ → Bool
writes flags = flags % 2 == 1 || flags / 2 % 2 == 1

-- `callback_open`. FUSE passes the access mode on, without `O_CREAT` and `O_TRUNC`, so the real
-- `open` only tests that the file can be opened.
unfoldable pub open_file : Unset → Bytes → ℕ → Prog World ℤ
open_file u path flags = do
  res ← (if writes flags then create_new_version u path else pure (pos 0))
  if eq_ℤ res minus_one then minus_errno else do
    vroot ← root
    rpath? ← translate_path u path vroot
    opened ← at_path rpath? false (open_existing flags)
    if opened then pure (pos 0) else minus_errno

unfoldable pub read_file : Unset → Bytes → ℕ → ℕ → Prog World (ℤ × Option Bytes)
read_file u path size off = do
  vroot ← root
  rpath? ← translate_path u path vroot
  got ← at_path rpath? none (λ rpath. pread rpath size off)
  elim got [ none ↦ failed_errno | some s ↦ pure (pos (length s), some s) ]

unfoldable pub write_file : Unset → Bytes → Bytes → ℕ → Prog World ℤ
write_file u path buf off = do
  vroot ← root
  rpath? ← translate_path u path vroot
  put_out ← at_path rpath? none (λ rpath. pwrite rpath buf off)
  elim put_out [ none ↦ minus_errno | some n ↦ pure (pos n) ]

-- `callback_release` and `callback_fsync`: "No special treatment".
unfoldable pub release : Bytes → ℕ → Prog World ℤ
release path flags = pure (pos 0)

unfoldable pub fsync : Bytes → ℕ → Prog World ℤ
fsync path isdatasync = pure (pos 0)
