-- ===== src/Copyfs/Callbacks/Pass.antt =====
-- `callback_utime` and `callback_statfs` of interface.c, which pass their call on.
use reproduction.Base.{Option, none, some, Bool, if◌then◌else◌}
use reproduction.Base.Int.{ℤ, pos}
use reproduction.Base.Prog.{Prog, pure, ◌>>=◌}
use reproduction.Base.Text.{Bytes}
use reproduction.Libc.Os.{Os, enoent}
use reproduction.Copyfs.CopyFile.{minus}
use reproduction.Copyfs.Create.{root, minus_errno}
use reproduction.Copyfs.Parse.{Unset}
use reproduction.Copyfs.Translate.{translate_path}
use reproduction.Copyfs.World.{World, system}
use reproduction.Copyfs.Callbacks.Common.{failed_errno}

-- `utime`, with its times, is given: `false` is -1.
unfoldable pub utime_file : Unset → (Bytes → Os → Bool × Os) → Bytes → Prog World ℤ
utime_file u utime path = do
  vroot ← root
  found ← translate_path u path vroot
  elim found [
    | none ↦ pure (minus enoent)
    | some rpath ↦ do done ← system (utime rpath); if done then pure (pos 0) else minus_errno
  ]

-- `statfs` is given, with what it reports. It takes the virtual path.
unfoldable pub statfs_path :
    {A : Type 0} → (Bytes → Os → Option A × Os) → Bytes → Prog World (ℤ × Option A)
statfs_path statfs path = do
  res ← system (statfs path)
  elim res [ none ↦ failed_errno | some st ↦ pure (pos 0, some st) ]
