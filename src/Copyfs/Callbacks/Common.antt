-- ===== src/Copyfs/Callbacks/Common.antt =====
-- Error numbers and failures that the callbacks share.
use reproduction.Base.{ℕ, Option, none, some}
use reproduction.Base.Int.{ℤ}
use reproduction.Base.Prog.{Prog, pure}
use reproduction.Base.Text.{Bytes}
use reproduction.Libc.Os.{Os}
use reproduction.Copyfs.CopyFile.{minus}
use reproduction.Copyfs.World.{World, system}

abbrev pub enotempty : ℕ
enotempty = 39

abbrev pub exdev : ℕ
exdev = 18

abbrev pub eperm : ℕ
eperm = 1

abbrev pub failed : {A : Type 0} → ℕ → Prog World (ℤ × Option A)
failed e = pure (minus e, none)

abbrev pub failed_errno : {A : Type 0} → Prog World (ℤ × Option A)
failed_errno w = some ((minus w.os.errno, none), w)

-- A system call on a path name that may be NULL, which the kernel refuses.
abbrev pub at_path : {A : Type 0} → Option Bytes → A → (Bytes → Os → A × Os) → Prog World A
at_path none a f w = some (a, record w { os = record (w.os) { errno = 14 } })
at_path (some path) a f w = system (f path) w
