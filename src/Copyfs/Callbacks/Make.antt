-- ===== src/Copyfs/Callbacks/Make.antt =====
-- `callback_mknod`, `callback_mkdir` and `callback_symlink` of interface.c.
use reproduction.Base.{ℕ}
use reproduction.Base.Int.{ℤ}
use reproduction.Base.Prog.{Prog}
use reproduction.Base.Text.{Bytes}
use reproduction.Copyfs.NewFile.{create_new_file, create_new_directory, create_new_symlink}
use reproduction.Copyfs.Parse.{Unset}
use reproduction.Copyfs.World.{World}

-- The caller of a callback: `fuse_get_context()`.
pub record Context : Type 0 where
  pub uid : ℕ
  pub gid : ℕ

unfoldable pub mknod : Unset → Context → Bytes → ℕ → Prog World ℤ
mknod u context path mode = create_new_file u path mode context.uid context.gid

unfoldable pub mkdir : Unset → Context → Bytes → ℕ → Prog World ℤ
mkdir u context path mode = create_new_directory u path mode context.uid context.gid

unfoldable pub symlink : Unset → Context → Bytes → Bytes → Prog World ℤ
symlink u context from to = create_new_symlink u from to context.uid context.gid
