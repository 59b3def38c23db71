-- ===== src/Wayback/Callbacks/Unlogged.antt =====
-- A write whose log cannot be opened.
use reproduction.Base.{ℕ, ◌≡◌, [], ◌∷◌, ◌++◌, some, length, arith}
use reproduction.Base.Int.{pos}
use reproduction.Base.Text.{Bytes}
use reproduction.Libc.Os.{Os, Node, pass, fail, put, open_read, fopen_write}
use reproduction.Libc.Os.Access.{overwritten, pwrite}
use reproduction.Libc.Os.Stdio.{fopen_append}
use reproduction.Wayback.Globals.{Globals, Host}
use reproduction.Wayback.Log.{updateversion, open_log}
use reproduction.Wayback.Callbacks.{ver_write}

-- If the version file can be opened neither for appending nor anew, `ver_write` writes all the same
-- and reports its success; nothing is logged, and no path but the file's changes.
pub ver_write_unlogged :
    (host : Host) (globals : Globals) (path : Bytes) (buf : Bytes) (offset : ℕ) (n : Node)
    (e₁ k₁ e₂ k₂ : ℕ) (os : Os)
    → os.faults ≡ pass ∷ fail e₁ k₁ ∷ fail e₂ k₂ ∷ []
    → os.disk (globals.redirectpath ++ path) ≡ some n
    → ver_write host globals path buf offset os
      ≡ some (
        pos (length buf),
        record os {
          disk =
              put os.disk
                (globals.redirectpath ++ path)
                (some (record n { contents = overwritten offset buf n.contents }));
          faults = [];
          errno = e₂;
        },
      )
unfolding ver_write updateversion open_log open_read fopen_append fopen_write pwrite
ver_write_unlogged host globals path buf offset n e₁ k₁ e₂ k₂ os h at = ground (arith, h, at)
