-- ===== src/Copyfs/Callbacks/Change.antt =====
-- `callback_rename`, `callback_link`, `callback_chmod`, `callback_chown` and `callback_truncate` of
-- interface.c.
use reproduction.Base.{ℕ, none, some, false, not, if◌then◌else◌}
use reproduction.Base.Int.{ℤ, pos, eq_ℤ}
use reproduction.Base.Prog.{Prog, pure, ◌>>=◌, ◌>>◌}
use reproduction.Base.Text.{Bytes}
use reproduction.Libc.Os.{enoent}
use reproduction.Libc.Os.Access.{truncate}
use reproduction.Copyfs.Cache.{cache_get_metadata}
use reproduction.Copyfs.CopyFile.{minus}
use reproduction.Copyfs.Create.{root, time, minus_errno, create_new_version, create_new_subversion}
use reproduction.Copyfs.Parse.{Unset}
use reproduction.Copyfs.Structs.{Version}
use reproduction.Copyfs.Translate.{translate_path, translate_to_metadata, latest_version}
use reproduction.Copyfs.World.{World, load, modify, deref}
use reproduction.Copyfs.Write.{minus_one}
use reproduction.Copyfs.Callbacks.Common.{exdev, eperm, at_path}

unfoldable pub rename : Bytes → Bytes → Prog World ℤ
rename from to = pure (minus exdev)

unfoldable pub link : Bytes → Bytes → Prog World ℤ
link from to = pure (minus eperm)

-- `callback_chmod` and `callback_chown`: a new subversion with one attribute changed.
unfoldable pub change : Unset → Bytes → (Version → ℕ × ℕ × ℕ) → Prog World ℤ
change u path wanted = do
  vroot ← root
  found ← translate_to_metadata u path vroot
  elim found [
    | none ↦ pure (minus enoent)
    | some p ↦ do
      md ← load p
      visible ← latest_version md
      elim visible [
        | none ↦ pure (minus enoent)
        | some version ↦ do
          let (mode, uid, gid) = wanted version
          res ← create_new_subversion u path mode uid gid
          if not (eq_ℤ res (pos 0)) then minus_errno else pure (pos 0)
      ]
  ]

unfoldable pub chmod : Unset → Bytes → ℕ → Prog World ℤ
unfolding change
chmod u path mode = change u path (λ version. (mode, version.v_uid, version.v_gid))

unfoldable pub chown : Unset → Bytes → ℕ → ℕ → Prog World ℤ
unfolding change
chown u path uid gid = change u path (λ version. (version.v_mode, uid, gid))

unfoldable pub truncate_file : Unset → Bytes → ℕ → Prog World ℤ
truncate_file u path size = do
  res ← create_new_version u path
  if eq_ℤ res minus_one then minus_errno else do
    vroot ← root
    rpath? ← translate_path u path vroot
    cached ← cache_get_metadata path
    p ← deref cached
    now ← time
    modify p (λ md. record md { md_timestamp = now })
    done ← at_path rpath? false (λ rpath. truncate rpath size)
    if done then pure (pos 0) else minus_errno
