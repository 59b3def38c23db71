-- ===== src/Copyfs/Attributes/Dispatch.antt =====
-- The callbacks of ea.c: the attributes of copyfs by their names, and all others passed on.
use reproduction.Base.{
  ℕ, [], ◌∷◌, ◌++◌, Option, none, some, Bool, ◌||◌, if◌then◌else◌, length, ltb, ◌==◌,
}
use reproduction.Base.Int.{ℤ, pos}
use reproduction.Base.Prog.{Prog, pure, ◌>>=◌}
use reproduction.Base.Text.{Bytes, codes, str_eq}
use reproduction.Libc.Os.{Os, enoent}
use reproduction.Copyfs.Attributes.Dump.{Unfilled, metadata_dump}
use reproduction.Copyfs.Attributes.Lock.{lock_version, locked_version, erange}
use reproduction.Copyfs.Attributes.Purge.{purge}
use reproduction.Copyfs.Callbacks.Common.{eperm, failed, failed_errno}
use reproduction.Copyfs.CopyFile.{minus}
use reproduction.Copyfs.Create.{root, minus_errno}
use reproduction.Copyfs.Parse.{Unset}
use reproduction.Copyfs.Translate.{translate_path, translate_to_metadata, latest_version}
use reproduction.Copyfs.World.{World, load, system}

-- The calls of the real file system: `false` and `none` are -1, and a path can be NULL. `llistxattr`
-- gives what a buffer of that many bytes holds behind the call.
pub record Xattr : Type 0 where
  pub lsetxattr : Bytes → Bytes → Bytes → ℕ → Os → Bool × Os
  pub lgetxattr : Bytes → Bytes → ℕ → Os → Option (ℕ × Bytes) × Os
  pub llistxattr_length : Bytes → Os → Option ℕ × Os
  pub llistxattr : Bytes → ℕ → Os → Option Bytes × Os
  pub lremovexattr : Option Bytes → Bytes → Os → Bool × Os

abbrev pub purge_name : Bytes
purge_name = codes "rcs.purge"

abbrev pub locked_version_name : Bytes
locked_version_name = codes "rcs.locked_version"

abbrev pub metadata_dump_name : Bytes
metadata_dump_name = codes "rcs.metadata_dump"

-- An attribute of the real file.
unfoldable pub set_through : Xattr → ℕ → Bytes → Bytes → ℕ → Prog World ℤ
set_through xattr p name value flags = do
  md ← load p
  found ← latest_version md
  elim found [
    | none ↦ pure (minus enoent)
    | some version ↦ do
      done ← system (xattr.lsetxattr version.v_rfile name value flags)
      if done then pure (pos 0) else minus_errno
  ]

-- `callback_setxattr`, called by the user `uid`.
unfoldable pub setxattr : Unset → Xattr → ℕ → Bytes → Bytes → Bytes → ℕ → Prog World ℤ
unfolding set_through
setxattr u xattr uid path name value flags = do
  vroot ← root
  metadata ← translate_to_metadata u path vroot
  elim metadata [
    | none ↦ pure (minus enoent)
    | some p ↦
        if str_eq name purge_name
        then purge u path p value
        else if str_eq name locked_version_name
        then lock_version u uid path p value
        else if str_eq name metadata_dump_name
        then pure (minus eperm)
        else set_through xattr p name value flags
  ]

unfoldable pub get_through : Xattr → ℕ → Bytes → ℕ → Prog World (ℤ × Option Bytes)
get_through xattr p name size = do
  md ← load p
  found ← latest_version md
  elim found [
    | none ↦ failed enoent
    | some version ↦ do
      got ← system (xattr.lgetxattr version.v_rfile name size)
      elim got [ none ↦ failed_errno | some (res, value) ↦ pure (pos res, some value) ]
  ]

-- `callback_getxattr`.
unfoldable pub getxattr :
    Unset → Xattr → Unfilled → Bytes → Bytes → ℕ → Prog World (ℤ × Option Bytes)
unfolding get_through
getxattr u xattr unfilled path name size = do
  vroot ← root
  metadata ← translate_to_metadata u path vroot
  elim metadata [
    | none ↦ failed enoent
    | some p ↦
        if str_eq name locked_version_name
        then locked_version p size
        else if str_eq name metadata_dump_name
        then metadata_dump unfilled p size
        else get_through xattr p name size
  ]

-- `ATTRIBUTE_STRING` with the NUL that `sizeof` counts.
abbrev pub attribute_string : Bytes
attribute_string = locked_version_name ++ 0 ∷ (metadata_dump_name ++ 0 ∷ [])

-- "Handle the EA protocol", for the list: `memcpy`, without a NUL of its own.
unfoldable pub list_reply : ℕ → Bytes → ℤ × Option Bytes
list_reply size buffer =
    if size == 0
    then (pos (length buffer), none)
    else if ltb size (length buffer)
    then (minus erange, none)
    else (pos (length buffer), some buffer)

-- `callback_listxattr`. The length is asked for under the virtual path, the list under the real one.
unfoldable pub listxattr : Unset → Xattr → Bytes → ℕ → Prog World (ℤ × Option Bytes)
unfolding list_reply
listxattr u xattr path size = do
  vroot ← root
  found ← translate_path u path vroot
  elim found [
    | none ↦ failed enoent
    | some rpath ↦ do
      res ← system (xattr.llistxattr_length path)
      elim res [
        | none ↦ pure (list_reply size attribute_string)
        | some length ↦ do
          list ← system (xattr.llistxattr rpath length)
          elim list [
            | none ↦ failed_errno
            | some buffer ↦ pure (list_reply size (buffer ++ attribute_string))
          ]
      ]
  ]

-- `callback_removexattr`, which passes NULL on where the path has no translation.
unfoldable pub removexattr : Unset → Xattr → Bytes → Bytes → Prog World ℤ
removexattr u xattr path name =
    if str_eq name locked_version_name || str_eq name metadata_dump_name
    then pure (minus eperm)
    else (do
      vroot ← root
      rpath ← translate_path u path vroot
      done ← system (xattr.lremovexattr rpath name)
      if done then pure (pos 0) else minus_errno)
