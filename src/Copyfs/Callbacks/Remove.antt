-- ===== src/Copyfs/Callbacks/Remove.antt =====
-- `callback_unlink` and `callback_rmdir` of interface.c.
pub mod Marked
use reproduction.Base.{ℕ, List, [], ◌∷◌, Option, none, some, Bool, true, false, not, if◌then◌else◌}
use reproduction.Base.Int.{ℤ, pos, eq_ℤ}
use reproduction.Base.Prog.{Prog, pure, ◌>>=◌, ◌>>◌}
use reproduction.Base.Text.{Bytes, codes, str_eq}
use reproduction.Libc.Os.{Node, Kind, directory, lstat, enoent, eisdir}
use reproduction.Libc.Os.Access.{opendir, enotdir}
use reproduction.Libc.Text.{strip_prefix}
use reproduction.Copyfs.CopyFile.{minus}
use reproduction.Copyfs.Create.{root, minus_errno, create_meta_name}
use reproduction.Copyfs.Parse.{Unset}
use reproduction.Copyfs.Translate.{translate_path, translate_to_metadata, latest_version}
use reproduction.Copyfs.World.{World, load, modify, deref, on_os, system}
use reproduction.Copyfs.Write.{write_metadata_file, minus_one}
use reproduction.Copyfs.Callbacks.Common.{enotempty, failed, failed_errno}
use reproduction.Copyfs.Callbacks.Listing.{metadata_prefix, live_entry, is_dot}

-- The end of `callback_unlink` and `callback_rmdir`: the mark, in memory and in the file.
unfoldable pub mark_deleted : Unset → ℕ → Prog World ℤ
mark_deleted u p = do
  modify p (λ md. record md { md_deleted = true })
  md ← load p
  metafile ← create_meta_name u md.md_vfile (codes "metadata")
  md' ← load p
  written ← on_os (write_metadata_file metafile md')
  if eq_ℤ written minus_one then minus_errno else pure (pos 0)

-- The metadata of a path that is known and not deleted, and the node of its visible version.
unfoldable pub live_node : Unset → Bytes → Prog World (ℤ × Option (ℕ × Node))
live_node u path = do
  vroot ← root
  found ← translate_to_metadata u path vroot
  elim found [
    | none ↦ failed enoent
    | some p ↦ do
      md ← load p
      if md.md_deleted then failed enoent else do
        visible ← latest_version md
        version ← deref visible
        stat ← system (lstat version.v_rfile)
        elim stat [ none ↦ failed_errno | some n ↦ pure (pos 0, some (p, n)) ]
  ]

abbrev pub is_dir : Kind → Bool
is_dir directory = true
is_dir _ = false

unfoldable pub unlink_file : Unset → Bytes → Prog World ℤ
unfolding live_node mark_deleted
unlink_file u path = do
  (res, found) ← live_node u path
  elim found [
    | none ↦ pure res
    | some (p, n) ↦ if is_dir n.kind then pure (minus eisdir) else mark_deleted u p
  ]

-- "Check if there is any file in the directory".
unfoldable pub has_live_entry : Unset → Bytes → List Bytes → Prog World Bool
unfolding live_entry strip_prefix
has_live_entry u path [] = pure false
has_live_entry u path (entry ∷ entries) =
    let next = has_live_entry u path entries in
    if str_eq entry metadata_prefix
    then next
    else if is_dot entry
    then next
    else elim (strip_prefix metadata_prefix entry) [
      | none ↦ next
      | some name ↦ do live ← live_entry u path name; elim live [ true ↦ pure true | false ↦ next ]
    ]

unfoldable pub rmdir : Unset → Bytes → List Bytes → Prog World ℤ
unfolding live_node has_live_entry mark_deleted
rmdir u path entries = do
  (res, found) ← live_node u path
  elim found [
    | none ↦ pure res
    | some (p, n) ↦ if not (is_dir n.kind) then pure (minus enotdir) else do
      vroot ← root
      rpath? ← translate_path u path vroot
      rpath ← deref rpath?
      dir ← system (opendir rpath)
      if not dir then minus_errno else do
        full ← has_live_entry u path entries
        if full then pure (minus enotempty) else mark_deleted u p
  ]
