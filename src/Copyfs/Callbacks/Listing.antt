-- ===== src/Copyfs/Callbacks/Listing.antt =====
-- `callback_getdir` of interface.c.
use reproduction.Base.{
  List, [], ◌∷◌, ◌++◌, Option, none, some, Bool, true, false, not, ◌||◌, if◌then◌else◌,
}
use reproduction.Base.Int.{ℤ, pos}
use reproduction.Base.Prog.{Prog, pure, ◌>>=◌}
use reproduction.Base.Text.{Bytes, codes, str_eq}
use reproduction.Libc.Os.Access.{opendir}
use reproduction.Libc.Text.{strip_prefix}
use reproduction.Copyfs.Create.{root}
use reproduction.Copyfs.Helper.Composite.{string, build_composite}
use reproduction.Copyfs.Parse.{Unset}
use reproduction.Copyfs.Translate.{translate_path, translate_to_metadata}
use reproduction.Copyfs.World.{World, load, deref, system}
use reproduction.Copyfs.Callbacks.Common.{failed_errno}

abbrev pub metadata_prefix : Bytes
metadata_prefix = codes "metadata."

-- The virtual path of an entry of a directory.
unfoldable pub entry_path : Bytes → Bytes → Prog World Bytes
entry_path path name = do
  (s, n) ← deref (
      if not (str_eq path (codes "/"))
      then build_composite (codes "SS") (codes "/") (string path ∷ string name ∷ [])
      else build_composite (codes "-S") (codes "/") (string name ∷ []))
  pure s

-- The metadata of an entry, if the file is known and not deleted.
unfoldable pub live_entry : Unset → Bytes → Bytes → Prog World Bool
unfolding entry_path
live_entry u path name = do
  file ← entry_path path name
  vroot ← root
  found ← translate_to_metadata u file vroot
  elim found [ none ↦ pure false | some p ↦ do md ← load p; pure (not md.md_deleted) ]

abbrev pub is_dot : Bytes → Bool
is_dot entry = str_eq entry (codes ".") || str_eq entry (codes "..")

-- The name that an entry is listed under: the dots, and the live files behind metadata files.
unfoldable pub offered : Unset → Bytes → Bytes → Prog World (Option Bytes)
unfolding live_entry strip_prefix
offered u path entry =
    if str_eq entry metadata_prefix
    then pure none
    else if is_dot entry
    then pure (some entry)
    else elim (strip_prefix metadata_prefix entry) [
      | none ↦ pure none
      | some name ↦ do live ← live_entry u path name; pure (if live then some name else none)
    ]

-- The loop over the entries that `readdir` gives. `fill` says whether the caller's buffer takes a
-- name behind those that it holds; a refusal ends the loop.
unfoldable pub list_entries :
    Unset → Bytes → (List Bytes → Bytes → Bool) → List Bytes → List Bytes → Prog World (List Bytes)
unfolding offered
list_entries u path fill [] listed = pure listed
list_entries u path fill (entry ∷ entries) listed = do
  name ← offered u path entry
  elim name [
    | none ↦ list_entries u path fill entries listed
    | some n ↦ elim (fill listed n) [
      | true ↦ list_entries u path fill entries (listed ++ n ∷ [])
      | false ↦ pure listed
    ]
  ]

unfoldable pub getdir :
    Unset → Bytes → (List Bytes → Bytes → Bool) → List Bytes → Prog World (ℤ × Option (List Bytes))
unfolding list_entries
getdir u path fill entries = do
  vroot ← root
  found ← translate_path u path vroot
  rpath ← deref found
  dir ← system (opendir rpath)
  if not dir
      then failed_errno
      else do listed ← list_entries u path fill entries []; pure (pos 0, some listed)
