-- ===== src/Copyfs/Create.antt =====
-- create.c: new versions and subversions of files, and new files, symbolic links and directories.
pub mod Numbering
pub mod Link
use reproduction.Base.{
  ℕ, zero, suc, ◌+◌, ◌*◌, ◌/◌, ◌%◌, ◌^◌, List, [], ◌∷◌, ◌++◌, Option, none, some, Bool, true, false,
  not, ltb, ◌==◌, ◌&&◌, if◌then◌else◌,
}
use reproduction.Base.Int.{ℤ, pos, negsuc, eq_ℤ}
use reproduction.Base.Prog.{Prog, pure, crash, ◌>>=◌, ◌>>◌}
use reproduction.Base.Text.{Bytes, codes}
use reproduction.Libc.Os.{Os, Node, Kind, make_node, eexist}
use reproduction.Libc.Print.{print_hex8}
use reproduction.Copyfs.Cache.{cache_add_metadata}
use reproduction.Copyfs.CopyFile.{create_copy_file, minus}
use reproduction.Copyfs.Default.{pair}
use reproduction.Copyfs.Helper.Names.{extract_filename, extract_dirname}
use reproduction.Copyfs.Helper.Split.{split_to_array}
use reproduction.Copyfs.Lookup.{head?}
use reproduction.Copyfs.Parse.{Unset}
use reproduction.Copyfs.Structs.{Version, Metadata, latest}
use reproduction.Copyfs.Translate.{translate_path, translate_to_metadata, latest_version}
use reproduction.Copyfs.World.{
  World, load, modify, malloc_metadata, deref, on_os, system, set_ignore_deleted,
}
use reproduction.Copyfs.Write.{write_metadata_file, write_default_file, minus_one}

-- `rcs_version_path`, `time(NULL)` and `errno`.
abbrev pub root : Prog World Bytes
root w = some (w.version_path, w)

abbrev pub time : Prog World ℕ
time w = some (w.os.now, w)

abbrev pub minus_errno : Prog World ℤ
minus_errno w = some (minus w.os.errno, w)

unfoldable pub create_version_name : Unset → Bytes → ℕ → Prog World Bytes
create_version_name u vpath serial = do
  vroot ← root
  found ← translate_path u (extract_dirname vpath) vroot
  translated ← deref found
  cfile ← pair (codes ".") (print_hex8 serial) (extract_filename vpath)
  pair (codes "/") translated cfile

-- `helper_build_composite` reads the translation, which is NULL for an unknown directory.
unfoldable pub create_meta_name : Unset → Bytes → Bytes → Prog World Bytes
create_meta_name u vpath prefix = do
  vroot ← root
  found ← translate_path u (extract_dirname vpath) vroot
  xlat ← deref found
  name ← pair (codes ".") prefix (extract_filename vpath)
  pair (codes "/") xlat name

-- "Link in memory", with the pin and the deletion mark removed.
abbrev pub linked : Version → Metadata → Metadata
linked version md = record md {
  md_versions = version ∷ md.md_versions;
  md_dfl_vid = latest;
  md_dfl_svid = latest;
  md_deleted = false;
}

-- "Something failed, remove the version from memory": the four fields as they were.
abbrev pub restored : Metadata → Metadata → Metadata
restored old md = record md {
  md_versions = old.md_versions;
  md_dfl_vid = old.md_dfl_vid;
  md_dfl_svid = old.md_dfl_svid;
  md_deleted = old.md_deleted;
}

-- `write_metadata_file(…) || write_default_file(…)`.
unfoldable pub commit : Bytes → Bytes → Metadata → Prog Os ℤ
commit metafile dflfile md = do
  written ← write_metadata_file metafile md
  if not (eq_ℤ written (pos 0))
      then pure written
      else write_default_file dflfile md.md_dfl_vid md.md_dfl_svid

unfoldable pub create_link_version : Unset → ℕ → Version → Prog World ℤ
unfolding commit
create_link_version u p version = do
  md₀ ← load p
  metafile ← create_meta_name u md₀.md_vfile (codes "metadata")
  dflfile ← create_meta_name u md₀.md_vfile (codes "dfl-meta")
  old ← load p
  modify p (linked version)
  md ← load p
  failed ← on_os (commit metafile dflfile md)
  if not (eq_ℤ failed (pos 0)) then (do modify p (restored old); pure minus_one) else pure (pos 0)

abbrev pub time_limit : ℕ
time_limit = 1

-- `& 07777`.
abbrev pub permissions : ℕ → ℕ
permissions mode = mode % 0o10000

abbrev pub next_vid : Version → ℕ
next_vid v = (v.v_vid + 1) % 2 ^ 32

-- What a caller of the generic function asks for.
pub record Request : Type 0 where
  pub subversion : Bool
  pub do_copy : Bool
  pub mode : ℕ
  pub uid : ℕ
  pub gid : ℕ

-- The new version in memory; `newest` is the head of the chain, `current` the visible version, and
-- `name` the file name for a new version.
unfoldable pub new_version : Request → Version → Version → Bytes → Version
new_version r newest current name =
    if r.subversion
    then record {
      v_vid = if not (current.v_vid == newest.v_vid) then next_vid newest else current.v_vid;
      v_svid = if not (current.v_vid == newest.v_vid) then 0 else (current.v_svid + 1) % 2 ^ 32;
      v_mode = permissions r.mode;
      v_uid = r.uid;
      v_gid = r.gid;
      v_rfile = current.v_rfile;
    }
    else record {
      v_vid = next_vid newest;
      v_svid = 0;
      v_mode = permissions current.v_mode;
      v_uid = if r.do_copy then current.v_uid else r.uid;
      v_gid = if r.do_copy then current.v_gid else r.gid;
      v_rfile = name;
    }

-- From "Create a new version in memory" to the end.
unfoldable pub make_version : Unset → Bytes → Request → ℕ → Version → Prog World ℤ
unfolding new_version create_link_version
make_version u vpath r p current = do
  md ← load p
  newest ← deref (head? md.md_versions)
  name ← (if r.subversion then pure [] else create_version_name u vpath (next_vid newest))
  let version = new_version r newest current name
  copied ←
      (if not r.subversion && r.do_copy
        then on_os (create_copy_file current.v_rfile version.v_rfile)
        else pure (pos 0))
  if eq_ℤ copied (pos 0) then create_link_version u p version else pure copied

unfoldable pub create_new_version_generic : Unset → Bytes → Request → Prog World ℤ
unfolding make_version
create_new_version_generic u vpath r = do
  set_ignore_deleted true
  vroot ← root
  found ← translate_to_metadata u vpath vroot
  p ← deref found
  md ← load p
  visible ← latest_version md
  current ← deref visible
  set_ignore_deleted false
  now ← time
  if ltb now (md.md_timestamp + time_limit)
      then pure (pos 0)
      else if r.subversion && md.md_deleted
      then pure minus_one
      else make_version u vpath r p current

unfoldable pub create_new_version : Unset → Bytes → Prog World ℤ
create_new_version u vpath =
    create_new_version_generic u vpath
      (record { subversion = false; do_copy = true; mode = 0; uid = 0; gid = 0 })

unfoldable pub create_new_subversion : Unset → Bytes → ℕ → ℕ → ℕ → Prog World ℤ
create_new_subversion u vpath mode uid gid =
    create_new_version_generic u vpath
      (record { subversion = true; do_copy = false; mode = mode; uid = uid; gid = gid })
