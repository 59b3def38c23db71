-- ===== src/Copyfs/NewFile.antt =====
-- create.c: the first version of a new file, symbolic link or directory, or the next version of one
-- that was deleted.
use reproduction.Base.{
  ℕ, ◌+◌, ◌*◌, ◌/◌, ◌%◌, [], ◌∷◌, Option, none, some, Bool, true, false, not, ◌==◌, if◌then◌else◌,
}
use reproduction.Base.Int.{ℤ}
use reproduction.Base.Prog.{Prog, pure, ◌>>=◌, ◌>>◌}
use reproduction.Base.Text.{Bytes, codes}
use reproduction.Libc.Os.{Node, Kind, make_node, eexist}
use reproduction.Copyfs.Cache.{cache_add_metadata}
use reproduction.Copyfs.CopyFile.{minus}
use reproduction.Copyfs.Create.{
  root, time, minus_errno, create_version_name, create_meta_name, create_new_version_generic,
  next_vid, permissions,
}
use reproduction.Copyfs.Helper.Split.{split_to_array}
use reproduction.Copyfs.Lookup.{head?}
use reproduction.Copyfs.Parse.{Unset}
use reproduction.Copyfs.Structs.{Metadata, latest}
use reproduction.Copyfs.Translate.{translate_to_metadata}
use reproduction.Copyfs.World.{
  World, load, modify, malloc_metadata, deref, on_os, system, set_ignore_deleted,
}
use reproduction.Copyfs.Write.{write_metadata_file}

abbrev eperm : ℕ
eperm = 1

-- The structure of a file with version 1 alone.
abbrev pub first_metadata : Bytes → Bytes → ℕ → ℕ → ℕ → ℕ → Metadata
first_metadata vpath rpath mode uid gid now = record {
  md_vfile = vpath;
  md_vpath = split_to_array vpath b'/';
  md_versions =
      record { v_vid = 1; v_svid = 0; v_mode = mode; v_uid = uid; v_gid = gid; v_rfile = rpath }
      ∷ [];
  md_deleted = false;
  md_dfl_vid = latest;
  md_dfl_svid = latest;
  md_timestamp = now;
  md_next = none;
  md_previous = none;
}

unfoldable pub create_new_metadata : Unset → Bytes → Bytes → ℕ → ℕ → ℕ → Prog World ℤ
create_new_metadata u vpath rpath mode uid gid = do
  now ← time
  p ← malloc_metadata (first_metadata vpath rpath mode uid gid now)
  cache_add_metadata p
  metafile ← create_meta_name u vpath (codes "metadata")
  md ← load p
  on_os (write_metadata_file metafile md)

-- What is known of the path, deleted files included.
unfoldable pub known : Unset → Bytes → Prog World (Option (ℕ × Metadata))
known u vpath = do
  set_ignore_deleted true
  vroot ← root
  found ← translate_to_metadata u vpath vroot
  set_ignore_deleted false
  elim found [ none ↦ pure none | some p ↦ do md ← load p; pure (some (p, md)) ]

-- The serial of the real file: 1, or behind the newest version.
abbrev serial_of : Option (ℕ × Metadata) → Prog World ℕ
serial_of none = pure 1
serial_of (some (p, md)) = do newest ← deref (head? md.md_versions); pure (next_vid newest)

-- `metadata && !metadata->md_deleted`.
abbrev pub is_there : Option (ℕ × Metadata) → Bool
is_there none = false
is_there (some (p, md)) = not md.md_deleted

-- The part that the three functions share: the node on disk (refused with `-errno`), and then the
-- metadata of a new file, with `mode`, or a new version of a deleted one, with `later_mode`. What
-- is done `after` that does not change the result.
unfoldable pub create_node :
    Unset → Bytes → Node → ℕ → ℕ → ℕ → ℕ → Prog World (Unit {0}) → Prog World ℤ
unfolding known create_new_metadata
create_node u vpath node mode later_mode uid gid after = do
  seen ← known u vpath
  if is_there seen then pure (minus eexist) else do
    serial ← serial_of seen
    path ← create_version_name u vpath serial
    made ← system (make_node path node)
    if not made then minus_errno else do
      res ← (elim seen [
        | none ↦ create_new_metadata u vpath path mode uid gid
        | some _ ↦ create_new_version_generic u vpath (record {
          subversion = false;
          do_copy = false;
          mode = later_mode;
          uid = uid;
          gid = gid;
        })
      ])
      after
      pure res

-- The file type of `mode`, with `S_IRWXU`: the real file is its owner's alone.
abbrev pub create_mode : ℕ → ℕ
create_mode mode = mode / 0o10000 * 0o10000 + 0o700

-- `mknod` makes a regular file if the type is 0 or `S_IFREG`.
abbrev pub node_kind : ℕ → Kind
node_kind mode =
    let type = mode / 0o10000 in
    if type == 0 then Kind.regular else if type == 8 then Kind.regular else Kind.special type

-- "Update timestamp".
unfoldable pub stamp : Unset → Bytes → Prog World (Unit {0})
stamp u vpath = do
  vroot ← root
  found ← translate_to_metadata u vpath vroot
  now ← time
  elim found [ none ↦ pure tt | some p ↦ modify p (λ md. record md { md_timestamp = now }) ]

-- `create_new_file`. Its first test is `mode && (S_IFREG | …)`, so it refuses the mode 0 alone. The
-- refusals in front of the new metadata return at once, without the time stamp.
unfoldable pub create_new_file : Unset → Bytes → ℕ → ℕ → ℕ → Prog World ℤ
unfolding create_node stamp
create_new_file u vpath mode uid gid =
    if mode == 0
    then pure (minus eperm)
    else create_node u vpath
        (record { kind = node_kind mode; perm = create_mode mode % 0o10000; contents = [] })
        (permissions mode) mode uid gid (stamp u vpath)

-- `S_IRWXU | S_IRWXG | S_IRWXO`.
abbrev pub all_access : ℕ
all_access = 0o777

unfoldable pub create_new_symlink : Unset → Bytes → Bytes → ℕ → ℕ → Prog World ℤ
unfolding create_node
create_new_symlink u dest vpath uid gid =
    create_node u vpath (record { kind = Kind.symbolic; perm = all_access; contents = dest })
      all_access all_access uid gid (pure tt)

unfoldable pub create_new_directory : Unset → Bytes → ℕ → ℕ → ℕ → Prog World ℤ
unfolding create_node
create_new_directory u vpath mode uid gid =
    create_node u vpath (record { kind = Kind.directory; perm = 0o700; contents = [] }) mode mode
      uid gid (pure tt)
