-- ===== src/Copyfs/Parse/Disk.antt =====
-- `write_metadata_file` and then `parse_metadata_file`, on the disk.
use reproduction.Base.{
  ◌≡◌, refl, List, [], ◌∷◌, ◌++◌, Option, none, some, Bool, true, false, arith, All, map,
}
use reproduction.Base.Int.{pos}
use reproduction.Base.Text.{Bytes, str_eq_refl}
use reproduction.Libc.Os.{
  Os, Node, put, fopen_read, fopen_write, fprintf, append, is_directory, truncated, extended,
}
use reproduction.Libc.Os.Appended.{append-append, append-nil_lem}
use reproduction.Copyfs.Structs.{Version, Metadata}
use reproduction.Copyfs.Write.{
  write_metadata_file_worker, write_killer, write_metadata_file, version_line,
}
use reproduction.Copyfs.Parse.{Unset, parse_metadata_file, parsed}
use reproduction.Copyfs.Parse.Lines.{stored}
use reproduction.Copyfs.Parse.RoundTrip.{chain_text, ending, IsLive, parse_versions-text}

-- The worker appends the whole chain, oldest version first.
worker-append :
    (fh : Bytes) (v : Version) (vs : List Version) (os : Os)
    → os.faults ≡ []
    → write_metadata_file_worker fh (v ∷ vs) os ≡ some (pos 0, append fh (chain_text (v ∷ vs)) os)
unfolding write_metadata_file_worker chain_text fprintf
worker-append fh v [] os h = ground (arith, h)
worker-append fh v (w ∷ vs) os h =
    rw (worker-append fh w vs os h, write_metadata_file_worker)
      (ground (arith, h, append-append fh (chain_text (w ∷ vs)) (version_line v) os))

-- The state behind `fopen(path, "w")`.
abbrev emptied : Bytes → Os → Os
emptied path os = record os { disk = put os.disk path (some (truncated (os.disk path))) }

abbrev pub file_text : Metadata → Bytes
file_text md = chain_text md.md_versions ++ ending md.md_deleted

contents_lem :
    (s : Bytes) (n : Option Node)
    → extended s (some (truncated n)) ≡ some (record (truncated n) { contents = s })
contents_lem s none = refl
contents_lem s (some n) = refl

killer-append :
    (path : Bytes) (deleted : Bool) (os : Os)
    → os.faults ≡ []
    → write_killer path deleted os ≡ some (pos 0, append path (ending deleted) os)
unfolding write_killer ending fprintf
killer-append path true os h = ground (arith, h)
killer-append path false os h = ground (arith, append-nil_lem path os)

-- The state behind a write of the whole file.
abbrev pub rewritten : Bytes → Metadata → Os → Os
rewritten path md os = append path (file_text md) (emptied path os)

-- If no call fails and the path is no directory, `write_metadata_file` returns 0, and what it
-- leaves is the old disk with the file's contents replaced by the lines of the chain, oldest
-- first, and by the killer line if the file is marked deleted.
pub write_metadata_file_lem :
    (path : Bytes) (md : Metadata) (v : Version) (vs : List Version) (os : Os)
    → os.faults ≡ []
    → is_directory (os.disk path) ≡ false
    → md.md_versions ≡ v ∷ vs
    → write_metadata_file path md os ≡ some (pos 0, rewritten path md os)
unfolding write_metadata_file fopen_write
write_metadata_file_lem path md v vs os h d e =
    let os₁ = emptied path os in
    let chain = chain_text (v ∷ vs) in
    ground (
      arith,
      h,
      d,
      e,
      worker-append path v vs os₁ h,
      killer-append path md.md_deleted (append path chain os₁) h,
      append-append path chain (ending md.md_deleted) os₁,
    )

-- What is read back of a metadata structure: every version, in order, with its real file's name
-- stripped of the directory, and the deletion mark; the pin is not in this file.
abbrev pub read_back : Metadata → Metadata
read_back md = parsed (map stored md.md_versions, md.md_deleted)

-- The rewritten file is no directory either.
rewritten-file :
    (s : Bytes) (n : Option Node)
    → is_directory n ≡ false
    → is_directory (some (record (truncated n) { contents = s })) ≡ false
rewritten-file s none h = refl
rewritten-file s (some n) h = h

-- A metadata file that was written without a failure is read back as it was meant: `parse_metadata_file`
-- returns (it neither runs on nor dies) the same chain in the same order and the same deletion
-- mark, whatever fresh memory holds, if the numbers are 32-bit, no version has the number 0, and no
-- real file's name holds a newline.
pub parse-write_metadata_file :
    (u : Unset) (path : Bytes) (md : Metadata) (v : Version) (vs : List Version) (os : Os)
    → os.faults ≡ []
    → is_directory (os.disk path) ≡ false
    → md.md_versions ≡ v ∷ vs
    → All IsLive md.md_versions
    → (write_metadata_file path md os ≡ some (pos 0, rewritten path md os))
      × (parse_metadata_file u path (rewritten path md os)
          ≡ some (some (read_back md), rewritten path md os))
unfolding parse_metadata_file fopen_read
parse-write_metadata_file u path md v vs os h d e live = (
  write_metadata_file_lem path md v vs os h d e,
  ground (
    arith,
    h,
    str_eq_refl path,
    contents_lem (file_text md) (os.disk path),
    rewritten-file (file_text md) (os.disk path) d,
    parse_versions-text u md.md_versions md.md_deleted live,
  ),
)
