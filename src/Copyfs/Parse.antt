-- ===== src/Copyfs/Parse.antt =====
-- parse.c: the metadata file read back into the chain of versions.
pub mod Disk
pub mod RoundTrip
pub mod Lines
pub mod Total
use reproduction.Base.{
  ℕ, zero, suc, ◌+◌, List, [], ◌∷◌, ◌++◌, Option, none, some, Bool, true, false, ◌==◌,
  if◌then◌else◌, length,
}
use reproduction.Base.Text.{Bytes}
use reproduction.Libc.Os.{Os, fopen_read, is_directory}
use reproduction.Libc.Scan.{scan_unsigned, scan_literal}
use reproduction.Libc.Stream.{Stream}
use reproduction.Copyfs.Helper.ReadLine.{read_line}
use reproduction.Copyfs.Structs.{Version, Metadata, latest}

infixl 5 ◌>>=◌
abbrev ◌>>=◌ {ℓ κ} : {A : Type ℓ} {B : Type κ} → Option A → (A → Option B) → Option B
none >>= f = none
some a >>= f = f a

-- What is not in the files: the bytes that fresh memory holds, and the string that stands at
-- `buffer + name_pos` where `sscanf` left `name_pos` unset.
pub record Unset : Type 0 where
  pub stale : ℕ → ℕ
  pub name : Bytes → Bytes

-- A number and the colon behind it.
unfoldable pub field : ℕ → Bytes → Option (ℕ × Bytes)
field base s = do (n, r) ← scan_unsigned base s; r' ← scan_literal b':' r; some (n, r')

-- The name behind the last colon. `sscanf` has all five numbers by then and returns 5 also if that
-- colon is missing, but then `name_pos` is not set.
abbrev pub name_at : Unset → Bytes → Bytes → Bytes
name_at u buffer s = elim (scan_literal b':' s) [ none ↦ u.name buffer | some name ↦ name ]

-- `sscanf(buffer, "%u:%u:%o:%u:%u:%n", …) != 5`, and the version that is built otherwise.
unfoldable pub scan_version : Unset → Bytes → Option Version
scan_version u buffer = do
  (vid, s₁) ← field 10 buffer
  (svid, s₂) ← field 10 s₁
  (mode, s₃) ← field 8 s₂
  (uid, s₄) ← field 10 s₃
  (gid, s₅) ← scan_unsigned 10 s₄
  some (record {
    v_vid = vid;
    v_svid = svid;
    v_mode = mode;
    v_uid = uid;
    v_gid = gid;
    v_rfile = name_at u buffer s₅;
  })

-- `parse_version_line`: `none` stands for NULL, at the end of the file and on a corrupt line.
unfoldable pub parse_version_line : Unset → Stream → Option Version × Stream
unfolding scan_version
parse_version_line u fh =
    let (line, fh') = read_line u.stale fh in
    (elim line [ none ↦ none | some buffer ↦ scan_version u buffer ], fh')

-- The body of the loop of `parse_metadata_file`: a zero version sets the flag, any other clears it
-- and goes to the front of the chain.
unfoldable pub take_version : Option Version → List Version × Bool → List Version × Bool
take_version none (versions, deleted) = (versions, deleted)
take_version (some v) (versions, deleted) =
    if v.v_vid == 0 then (versions, true) else (v ∷ versions, false)

-- `do … while (!feof(fh))`.
unfoldable pub parse_versions :
    Unset → ℕ → Stream → List Version × Bool → Option (List Version × Bool)
unfolding parse_version_line take_version
parse_versions u zero fh state = none
parse_versions u (suc fuel) fh state =
    let (v, fh') = parse_version_line u fh in
    let again = parse_versions u fuel fh' (take_version v state) in
    if fh'.at_eof then some (take_version v state) else again

-- The metadata as `parse_metadata_file` leaves it: the caller sets the virtual path.
abbrev pub parsed : List Version × Bool → Metadata
parsed (versions, deleted) = record {
  md_vfile = [];
  md_vpath = [];
  md_versions = versions;
  md_deleted = deleted;
  md_dfl_vid = latest;
  md_dfl_svid = latest;
  md_timestamp = 0;
  md_next = none;
  md_previous = none;
}

-- `parse_metadata_file`, with rounds for every byte of the file; `none` under the outer `some`
-- stands for NULL. A directory opens too, but each read of it fails with EISDIR, which never sets the
-- end of the stream: the code runs on for ever, as the outer `none` says. The reads of an open
-- file are taken not to fail.
unfoldable pub parse_metadata_file : Unset → Bytes → Os → Option (Option Metadata × Os)
unfolding parse_versions
parse_metadata_file u metafile os =
    let (fh, os') = fopen_read metafile os in
    elim fh [
      | none ↦ some (none, os')
      | some fh ↦ if is_directory (os'.disk metafile) then none else do
        state ← parse_versions u (length fh.unread + 2) fh ([], false)
        some (some (parsed state), os')
    ]
