-- ===== src/Copyfs/Tests/Files.antt =====
-- Metadata files on a small disk.
use reproduction.Base.{◌≡◌, refl, [], ◌∷◌, some, none, true, arith}
use reproduction.Base.Int.{pos}
use reproduction.Base.Text.{codes}
use reproduction.Libc.Os.{Os, Kind}
use reproduction.Libc.Text.{rindex}
use reproduction.Copyfs.Structs.{Version, Metadata, latest}
use reproduction.Copyfs.Write.{strip_path, write_metadata_file}
use reproduction.Copyfs.Parse.{Unset, parse_metadata_file}
use reproduction.Copyfs.Parse.Lines.{IsStorable}
use reproduction.Copyfs.Parse.Disk.{parse-write_metadata_file, rewritten, read_back}

abbrev empty_disk : Os
empty_disk = record { disk = λ _. none; faults = []; errno = 0; now = 0 }

abbrev zeros : Unset
zeros = record { stale = λ _. 0; name = λ _. [] }

-- A version whose owner does not fit a signed int.
abbrev version : Version
version = record {
  v_vid = 3;
  v_svid = 1;
  v_mode = 0o755;
  v_uid = 4_294_967_294;
  v_gid = 100;
  v_rfile = codes "/v/00000003.a";
}

abbrev removed : Metadata
removed = record {
  md_vfile = codes "/a";
  md_vpath = codes "a" ∷ [];
  md_versions = version ∷ [];
  md_deleted = true;
  md_dfl_vid = latest;
  md_dfl_svid = latest;
  md_timestamp = 0;
  md_next = none;
  md_previous = none;
}

version-IsStorable : IsStorable version
unfolding strip_path rindex
version-IsStorable = omega arith

parse-write_metadata_file_example :
    (write_metadata_file (codes "/v/metadata.a") removed empty_disk
      ≡ some (pos 0, rewritten (codes "/v/metadata.a") removed empty_disk))
    × (parse_metadata_file zeros
          (codes "/v/metadata.a")
          (rewritten (codes "/v/metadata.a") removed empty_disk)
        ≡ some (some (read_back removed), rewritten (codes "/v/metadata.a") removed empty_disk))
parse-write_metadata_file_example =
    parse-write_metadata_file zeros (codes "/v/metadata.a") removed version [] empty_disk refl refl
      refl ((version-IsStorable, omega arith), tt)

-- A disk on which every file is a line that is no version, without a newline.
abbrev corrupt : Os
corrupt = record {
  disk = λ _. some (record { kind = Kind.regular; perm = 0; contents = codes "1:2:x" });
  faults = [];
  errno = 0;
  now = 0;
}
