-- ===== src/Copyfs/Tests/Attributes.antt =====
-- Pins and purges of a file `/a` with two versions.
use reproduction.Base.{◌≡◌, refl, inr, inl, [], ◌∷◌, none, some, false, arith, ◌==◌, if◌then◌else◌}
use reproduction.Base.Int.{pos}
use reproduction.Base.Text.{codes, str_eq}
use reproduction.Libc.Text.{rindex, c_string}
use reproduction.Libc.Integer.{scan_decimal}
use reproduction.Libc.Scan.{scan_literal}
use reproduction.Libc.Os.{Os, fopen_write, fprintf}
use reproduction.Copyfs.Cache.{
  empty_bucket, cache_find_maximal_match, match_from, cache_get_metadata, cache_hash, hash_string,
  find_in_chain,
}
use reproduction.Copyfs.CopyFile.{minus}
use reproduction.Copyfs.Create.{create_meta_name}
use reproduction.Copyfs.Helper.Composite.{
  build_composite, composite_length, composite_text, array_length, array_text,
}
use reproduction.Copyfs.Helper.Names.{extract_dirname, extract_filename}
use reproduction.Copyfs.Helper.Split.{split_to_array, count_elements, store_elements}
use reproduction.Copyfs.Lookup.{find_version}
use reproduction.Copyfs.Parse.{Unset}
use reproduction.Copyfs.Structs.{Version, Metadata, latest}
use reproduction.Copyfs.Translate.{translate_path, translate_from, translate_elements}
use reproduction.Copyfs.World.{World}
use reproduction.Copyfs.Write.{write_default_file, default_line}
use reproduction.Copyfs.Attributes.Lock.{lock_version, scan_lock, find_lock, eacces}
use reproduction.Copyfs.Attributes.Lock.Pin.{lock_version-find_version, lock_version-Refused, Asks}
use reproduction.Copyfs.Attributes.Dump.{Unfilled}
use reproduction.Libc.Os.{Kind}

abbrev newest : Version
newest = record {
  v_vid = 2;
  v_svid = 0;
  v_mode = 0o600;
  v_uid = 7;
  v_gid = 7;
  v_rfile = codes "/v/00000002.a";
}

abbrev oldest : Version
oldest = record newest { v_vid = 1; v_rfile = codes "/v/00000001.a" }

abbrev md : Metadata
md = record {
  md_vfile = codes "/a";
  md_vpath = codes "a" ∷ [];
  md_versions = newest ∷ oldest ∷ [];
  md_deleted = false;
  md_dfl_vid = latest;
  md_dfl_svid = latest;
  md_timestamp = 0;
  md_next = none;
  md_previous = none;
}

abbrev w : World
w = record {
  os = record { disk = λ _. none; faults = []; errno = 0; now = 9 };
  store = λ p. if p == 5 then some md else none;
  fresh = 6;
  buckets = λ _. empty_bucket;
  item_count = 0;
  ignore_deleted = false;
  version_path = codes "/v";
}

abbrev u : Unset
u = record { stale = λ _. 0; name = λ _. [] }

default_named :
    create_meta_name u (codes "/a") (codes "dfl-meta") w ≡ some (codes "/v/dfl-meta.a", w)
unfolding create_meta_name translate_path str_eq extract_dirname extract_filename rindex
    cache_find_maximal_match split_to_array count_elements store_elements match_from
    cache_get_metadata cache_hash hash_string find_in_chain translate_from translate_elements
    build_composite composite_length composite_text array_length array_text
default_named = refl

scan_run : scan_lock (codes "1.-1") ≡ some (pos 1, latest)
unfolding scan_lock c_string scan_decimal scan_literal
scan_run = refl

written : Os
written =
    (fprintf (codes "/v/dfl-meta.a") (default_line (pos 1) latest)
      (fopen_write (codes "/v/dfl-meta.a") w.os).1).1

write_run : write_default_file (codes "/v/dfl-meta.a") (pos 1) latest w.os ≡ some (pos 0, written)
unfolding written write_default_file fopen_write fprintf
write_run = refl

lock_version-find_version_example :
    (w' : World) × (md' : Metadata) × (lock_version u 7 (codes "/a") 5 (codes "1.-1") w
      ≡ some (pos 0, w'))
    × (w'.store 5 ≡ some md')
    × (find_version false md' latest latest ≡ some oldest)
unfolding find_lock
lock_version-find_version_example =
    lock_version-find_version u 7 (codes "/a") 5 (codes "1.-1") (pos 1) latest md md w w
      (codes "/v/dfl-meta.a") oldest written scan_run refl refl ((inl (omega arith), tt), (tt, tt))
      refl (inr refl) default_named refl refl refl write_run

not_asked : ¬ Asks (pos 1) latest newest
not_asked (inl e) = cc
not_asked (inr (e, k)) = absurd (omega (arith, e))

lock_version-Refused_example :
    lock_version u 8 (codes "/a") 5 (codes "1.-1") w ≡ some (minus eacces, w)
lock_version-Refused_example =
    lock_version-Refused u 8 (codes "/a") 5 (codes "1.-1") (pos 1) latest md w eacces refl scan_run
      (inr (
        refl,
        (
          newest ∷ [],
          oldest,
          [],
          refl,
          (not_asked, tt),
          inr (refl, inl refl),
          omega arith,
          omega arith,
        ),
      ))

abbrev unfilled : Unfilled
unfilled = record { st_mtime = λ n. 9; st_size = λ v. 0 }

-- The real file of the newest version is there, and that of the oldest is not.
abbrev listed : World
listed = record w {
  os = record (w.os) {
    disk = λ path.
        if str_eq path (codes "/v/00000002.a")
        then some (record { kind = Kind.regular; perm = 0o600; contents = codes "hello" })
        else none;
  };
}
