-- ===== src/Copyfs/Tests/Deletion.antt =====
-- A deletion of a file `/a` whose metadata file cannot be written.
use reproduction.Base.{◌≡◌, refl, ◌==◌, if◌then◌else◌, [], ◌∷◌, none, some, false}
use reproduction.Base.Text.{codes}
use reproduction.Libc.Os.{fopen_write, fprintf, Os, pass, fail}
use reproduction.Copyfs.Structs.{Version, Metadata, latest}
use reproduction.Base.Text.{str_eq}
use reproduction.Libc.Text.{rindex}
use reproduction.Copyfs.Cache.{
  empty_bucket, cache_find_maximal_match, match_from, cache_get_metadata, cache_hash, hash_string,
  find_in_chain,
}
use reproduction.Copyfs.Helper.Composite.{
  build_composite, composite_length, composite_text, array_length, array_text,
}
use reproduction.Copyfs.Helper.Names.{extract_dirname, extract_filename}
use reproduction.Copyfs.Helper.Split.{split_to_array, count_elements, store_elements}
use reproduction.Copyfs.Translate.{translate_path, translate_from, translate_elements}
use reproduction.Copyfs.Create.{create_meta_name}
use reproduction.Copyfs.Lookup.{find_version}
use reproduction.Copyfs.CopyFile.{minus}
use reproduction.Copyfs.Callbacks.Remove.{mark_deleted}
use reproduction.Copyfs.Callbacks.Remove.Marked.{marked, mark_deleted-find_version}
use reproduction.Copyfs.Parse.{Unset}
use reproduction.Copyfs.World.{World, set_at}
use reproduction.Copyfs.Write.{
  minus_one, version_line, write_version, write_metadata_file, write_metadata_file_worker,
}

abbrev newest : Version
newest = record {
  v_vid = 2;
  v_svid = 1;
  v_mode = 0o600;
  v_uid = 7;
  v_gid = 7;
  v_rfile = codes "/v/00000002.a";
}

abbrev u : Unset
u = record { stale = λ _. 0; name = λ _. [] }

abbrev md : Metadata
md = record {
  md_vfile = codes "/a";
  md_vpath = codes "a" ∷ [];
  md_versions = newest ∷ [];
  md_deleted = false;
  md_dfl_vid = latest;
  md_dfl_svid = latest;
  md_timestamp = 0;
  md_next = none;
  md_previous = none;
}

-- The structure of `/a` is at address 5. The second call fails for want of space.
abbrev w : World
w = record {
  os = record { disk = λ _. none; faults = pass ∷ fail 28 3 ∷ []; errno = 0; now = 9 };
  store = λ p. if p == 5 then some md else none;
  fresh = 6;
  buckets = λ _. empty_bucket;
  item_count = 0;
  ignore_deleted = false;
  version_path = codes "/v";
}

abbrev w₁ : World
w₁ = record w { store = set_at w.store 5 (some (marked md)) }

metadata_named :
    create_meta_name u (codes "/a") (codes "metadata") w₁ ≡ some (codes "/v/metadata.a", w₁)
unfolding create_meta_name translate_path str_eq extract_dirname extract_filename rindex
    cache_find_maximal_match split_to_array count_elements store_elements match_from
    cache_get_metadata cache_hash hash_string find_in_chain translate_from translate_elements
    build_composite composite_length composite_text array_length array_text
metadata_named = refl

-- What the failing write leaves: a cut line of the oldest version.
after : Os
after =
    (fprintf (codes "/v/metadata.a") (version_line newest)
      (fopen_write (codes "/v/metadata.a") w.os).1).1

write_run : write_metadata_file (codes "/v/metadata.a") (marked md) w₁.os ≡ some (minus_one, after)
unfolding after write_metadata_file write_metadata_file_worker write_version fopen_write fprintf
write_run = refl

mark_deleted-find_version_example :
    (w' : World) × (mark_deleted u 5 w ≡ some (minus 28, w'))
    × (w'.store 5 ≡ some (marked md))
    × (find_version false (marked md) latest latest ≡ none)
unfolding after fopen_write fprintf
mark_deleted-find_version_example =
    mark_deleted-find_version u 5 md md w w₁ (codes "/v/metadata.a") minus_one after refl
      metadata_named refl write_run
