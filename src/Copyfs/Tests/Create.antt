-- ===== src/Copyfs/Tests/Create.antt =====
-- New versions of a file `/a` with two versions.
use reproduction.Base.{◌≡◌, refl, ◌==◌, if◌then◌else◌, inr, [], ◌∷◌, none, some, true, false, arith}
use reproduction.Base.Int.{pos}
use reproduction.Base.Text.{codes}
use reproduction.Libc.Os.{fopen_write, fprintf, Os, pass, fail}
use reproduction.Copyfs.Structs.{Version, Metadata, latest}
use reproduction.Base.Text.{str_eq}
use reproduction.Libc.Text.{rindex}
use reproduction.Copyfs.Cache.{
  empty_bucket, cache_find_maximal_match, match_from, cache_get_metadata, cache_hash, hash_string,
  find_in_chain,
}
use reproduction.Copyfs.Helper.Composite.{
  build_composite, composite_length, composite_text, array_length, array_text,
}
use reproduction.Copyfs.Helper.Names.{extract_dirname, extract_filename}
use reproduction.Copyfs.Helper.Split.{split_to_array, count_elements, store_elements}
use reproduction.Copyfs.Translate.{translate_path, translate_from, translate_elements}
use reproduction.Copyfs.Create.{Request, new_version, create_meta_name}
use reproduction.Copyfs.Create.Numbering.{new_version-IsNewestFirst, new_version_out_of_order}
use reproduction.Copyfs.Create.Link.{IsNamed}
use reproduction.Copyfs.Lookup.Order.{IsNewestFirst}
use reproduction.Copyfs.Parse.{Unset}
use reproduction.Copyfs.World.{World}
use reproduction.Copyfs.Write.{version_line}

abbrev newest : Version
newest = record {
  v_vid = 2;
  v_svid = 1;
  v_mode = 0o600;
  v_uid = 7;
  v_gid = 7;
  v_rfile = codes "/v/00000002.a";
}

abbrev before : Version
before = record newest { v_svid = 0; v_mode = 0o644 }

abbrev added : Version
added = record newest { v_vid = 3; v_svid = 0; v_rfile = codes "/v/00000003.a" }

abbrev chmod_request : Request
chmod_request = record { subversion = true; do_copy = false; mode = 0o400; uid = 7; gid = 7 }

chmod_run : (new_version chmod_request newest newest []).v_svid ≡ 2
unfolding new_version
chmod_run = refl

new_version-IsNewestFirst_example :
    IsNewestFirst (new_version chmod_request newest newest [] ∷ newest ∷ before ∷ [])
new_version-IsNewestFirst_example =
    new_version-IsNewestFirst chmod_request newest newest (before ∷ []) [] (omega arith)
      (omega arith) (λ _ _. omega arith) ((inr (refl, omega arith), tt), (tt, tt))

new_version_out_of_order_example :
    ¬ IsNewestFirst (new_version chmod_request newest before [] ∷ newest ∷ before ∷ [])
new_version_out_of_order_example =
    new_version_out_of_order chmod_request newest before (before ∷ []) [] refl refl (omega arith)
      (omega arith)

abbrev u : Unset
u = record { stale = λ _. 0; name = λ _. [] }

abbrev md : Metadata
md = record {
  md_vfile = codes "/a";
  md_vpath = codes "a" ∷ [];
  md_versions = newest ∷ before ∷ [];
  md_deleted = false;
  md_dfl_vid = pos 2;
  md_dfl_svid = latest;
  md_timestamp = 0;
  md_next = none;
  md_previous = none;
}

-- The structure of `/a` is at address 5. The second call fails for want of space.
abbrev w : World
w = record {
  os = record { disk = λ _. none; faults = pass ∷ fail 28 3 ∷ []; errno = 0; now = 9 };
  store = λ p. if p == 5 then some md else none;
  fresh = 6;
  buckets = λ _. empty_bucket;
  item_count = 0;
  ignore_deleted = false;
  version_path = codes "/v";
}

metadata_named :
    create_meta_name u (codes "/a") (codes "metadata") w ≡ some (codes "/v/metadata.a", w)
unfolding create_meta_name translate_path str_eq extract_dirname extract_filename rindex
    cache_find_maximal_match split_to_array count_elements store_elements match_from
    cache_get_metadata cache_hash hash_string find_in_chain translate_from translate_elements
    build_composite composite_length composite_text array_length array_text
metadata_named = refl

default_named :
    create_meta_name u (codes "/a") (codes "dfl-meta") w ≡ some (codes "/v/dfl-meta.a", w)
unfolding create_meta_name translate_path str_eq extract_dirname extract_filename rindex
    cache_find_maximal_match split_to_array count_elements store_elements match_from
    cache_get_metadata cache_hash hash_string find_in_chain translate_from translate_elements
    build_composite composite_length composite_text array_length array_text
default_named = refl

abbrev named : IsNamed u 5 md w w
named = record {
  metafile = codes "/v/metadata.a";
  dflfile = codes "/v/dfl-meta.a";
  between = w;
  at_first = refl;
  names_metadata = metadata_named;
  names_default = default_named;
  at_last = refl;
}

-- What the failing commit leaves: a cut line of the oldest version.
after : Os
after =
    (fprintf (codes "/v/metadata.a") (version_line before)
      (fopen_write (codes "/v/metadata.a") w.os).1).1
