-- ===== src/Copyfs/Translate.antt =====
-- `rcs_translate_path` and `rcs_translate_to_metadata` of lookup.c: a virtual path to the real one,
-- element by element, through the cache and the metadata files.
use reproduction.Base.{
  ℕ, suc, List, [], ◌∷◌, ◌++◌, Option, none, some, if◌then◌else◌, map, drop, take,
}
use reproduction.Base.Int.{ℤ, pos}
use reproduction.Base.Prog.{Prog, pure, ◌>>=◌, ◌>>◌}
use reproduction.Base.Text.{Bytes, codes, str_eq}
use reproduction.Copyfs.Cache.{
  cache_get_metadata, cache_add_metadata, cache_find_maximal_match, joined,
}
use reproduction.Copyfs.Default.{parse_default_file, parse_metadata_for_file, pair}
use reproduction.Copyfs.Helper.Split.{split_to_array}
use reproduction.Copyfs.Lookup.{find_version}
use reproduction.Copyfs.Parse.{Unset, parse_metadata_file}
use reproduction.Copyfs.Structs.{Version, Metadata, latest}
use reproduction.Copyfs.World.{World, load, malloc_metadata, deref, on_os}

-- `rcs_find_version(metadata, LATEST, LATEST)` under the global `rcs_ignore_deleted`.
abbrev pub latest_version : Metadata → Prog World (Option Version)
latest_version md w = some (find_version w.ignore_deleted md latest latest, w)

-- `rcs_fixup_metadata_paths`.
unfoldable pub fixup_versions : Bytes → List Version → Prog World (List Version)
fixup_versions path [] = pure []
fixup_versions path (v ∷ vs) = do
  rfile ← pair (codes "/") path v.v_rfile
  rest ← fixup_versions path vs
  pure (record v { v_rfile = rfile } ∷ rest)

abbrev pub with_rfile : Bytes → Version → Version
with_rfile rfile v = record v { v_rfile = rfile }

-- The metadata of the root when it is not cached: read, checked, completed and added.
unfoldable pub load_root : Unset → Bytes → Prog World Bytes
load_root u vroot = do
  metafile ← pair (codes "/") vroot (codes "metadata.")
  dflfile ← pair (codes "/") vroot (codes "dfl-meta.")
  parsed ← on_os (parse_metadata_file u metafile)
  md ← deref parsed
  found ← latest_version md
  last ← deref found
  (vid, svid) ← on_os (parse_default_file u dflfile)
  p ← malloc_metadata (record md {
    md_vfile = codes "/";
    md_vpath = [];
    md_versions = map (with_rfile vroot) md.md_versions;
    md_dfl_vid = vid;
    md_dfl_svid = svid;
  })
  cache_add_metadata p
  -- `last` is in the chain, whose file names are all `vroot` by now
  pure vroot

unfoldable pub translate_root : Unset → Bytes → Prog World (Option Bytes)
unfolding load_root
translate_root u vroot = do
  cached ← cache_get_metadata (codes "/")
  elim cached [
    | some p ↦ do
      md ← load p
      found ← latest_version md
      version ← deref found
      pure (some version.v_rfile)
    | none ↦ do path ← load_root u vroot; pure (some path)
  ]

-- "Iterate from the root onwards": `done` are the elements in front of `i`, and NULL is returned
-- for an element without metadata or without a version.
unfoldable pub translate_elements :
    Unset → List Bytes → List Bytes → Bytes → Prog World (Option Bytes)
unfolding fixup_versions
translate_elements u done [] path = pure (some path)
translate_elements u done (e ∷ rest) path = do
  parsed ← on_os (parse_metadata_for_file u path e)
  elim parsed [
    | none ↦ pure none
    | some md ↦ do
      found ← latest_version md
      elim found [
        | none ↦ pure none
        | some version ↦ do
          versions ← fixup_versions path md.md_versions
          vfile ← joined (done ++ e ∷ [])
          p ←
              malloc_metadata
                (record md { md_versions = versions; md_vpath = done ++ e ∷ []; md_vfile = vfile })
          cache_add_metadata p
          rfile ← pair (codes "/") path version.v_rfile
          translate_elements u (done ++ e ∷ []) rest rfile
      ]
  ]

-- The starting point: the real path of the longest cached prefix, or the root.
unfoldable pub translate_from :
    Unset → List Bytes → ℤ → Option ℕ → Bytes → Prog World (Option Bytes)
unfolding translate_elements
translate_from u elements (pos (suc base)) hit vroot = do
  p ← deref hit
  md ← load p
  found ← latest_version md
  elim found [
    | none ↦ pure none
    | some version ↦
        translate_elements u (take (suc base) elements) (drop (suc base) elements) version.v_rfile
  ]
translate_from u elements _ hit vroot = translate_elements u [] elements vroot

unfoldable pub translate_path : Unset → Bytes → Bytes → Prog World (Option Bytes)
unfolding translate_root translate_from
translate_path u virtual vroot = if str_eq virtual (codes "/") then translate_root u vroot else do
  let elements = split_to_array virtual b'/'
  (base, hit) ← cache_find_maximal_match elements
  translate_from u elements base hit vroot

-- The metadata that the translation left in the cache.
unfoldable pub translate_to_metadata : Unset → Bytes → Bytes → Prog World (Option ℕ)
translate_to_metadata u vfile vroot = do
  path ← translate_path u vfile vroot
  elim path [ none ↦ pure none | some _ ↦ cache_get_metadata vfile ]
