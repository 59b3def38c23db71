-- ===== src/Copyfs/Attributes/Purge.antt =====
-- `rcs.purge` in `callback_setxattr`: the oldest versions of a file, or all of them, are unlinked.
pub mod Kept
use reproduction.Base.{
  ℕ, zero, suc, ◌+◌, ◌-◌, ◌*◌, ◌≤◌, List, [], ◌∷◌, ◌++◌, Option, none, some, Bool, true, false, not,
  leb, ltb, ◌==◌, if◌then◌else◌, length,
}
use reproduction.Base.Int.{ℤ, pos, negsuc, eq_ℤ}
use reproduction.Base.Prog.{Prog, pure, crash, ◌>>=◌, ◌>>◌}
use reproduction.Base.Text.{Bytes, codes, str_eq}
use reproduction.Libc.Integer.{scan_atoi}
use reproduction.Libc.Os.{unlink, enoent}
use reproduction.Libc.Text.{c_string}
use reproduction.Copyfs.Cache.{cache_drop_metadata}
use reproduction.Copyfs.CopyFile.{minus}
use reproduction.Copyfs.Create.{root, minus_errno}
use reproduction.Copyfs.Helper.Names.{extract_filename, extract_dirname}
use reproduction.Copyfs.Parse.{Unset}
use reproduction.Copyfs.Structs.{Version, Metadata}
use reproduction.Copyfs.Translate.{translate_path}
use reproduction.Copyfs.World.{World, load, modify, free_metadata, deref, on_os, system}
use reproduction.Copyfs.Write.{write_metadata_file, minus_one}

-- "toasting them all": every real file is unlinked, in the order of the chain. Results of `unlink`
-- are not looked at.
unfoldable pub toast : List Version → Prog World (Unit {0})
toast [] = pure tt
toast (v ∷ vs) = do _ ← system (unlink v.v_rfile); toast vs

-- "cull": `vnum` counts down over the versions that stay. Behind the last of them the chain is cut
-- link by link, and each version that is cut off loses its real file. What is left is returned.
unfoldable pub cull : ℕ → List Version → Prog World (List Version)
cull vnum [] = pure []
cull vnum (v ∷ vs) =
    if ltb 1 vnum
    then (do rest ← cull (vnum - 1) vs; pure (v ∷ rest))
    else (do toast vs; pure (v ∷ []))

-- How many versions to delete: `A` for all, else `atoi`.
abbrev pub purge_count : Bytes → ℕ → ℤ
purge_count local vnum = if str_eq local (codes "A") then pos vnum else scan_atoi local

-- `c >= vnum`; a negative count is less.
abbrev pub purges_all : ℤ → ℕ → Bool
purges_all (pos c) vnum = leb vnum c
purges_all (negsuc c) vnum = false

-- `vnum -= c`, the number of versions to keep.
abbrev pub kept : ℕ → ℤ → ℕ
kept vnum (pos c) = vnum - c
kept vnum (negsuc c) = vnum + suc c

-- The chain behind the two loops; NULL is the empty list. The count reads `v->v_next` of the first
-- version at once.
unfoldable pub purge_versions : Bytes → List Version → Prog World (List Version)
unfolding toast cull
purge_versions local [] = crash
purge_versions local (v ∷ vs) =
    let vnum = length (v ∷ vs) in
    let c = purge_count local vnum in
    if purges_all c vnum then (do toast (v ∷ vs); pure []) else cull (kept vnum c) (v ∷ vs)

-- The branch of `callback_setxattr` for `rcs.purge`, on the metadata at `p`.
unfoldable pub purge : Unset → Bytes → ℕ → Bytes → Prog World ℤ
unfolding purge_versions
purge u path p value = do
  vroot ← root
  found ← translate_path u path vroot
  elim found [
    | none ↦ pure (minus enoent)
    | some rpath ↦ do
      let mdfile = extract_dirname rpath ++ (codes "/metadata." ++ extract_filename path)
      md ← load p
      left ← purge_versions (c_string value) md.md_versions
      modify p (λ md. record md { md_versions = left })
      elim left [
        | [] ↦ do
          cache_drop_metadata md.md_vfile
          free_metadata p
          _ ← system (unlink mdfile)
          pure (pos 0)
        | v ∷ vs ↦ do
          md' ← load p
          written ← on_os (write_metadata_file mdfile md')
          if eq_ℤ written minus_one then minus_errno else pure (pos 0)
      ]
  ]
