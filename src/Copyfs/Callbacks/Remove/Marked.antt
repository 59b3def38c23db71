-- ===== src/Copyfs/Callbacks/Remove/Marked.antt =====
-- What a deletion leaves in memory.
use reproduction.Base.{
  ℕ, ◌≡◌, none, some, true, false, if◌then◌else◌, arith, Bool-cases, ==_refl, inl, inr,
}
use reproduction.Base.Int.{ℤ, pos, eq_ℤ}
use reproduction.Base.Text.{Bytes, codes}
use reproduction.Libc.Os.{Os}
use reproduction.Copyfs.CopyFile.{minus}
use reproduction.Copyfs.Create.{create_meta_name}
use reproduction.Copyfs.Lookup.{find_version}
use reproduction.Copyfs.Lookup.Entry.{find_version-IsEntry}
use reproduction.Copyfs.Parse.{Unset}
use reproduction.Copyfs.Structs.{Metadata, latest}
use reproduction.Copyfs.World.{World, load, modify, set_at}
use reproduction.Copyfs.Write.{write_metadata_file, minus_one}
use reproduction.Copyfs.Callbacks.Remove.{mark_deleted}

abbrev pub marked : Metadata → Metadata
marked md = record md { md_deleted = true }

-- The mark of `unlink` and `rmdir` hides the file from every look-up of its latest version, whether
-- the metadata file could be written or not; the result tells the two apart, if the failed call set
-- `errno`. This is for a structure in memory whose file name is found, a search that leaves the
-- structure's version list and mark alone, and a write that does not kill the process.
pub mark_deleted-find_version :
    (u : Unset) (p : ℕ) (md md₂ : Metadata) (w w₂ : World) (metafile : Bytes) (written : ℤ)
    (os : Os)
    → w.store p ≡ some md
    → create_meta_name u md.md_vfile
        (codes "metadata")
        (record w { store = set_at w.store p (some (marked md)) })
      ≡ some (metafile, w₂)
    → w₂.store p ≡ some (marked md₂)
    → write_metadata_file metafile (marked md₂) w₂.os ≡ some (written, os)
    → (w' : World) × (mark_deleted u p w
        ≡ some (if eq_ℤ written minus_one then minus os.errno else pos 0, w'))
      × (w'.store p ≡ some (marked md₂))
      × (find_version false (marked md₂) latest latest ≡ none)
unfolding mark_deleted load modify
mark_deleted-find_version u p md md₂ w w₂ metafile written os h named k e = (
  record w₂ { os = os },
  elim (Bool-cases (eq_ℤ written minus_one)) [
    | inl z ↦ ground (arith, h, named, k, e, z, ==_refl p)
    | inr z ↦ ground (arith, h, named, k, e, z, ==_refl p)
  ],
  k,
  (find_version-IsEntry false md₂ latest latest).1,
)
