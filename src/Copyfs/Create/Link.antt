-- ===== src/Copyfs/Create/Link.antt =====
-- `create_link_version` is all or nothing in memory.
use reproduction.Base.{
  ℕ, ◌≡◌, Option, some, ◌∷◌, false, not, ◌==◌, if◌then◌else◌, not, if◌then◌else◌, ◌==◌, Option,
}
use reproduction.Base.Text.{Bytes, codes}
use reproduction.Libc.Os.{Os}
use reproduction.Copyfs.Structs.{Version, Metadata, latest}
use reproduction.Copyfs.Parse.{Unset}
use reproduction.Copyfs.World.{World}
use reproduction.Copyfs.Create.{create_meta_name}

-- The names are found, and the structure is at the address when they are.
pub record IsNamed (u : Unset) (p : ℕ) (old : Metadata) (w w₂ : World) : Type 0 where
  pub metafile : Bytes
  pub dflfile : Bytes
  pub between : World
  pub at_first : w.store p ≡ some old
  pub names_metadata :
      create_meta_name u old.md_vfile (codes "metadata") w ≡ some (metafile, between)
  pub names_default :
      create_meta_name u old.md_vfile (codes "dfl-meta") between ≡ some (dflfile, w₂)
  pub at_last : w₂.store p ≡ some old

abbrev stored : World → Os → (ℕ → Option Metadata) → World
stored w os store = record w { os = os; store = store }

-- The structure with the version at its head, no pin and no deletion mark.
abbrev pub headed : Version → Metadata → Metadata
headed version old = record {
  md_vfile = old.md_vfile;
  md_vpath = old.md_vpath;
  md_versions = version ∷ old.md_versions;
  md_deleted = false;
  md_dfl_vid = latest;
  md_dfl_svid = latest;
  md_timestamp = old.md_timestamp;
  md_next = old.md_next;
  md_previous = old.md_previous;
}
