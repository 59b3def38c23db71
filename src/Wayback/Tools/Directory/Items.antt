-- ===== src/Wayback/Tools/Directory/Items.antt =====
-- Calls of `ver_updatedirectory` as entries of a catalog.
use mathlib.Core.List.{append_assoc, append-nil}
use reproduction.Base.{ℕ, ◌≡◌, ap, sym, ◌∙◌, List, [], ◌∷◌, ◌++◌, Option, none, some, length}
use reproduction.Base.Text.{Bytes, Lacks}
use reproduction.Wayback.Globals.{Stats, ilp32}
use reproduction.Wayback.Words.{Fits}
use reproduction.Wayback.Catalog.{Action, code_of, pieces}
use reproduction.Wayback.Catalog.Appended.{join, catalog_header}
use reproduction.Wayback.Catalog.Payload.{or_empty, payload}
use reproduction.Wayback.Tools.Directory.{DirEntry}
use reproduction.Wayback.Tools.Directory.Unpack.{kept_stats, kept_extra, FitsOption}

-- A call of `ver_updatedirectory`, its names relative to the directory.
pub record Item : Type 0 where
  pub time : ℕ
  pub action : Action
  pub path : Bytes
  pub extra : Option Bytes
  pub stats : Option Stats

-- What it appends, and what the tools are to find.
unfoldable pub item_bytes : Item → Bytes
unfolding catalog_header join pieces
item_bytes it = elim (pieces ilp32 it.action it.path it.extra it.stats) [
  | none ↦ []
  | some ps ↦ catalog_header ilp32 it.time it.action ++ join ps
]

abbrev pub found_in : Item → DirEntry
found_in it = record {
  time = it.time;
  action = code_of it.action;
  stats = kept_stats it.action it.stats;
  file1 = it.path;
  file2 = kept_extra it.action it.extra it.stats;
}

-- The action has the arguments that it needs, the numbers fit into their fields, and the names hold
-- no NUL.
abbrev pub Readable : Item → Type 0
Readable it =
    ((ps : List Bytes) × (pieces ilp32 it.action it.path it.extra it.stats ≡ some ps))
    × Fits 4 it.time
    × Fits 4 (length (payload ilp32 it.action it.path it.extra it.stats))
    × Lacks 0 it.path
    × Lacks 0 (or_empty it.extra)
    × FitsOption it.stats

unfoldable pub catalog_of : List Item → Bytes
unfolding item_bytes
catalog_of [] = []
catalog_of (it ∷ items) = item_bytes it ++ catalog_of items

unfoldable pub all_found : List Item → List DirEntry
all_found [] = []
all_found (it ∷ items) = found_in it ∷ all_found items

pub item_bytes_lem :
    (it : Item) (ps : List Bytes)
    → pieces ilp32 it.action it.path it.extra it.stats ≡ some ps
    → item_bytes it ≡ catalog_header ilp32 it.time it.action ++ join ps
unfolding item_bytes
item_bytes_lem it ps e =
    ap
      (λ (o : Option (List Bytes)). elim o [
        | none ↦ []
        | some qs ↦ catalog_header ilp32 it.time it.action ++ join qs
      ])
      e

pub catalog_of-append :
    (items : List Item) (it : Item)
    → catalog_of (items ++ it ∷ []) ≡ catalog_of items ++ item_bytes it
unfolding catalog_of
catalog_of-append [] it = append-nil (item_bytes it)
catalog_of-append (i ∷ items) it =
    ap (λ s. item_bytes i ++ s) (catalog_of-append items it)
    ∙ sym (append_assoc (item_bytes i) (catalog_of items) (item_bytes it))
