-- ===== src/Wayback/History/Catalogued.antt =====
-- A change of a directory is logged in its catalog, and the tools find it there.
use reproduction.Base.{
  ℕ, ◌≡◌, ap, sym, ◌∙◌, List, [], ◌∷◌, ◌++◌, Option, none, some, false, arith, All, All-append,
}
use reproduction.Base.Text.{Bytes, str_eq_refl}
use reproduction.Libc.Os.{Os, is_directory}
use reproduction.Wayback.Globals.{Globals, Stats, ilp32}
use reproduction.Wayback.Log.Appended.{logged}
use reproduction.Wayback.Names.{getdirectorycatalog, makerelative}
use reproduction.Wayback.Catalog.{Action, pieces, relative_extra, updatedirectory}
use reproduction.Wayback.Catalog.Appended.{join, catalog_header, updatedirectory-logged}
use reproduction.Wayback.Tools.Directory.{readdirectory}
use reproduction.Wayback.Tools.Directory.Items.{
  Item, Readable, item_bytes_lem, catalog_of, all_found, catalog_of-append,
}
use reproduction.Wayback.Tools.Directory.ReadBack.{readdirectory-catalog_of}
use reproduction.Wayback.History.{contents_of}
use reproduction.Wayback.History.Performed.{grown}

-- The call, as an entry.
abbrev pub item_of : ℕ → Action → Bytes → Option Bytes → Option Stats → Item
item_of time action path extra stats = record {
  time = time;
  action = action;
  path = makerelative path;
  extra = relative_extra action extra;
  stats = stats;
}

logged-contents :
    (file text : Bytes) (os : Os)
    → contents_of ((logged file text os).disk file) ≡ contents_of (os.disk file) ++ text
logged-contents file text os = ground (arith, str_eq_refl file, (grown text (os.disk file)).0)

-- The catalog behind the entry of a call.
pub readdirectory-logged :
    (action : Action) (path file : Bytes) (extra : Option Bytes) (stats : Option Stats)
    (ps : List Bytes) (items : List Item) (time : ℕ) (os : Os)
    → contents_of (os.disk file) ≡ catalog_of items
    → All Readable items
    → Readable (item_of time action path extra stats)
    → pieces ilp32 action (makerelative path) (relative_extra action extra) stats ≡ some ps
    → readdirectory
        (contents_of ((logged file (catalog_header ilp32 time action ++ join ps) os).disk file))
      ≡ some (all_found (items ++ item_of time action path extra stats ∷ []))
readdirectory-logged action path file extra stats ps items time os c readable r e =
    let it = item_of time action path extra stats in
    let text = catalog_header ilp32 time action ++ join ps in
    ap readdirectory (
      logged-contents file text os
      ∙ ap (λ s. s ++ text) c
      ∙ ap (λ s. catalog_of items ++ s) (sym (item_bytes_lem it ps e))
      ∙ sym (catalog_of-append items it))
    ∙ readdirectory-catalog_of (items ++ it ∷ [])
        (All-append Readable items (it ∷ []) readable (r, tt))

-- After a call of `ver_updatedirectory` with 32-bit types, the tools read from the catalog the entries
-- that it had before, and behind them the entry of the call. No call fails, the catalog is no
-- directory and is made of such entries, and the entry of the call can be read.
pub readdirectory-updatedirectory :
    (globals : Globals) (action : Action) (path file : Bytes) (extra : Option Bytes)
    (stats : Option Stats) (items : List Item) (os : Os)
    → os.faults ≡ []
    → getdirectorycatalog globals path os ≡ some (some file, os)
    → is_directory (os.disk file) ≡ false
    → contents_of (os.disk file) ≡ catalog_of items
    → All Readable items
    → Readable (item_of os.now action path extra stats)
    → (os' : Os) × (updatedirectory ilp32 globals action path extra stats os ≡ some (tt, os'))
      × (readdirectory (contents_of (os'.disk file))
          ≡ some (all_found (items ++ item_of os.now action path extra stats ∷ [])))
readdirectory-updatedirectory globals action path file extra stats items os h at d c readable r =
    let ps = r.0.0 in
    let text = catalog_header ilp32 os.now action ++ join ps in
    (
      logged file text os,
      updatedirectory-logged ilp32 globals action path file extra stats os h at d
          ∙ ap
              (λ (o : Option (List Bytes)). elim o as (λ x. Option (Unit {0} × Os)) [
                | none ↦ none
                | some qs ↦
                    some (tt, logged file (catalog_header ilp32 os.now action ++ join qs) os)
              ])
              (r.0.1),
      readdirectory-logged action path file extra stats ps items os.now os c readable r (r.0.1),
    )
