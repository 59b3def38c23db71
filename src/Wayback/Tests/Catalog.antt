-- ===== src/Wayback/Tests/Catalog.antt =====
-- Entries of catalogs.
use reproduction.Base.{◌≡◌, refl, List, [], ◌∷◌, ◌++◌, none, some, true, arith}
use reproduction.Base.Text.{Bytes, codes, str_eq}
use reproduction.Libc.Os.{Os}
use reproduction.Wayback.Globals.{Stats, defaults, ilp32}
use reproduction.Wayback.Words.{word}
use reproduction.Wayback.Names.{makerelative, getdirectorycatalog, back_to_slash}
use reproduction.Wayback.Catalog.{Action, pieces, updatedirectory, zstring, bufferstats}
use reproduction.Wayback.Catalog.Payload.{payload}
use reproduction.Wayback.Tools.Directory.{readdirectory}
use reproduction.Wayback.Tools.Directory.Items.{Item, Readable, catalog_of, all_found}
use reproduction.Wayback.Tools.Directory.ReadBack.{readdirectory-catalog_of}
use reproduction.Wayback.History.{contents_of}
use reproduction.Wayback.History.Unlinked.{ver_unlink-kept}
use reproduction.Wayback.Callbacks.{ver_unlink}
use reproduction.Wayback.Log.Entry.{entry_for, encode}
use reproduction.Wayback.Names.{ends_with}
use reproduction.Base.Int.{pos}
use reproduction.Wayback.History.Catalogued.{item_of, readdirectory-updatedirectory}
use reproduction.Wayback.Tests.{small_host, no_stats, file_node, disk_with}

abbrev catalog_path : Bytes
catalog_path = codes "//" ++ defaults.versionmodifier

abbrev renamed : Item
renamed = item_of 7 Action.rename (codes "//f") (some (codes "//g")) none

abbrev stats : Stats
stats = record {
  st_mode = 0o100644;
  st_uid = 1000;
  st_gid = 100;
  st_atime = 5;
  st_mtime = 6;
  st_ctime = 70000;
}

abbrev changed_mode : Item
changed_mode = record {
  time = 6;
  action = Action.chmod;
  path = codes "f";
  extra = none;
  stats = some stats;
}

abbrev changed_mode_pieces : List Bytes
changed_mode_pieces = word 4 26 ∷ bufferstats ilp32 stats ∷ zstring (codes "f") ∷ []

changed_mode-Readable : Readable changed_mode
unfolding pieces payload
changed_mode-Readable = (
  (changed_mode_pieces, refl),
  refl,
  refl,
  ground arith,
  ground arith,
  ((refl, refl, refl, refl, refl, refl), refl),
)

renamed-Readable : Readable renamed
unfolding pieces payload makerelative
renamed-Readable = (
  (word 4 4 ∷ zstring (codes "f") ∷ zstring (codes "g") ∷ [], refl),
  refl,
  refl,
  ground arith,
  ground arith,
  tt,
)

readdirectory-catalog_of_example :
    readdirectory (catalog_of (changed_mode ∷ renamed ∷ []))
    ≡ some (all_found (changed_mode ∷ renamed ∷ []))
readdirectory-catalog_of_example =
    readdirectory-catalog_of (changed_mode ∷ renamed ∷ [])
      (changed_mode-Readable, (renamed-Readable, tt))

readdirectory-updatedirectory_example :
    (os' : Os) × (updatedirectory ilp32 defaults Action.rename
        (codes "//f")
        (some (codes "//g"))
        none
        (disk_with file_node)
      ≡ some (tt, os'))
    × (readdirectory (contents_of (os'.disk catalog_path)) ≡ some (all_found ([] ++ renamed ∷ [])))
unfolding str_eq getdirectorycatalog back_to_slash catalog_of
readdirectory-updatedirectory_example =
    readdirectory-updatedirectory defaults Action.rename (codes "//f") catalog_path
      (some (codes "//g")) none [] (disk_with file_node) refl refl refl refl tt renamed-Readable

abbrev unlinked : Item
unlinked = item_of 7 Action.rm (codes "//f") none (some no_stats)

unlinked-Readable : Readable unlinked
unfolding pieces payload makerelative
unlinked-Readable = (
  (word 4 26 ∷ bufferstats ilp32 no_stats ∷ zstring (codes "f") ∷ [], refl),
  refl,
  refl,
  ground arith,
  tt,
  ((refl, refl, refl, refl, refl, refl), refl),
)

ver_unlink-kept_example :
    (os' : Os) × (ver_unlink small_host defaults (codes "/f") (disk_with file_node)
      ≡ some (pos 0, os'))
    × (os'.disk (codes "//f") ≡ none)
    × (contents_of (os'.disk (codes "//f" ++ defaults.versionmodifier))
        ≡ [] ++ encode ilp32 (entry_for 7 true 0 0 (codes "hello")))
    × (readdirectory (contents_of (os'.disk catalog_path)) ≡ some (all_found ([] ++ unlinked ∷ [])))
unfolding str_eq catalog_of ends_with
ver_unlink-kept_example =
    ver_unlink-kept small_host defaults (codes "/") (codes "f") (codes "/f") file_node refl []
      (disk_with file_node) refl refl refl refl refl (omega arith) (omega arith) (ground arith) refl
      refl refl refl tt unlinked-Readable
