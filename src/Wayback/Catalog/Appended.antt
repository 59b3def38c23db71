-- ===== src/Wayback/Catalog/Appended.antt =====
-- `ver_updatedirectory` appends one entry, when no call fails.
use reproduction.Base.{
  ℕ, ◌≡◌, List, [], ◌∷◌, ◌++◌, Option, none, some, false, arith, inl, inr, Option-cases,
}
use reproduction.Base.Text.{Bytes}
use reproduction.Libc.Os.{Os, append, put, is_directory}
use reproduction.Libc.Os.Appended.{append-append, append-nil_lem}
use reproduction.Libc.Os.Stdio.{fopen_append, opened}
use reproduction.Wayback.Globals.{Globals, Sizes, Stats}
use reproduction.Wayback.Words.{word}
use reproduction.Wayback.Log.{open_log}
use reproduction.Wayback.Log.Saved.{writebuffer_lem}
use reproduction.Wayback.Log.Appended.{logged}
use reproduction.Wayback.Names.{getdirectorycatalog, makerelative}
use reproduction.Wayback.Catalog.{
  Action, code_of, write_pieces, pieces, relative_extra, updatedirectory,
}

unfoldable pub join : List Bytes → Bytes
join [] = []
join (s ∷ rest) = s ++ join rest

write_pieces-append :
    (file : Bytes) (ps : List Bytes) (os : Os)
    → os.faults ≡ []
    → write_pieces file ps os ≡ some (tt, append file (join ps) os)
unfolding write_pieces join
write_pieces-append file [] os h = ground (arith, append-nil_lem file os)
write_pieces-append file (s ∷ rest) os h = ground (
  arith,
  h,
  writebuffer_lem file s false os h,
  write_pieces-append file rest (append file s os) h,
  append-append file s (join rest) os,
)

-- The time and the action.
unfoldable pub catalog_header : Sizes → ℕ → Action → Bytes
catalog_header sizes time action = word sizes.time_t time ++ word sizes.int (code_of action)

-- For every action `ver_updatedirectory` appends one entry to the catalog, which is made if it is not
-- there, and does nothing else; or it reads through a null pointer, for an action without the
-- argument that it needs. No call fails, and the catalog is no directory.
pub updatedirectory-logged :
    (sizes : Sizes) (globals : Globals) (action : Action) (path file : Bytes) (extra : Option Bytes)
    (stats : Option Stats) (os : Os)
    → os.faults ≡ []
    → getdirectorycatalog globals path os ≡ some (some file, os)
    → is_directory (os.disk file) ≡ false
    → updatedirectory sizes globals action path extra stats os
      ≡ elim (pieces sizes action (makerelative path) (relative_extra action extra) stats) [
        | none ↦ none
        | some ps ↦ some (tt, logged file (catalog_header sizes os.now action ++ join ps) os)
      ]
unfolding updatedirectory open_log fopen_append catalog_header
updatedirectory-logged sizes globals action path file extra stats os h at d =
    let os₁ = record os { disk = put os.disk file (some (opened (os.disk file))) } in
    let head = word sizes.time_t os.now ++ word sizes.int (code_of action) in
    elim (Option-cases
      (pieces sizes action (makerelative path) (relative_extra action extra) stats)) [
        | inl e ↦ ground (arith, h, at, d, e, writebuffer_lem file head false os₁ h)
        | inr (ps, e) ↦ ground (
          arith,
          h,
          at,
          d,
          e,
          writebuffer_lem file head false os₁ h,
          write_pieces-append file ps (append file head os₁) h,
          append-append file head (join ps) os₁,
        )
      ]
