-- ===== src/Wayback/Catalog.antt =====
-- `bufferstats` and `ver_updatedirectory` of waybackfsvops.c: what undoes a change of a directory is
-- appended to its catalog, after the change.
pub mod Appended
pub mod Payload
use reproduction.Base.{
  ℕ, ◌+◌, ◌/◌, ◌%◌, List, [], ◌∷◌, ◌++◌, Option, none, some, Bool, false, not, ◌==◌, if◌then◌else◌,
  length,
}
use reproduction.Base.Prog.{Prog, pure, crash, ◌>>=◌}
use reproduction.Base.Text.{Bytes}
use reproduction.Libc.Os.{Os}
use reproduction.Wayback.Globals.{Globals, Sizes, Stats}
use reproduction.Wayback.Words.{word}
use reproduction.Wayback.Log.{writebuffer, open_log, now_of}
use reproduction.Wayback.Names.{getdirectorycatalog, makerelative}

-- The `VUD_` constants of waybackfs.h.
pub data Action : Type 0 where
  create rm mkdir rmdir rename chmod chown utime : Action

abbrev pub code_of : Action → ℕ
code_of Action.create = 1
code_of Action.rm = 2
code_of Action.mkdir = 4
code_of Action.rmdir = 5
code_of Action.rename = 8
code_of Action.chmod = 12
code_of Action.chown = 13
code_of Action.utime = 14

-- The six `memcpy`s.
unfoldable pub bufferstats : Sizes → Stats → Bytes
unfolding word
bufferstats sizes stats =
    word sizes.mode_t stats.st_mode
    ++ (word sizes.uid_t stats.st_uid
        ++ (word sizes.gid_t stats.st_gid
            ++ (word sizes.time_t stats.st_atime
                ++ (word sizes.time_t stats.st_mtime ++ word sizes.time_t stats.st_ctime))))

-- `S_ISLNK`.
abbrev pub is_link : ℕ → Bool
is_link mode = mode / 0o10000 % 16 == 10

-- A string with its NUL.
abbrev pub zstring : Bytes → Bytes
zstring s = s ++ (0 ∷ [])

-- The `writebuffer`s of one branch, behind the length in `ret`.
unfoldable pub write_pieces : Bytes → List Bytes → Prog Os (Unit {0})
write_pieces file [] = pure tt
write_pieces file (s ∷ rest) = do _ ← writebuffer file s false; write_pieces file rest

abbrev sized : Sizes → ℕ → List Bytes → List Bytes
sized sizes ret pieces = word sizes.int ret ∷ pieces

-- The `switch`: what each branch writes; a null pointer that it reads is the end of the process.
unfoldable pub pieces : Sizes → Action → Bytes → Option Bytes → Option Stats → Option (List Bytes)
unfolding bufferstats
pieces sizes Action.create path extra stats =
    some (sized sizes (length path + 1) (zstring path ∷ []))
pieces sizes Action.mkdir path extra stats =
    some (sized sizes (length path + 1) (zstring path ∷ []))
pieces sizes Action.rm path extra none = none
pieces sizes Action.rm path none (some stats) =
    if is_link stats.st_mode
    then none
    else some (
        sized sizes (length (bufferstats sizes stats) + (length path + 1))
          (bufferstats sizes stats ∷ zstring path ∷ []))
pieces sizes Action.rm path (some extra) (some stats) =
    if is_link stats.st_mode
    then some (
        sized sizes (length (bufferstats sizes stats) + (length path + 1) + (length extra + 1))
          (bufferstats sizes stats ∷ zstring path ∷ zstring extra ∷ []))
    else some (
        sized sizes (length (bufferstats sizes stats) + (length path + 1))
          (bufferstats sizes stats ∷ zstring path ∷ []))
pieces sizes Action.rmdir path none stats = none
pieces sizes Action.rmdir path (some extra) stats =
    some (sized sizes (length path + length extra + 2) (zstring path ∷ zstring extra ∷ []))
pieces sizes Action.rename path none stats = none
pieces sizes Action.rename path (some extra) stats =
    some (sized sizes (length path + length extra + 2) (zstring path ∷ zstring extra ∷ []))
pieces sizes Action.chmod path extra none = none
pieces sizes Action.chmod path extra (some stats) = some (
    sized sizes (length (bufferstats sizes stats) + (length path + 1))
      (bufferstats sizes stats ∷ zstring path ∷ []))
pieces sizes Action.chown path extra none = none
pieces sizes Action.chown path extra (some stats) = some (
    sized sizes (length (bufferstats sizes stats) + (length path + 1))
      (bufferstats sizes stats ∷ zstring path ∷ []))
pieces sizes Action.utime path extra none = none
pieces sizes Action.utime path extra (some stats) = some (
    sized sizes (length (bufferstats sizes stats) + (length path + 1))
      (bufferstats sizes stats ∷ zstring path ∷ []))

-- `if (extra && action != VUD_RM) extra = makerelative(extra);`
abbrev pub relative_extra : Action → Option Bytes → Option Bytes
relative_extra action none = none
relative_extra Action.rm (some extra) = some extra
relative_extra action (some extra) = some (makerelative extra)

unfoldable pub updatedirectory :
    Sizes → Globals → Action → Bytes → Option Bytes → Option Stats → Prog Os (Unit {0})
unfolding write_pieces
updatedirectory sizes globals action path₀ extra₀ stats = do
  catalogpath ← getdirectorycatalog globals path₀
  elim catalogpath [
    | none ↦ pure tt
    | some file ↦ do
      catalogfile ← open_log file
      if not catalogfile then pure tt else do
        timestamp ← now_of
        let path = makerelative path₀
        let extra = relative_extra action extra₀
        _ ← writebuffer file (word sizes.time_t timestamp ++ word sizes.int (code_of action)) false
        elim (pieces sizes action path extra stats) [
          | none ↦ crash
          | some ps ↦ write_pieces file ps
        ]
  ]
