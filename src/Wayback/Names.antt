-- ===== src/Wayback/Names.antt =====
-- waybackfsvops.c and wayback.c: the names of catalogs and of deleted directories, and the names that
-- a listing leaves out.
pub mod Deleted
pub mod Free
pub mod Parts
pub mod Hidden
use mathlib.Core.List.{reverse}
use reproduction.Base.{
  ℕ, zero, suc, ◌+◌, ◌-◌, List, [], ◌∷◌, ◌++◌, Option, none, some, Bool, true, false, not, ◌&&◌,
  ◌||◌, leb, ltb, ◌==◌, if◌then◌else◌, length, drop,
}
use reproduction.Base.Prog.{Prog, pure, crash, call, ◌>>=◌, ◌>>◌}
use reproduction.Base.Text.{Bytes, codes, str_eq}
use reproduction.Libc.Os.{Os, Node, lstat, enoent}
use reproduction.Libc.Print.{print_nat}
use reproduction.Libc.Text.{strip_prefix}
use reproduction.Wayback.Globals.{Globals}

abbrev slash : ℕ
slash = b'/'

-- `while (dircatalog[0] != '\0' && <the last byte> != '/') <drop it>`, from the back.
unfoldable pub back_to_slash : Bytes → Bytes
back_to_slash [] = []
back_to_slash (c ∷ s) = if c == slash then c ∷ s else back_to_slash s

-- A `/` at the end is dropped before.
abbrev pub drop_slash : Bytes → Bytes
drop_slash [] = []
drop_slash (c ∷ s) = if c == slash then s else c ∷ s

-- `getdirectorycatalog`: NULL for a path with no directory. On an empty path the code reads in front
-- of its buffer.
unfoldable pub getdirectorycatalog : Globals → Bytes → Prog Os (Option Bytes)
unfolding back_to_slash
getdirectorycatalog globals [] = crash
getdirectorycatalog globals (c ∷ path) =
    let dircatalog = reverse (back_to_slash (drop_slash (reverse (c ∷ path)))) in
    pure (elim dircatalog [ [] ↦ none | d ∷ dir ↦ some ((d ∷ dir) ++ globals.versionmodifier) ])

-- The search for the next `/`, and on from behind it; `needle` is where the last search began.
unfoldable pub last_part : Bytes → Bytes → Bytes
last_part needle [] = needle
last_part needle (c ∷ source) = last_part (if c == slash then source else needle) source

unfoldable pub makerelative : Bytes → Bytes
unfolding last_part
makerelative source = last_part source source

-- `strstr`: what stands behind the first place of the needle, and the text one byte behind the
-- beginning of that place.
unfoldable pub strstr : Bytes → Bytes → Option (Bytes × Bytes)
unfolding strip_prefix
strstr needle [] = none
strstr needle (c ∷ haystack) =
    let later = strstr needle haystack in
    elim (strip_prefix needle (c ∷ haystack)) [
      | some behind ↦ some (behind, haystack)
      | none ↦ later
    ]

-- `while ((haystack = strstr(haystack, needle)))`: what stands behind the last place.
unfoldable pub last_place : ℕ → Bytes → Bytes → Option Bytes → Option (Option Bytes)
unfolding strstr
last_place zero needle haystack cursubstr = none
last_place (suc fuel) needle haystack cursubstr = elim (strstr needle haystack) [
  | none ↦ some cursubstr
  | some (behind, next) ↦ last_place fuel needle next (some behind)
]

-- `isdigit`.
abbrev pub is_digit : ℕ → Bool
is_digit c = leb b'0' c && leb c b'9'

unfoldable pub all_digits : Bytes → Bool
all_digits [] = true
all_digits (c ∷ s) = is_digit c && all_digits s

-- `matchesdeleted`, with a round for every byte. With an empty needle the code runs off the end of
-- the text.
unfoldable pub matchesdeleted : Bytes → Bytes → Option Bool
unfolding last_place all_digits
matchesdeleted haystack [] = none
matchesdeleted haystack (d ∷ needle) =
    elim (last_place (length haystack + 1) (d ∷ needle) haystack none) [
      | none ↦ none
      | some none ↦ some false
      | some (some behind) ↦ some (all_digits behind)
    ]

-- `!strcmp(suffix, &s[strlen(s) - strlen(suffix)])`, where the suffix is not longer than the text.
unfoldable pub ends_with : Bytes → Bytes → Bool
ends_with s suffix =
    leb (length suffix) (length s) && str_eq suffix (drop (length s - length suffix) s)

-- The test in `ver_getdir` for a name that is left out.
unfoldable pub hides : Globals → Bytes → Option Bool
unfolding matchesdeleted ends_with
hides globals name =
    if ltb (length globals.deletedmodifier) (length name)
    then elim (matchesdeleted name globals.deletedmodifier) [
      | none ↦ none
      | some deleted ↦ some (deleted || ends_with name globals.versionmodifier)
    ]
    else some (ends_with name globals.versionmodifier)

abbrev pub eacces : ℕ
eacces = 13

abbrev errno_of : Prog Os ℕ
errno_of os = some (os.errno, os)

-- The numbered names, from `addedint` on; `none` is NULL.
unfoldable pub free_name : ℕ → Bytes → ℕ → Prog Os (Option Bytes)
free_name zero deletedpath addedint = crash
free_name (suc fuel) deletedpath addedint = do
  let newdeletedpath = deletedpath ++ print_nat 10 addedint
  stats ← call (lstat newdeletedpath)
  e ← errno_of
  elim stats [
    | some n ↦ free_name fuel deletedpath (addedint + 1)
    | none ↦ elim (e == eacces) [
      | true ↦ free_name fuel deletedpath (addedint + 1)
      | false ↦ pure (if e == enoent then some newdeletedpath else none)
    ]
  ]

-- `ver_deletedpath`, with the path as it is left, less a final `/`. `fuel` bounds the numbers that are
-- tried; the code has no bound. On an empty path the code reads in front of the text.
unfoldable pub deletedpath : ℕ → Globals → Bytes → Prog Os (Bytes × Option Bytes)
unfolding free_name
deletedpath fuel globals [] = crash
deletedpath fuel globals (c ∷ path₀) = do
  let path = reverse (drop_slash (reverse (c ∷ path₀)))
  let deleted = path ++ globals.deletedmodifier
  stats ← call (lstat deleted)
  e ← errno_of
  elim stats [
    | some n ↦ do found ← free_name fuel deleted 1; pure (path, found)
    | none ↦
        if e == enoent
        then pure (path, some deleted)
        else if e == eacces
        then (do found ← free_name fuel deleted 1; pure (path, found))
        else pure (path, none)
  ]
