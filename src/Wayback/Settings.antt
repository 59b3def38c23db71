-- ===== src/Wayback/Settings.antt =====
-- waybackfsvops.c and `main` of wayback.c: the settings file, the arguments and the redirect path.
pub mod Lines
pub mod Arguments
use mathlib.Core.List.{reverse}
use reproduction.Base.{
  ℕ, zero, suc, ◌+◌, List, [], ◌∷◌, ◌++◌, Option, none, some, Bool, true, false, not, ◌||◌, ◌==◌,
  if◌then◌else◌, length, take,
}
use reproduction.Base.Int.{ℤ}
use reproduction.Base.Prog.{Prog, pure, call, ◌>>=◌}
use reproduction.Base.Text.{Bytes, codes}
use reproduction.Libc.Os.{Os, fopen_read}
use reproduction.Libc.Stream.{Stream, fgets, newline}
use reproduction.Libc.Text.{c_string, strip_prefix}
use reproduction.Libc.Print.{print_int}
use reproduction.Libc.Integer.{scan_atoi}
use reproduction.Wayback.Globals.{Globals, defaults}

-- The part of a text in front of the first newline.
unfoldable pub to_newline : Bytes → Bytes
to_newline [] = []
to_newline (c ∷ s) = let rest = c ∷ to_newline s in if c == newline then [] else rest

-- `strtok(s, "\n")`, as it leaves the text: newlines in front stay, the next one ends it.
unfoldable pub strtok_newline : Bytes → Bytes
unfolding to_newline
strtok_newline [] = []
strtok_newline (c ∷ s) =
    let rest = c ∷ strtok_newline s in if c == newline then rest else to_newline (c ∷ s)

abbrev pub is_blank : ℕ → Bool
is_blank c = c == b' ' || c == 9

-- Bytes in front that pass the test are skipped.
unfoldable pub skip : (ℕ → Bool) → Bytes → Bytes
skip p [] = []
skip p (c ∷ s) = if p c then skip p s else c ∷ s

abbrev pub separates_value : ℕ → Bool
separates_value c = is_blank c || c == b'='

unfoldable pub gotovalue : Bytes → Bytes
unfolding skip strtok_newline
gotovalue parseline = strtok_newline (skip separates_value parseline)

-- A line that is no comment.
unfoldable pub setting : Bytes → Globals → Globals
unfolding strip_prefix gotovalue
setting parseline globals = elim (strip_prefix (take 12 (codes "deletedmodifier")) parseline) [
  | some value ↦ record globals { deletedmodifier = gotovalue value }
  | none ↦ elim (strip_prefix (codes "versionmodifier") parseline) [
    | some value ↦ record globals { versionmodifier = gotovalue value }
    | none ↦ globals
  ]
]

-- The body of the loop, for what is in the buffer.
unfoldable pub line_read : Bytes → Globals → Globals
unfolding skip setting
line_read [] globals = setting [] globals
line_read (c ∷ fileline) globals =
    if c == b'#' then globals else setting (skip is_blank (c ∷ fileline)) globals

-- `while (fgets(fileline, 256, settings))`; `none` is that the rounds are not enough.
unfoldable pub read_lines : ℕ → Stream → Globals → Option Globals
unfolding fgets line_read c_string
read_lines zero settings globals = none
read_lines (suc fuel) settings globals =
    let (fileline, settings') = fgets 256 settings in
    elim fileline [
      | none ↦ some globals
      | some s ↦ read_lines fuel settings' (line_read (c_string s) globals)
    ]

-- A round for each byte, and one that finds the end.
unfoldable pub readsettings : Stream → Globals → Option Globals
unfolding read_lines
readsettings settings globals = read_lines (length settings.unread + 1) settings globals

abbrev pub is_option : Bytes → Bool
is_option [] = false
is_option (c ∷ s) = c == b'-'

unfoldable pub filter : (Bytes → Bool) → List Bytes → List Bytes
filter p [] = []
filter p (s ∷ args) = let rest = filter p args in if p s then s ∷ rest else rest

-- The six leading places and the options; `none` is NULL.
unfoldable pub parseargs : List Bytes → Option (List Bytes)
unfolding filter print_int
parseargs argv = elim (filter (λ s. not (is_option s)) argv) [
  | program ∷ source ∷ destination ∷ [] ↦
      let options = codes "-s" ∷ codes "-s" ∷ filter is_option argv in
      some (source ∷ take 14 (print_int (2 + length options)) ∷ program ∷ destination ∷ options)
  | _ ↦ none
]

-- The redirect path is made absolute, and ends in a slash.
unfoldable pub absolute : Bytes → Bytes → Bytes
absolute cwd [] = cwd ++ codes "/"
absolute cwd (c ∷ path) = if c == b'/' then c ∷ path else cwd ++ (b'/' ∷ c ∷ path)

unfoldable pub with_slash : Bytes → Bytes
with_slash path = elim (reverse path) [
  | [] ↦ codes "/"
  | c ∷ _ ↦ if c == b'/' then path else path ++ codes "/"
]

-- `main` up to `fuse_main`: the globals, and the two arguments that it is given. `none` is
-- `exit(1)`.
unfoldable pub main : Bytes → List Bytes → Prog Os (Option (Globals × (ℤ × List Bytes)))
unfolding parseargs absolute with_slash readsettings scan_atoi
main cwd argv = elim (parseargs argv) [
  | some (source ∷ count ∷ args) ↦ do
    let redirectpath = with_slash (absolute cwd source)
    settings ← call (fopen_read (redirectpath ++ codes ".versionfs"))
    let globals = record defaults { redirectpath = redirectpath }
    let found : Option Globals = elim settings [
      | none ↦ some globals
      | some fh ↦ readsettings fh globals
    ]
    elim found [
      | none ↦ λ os. none
      | some globals' ↦ pure (some (globals', (scan_atoi count, args)))
    ]
  | _ ↦ pure none
]
