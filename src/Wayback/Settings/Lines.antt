-- ===== src/Wayback/Settings/Lines.antt =====
-- What a settings file sets.
use reproduction.Base.{
  ℕ, ◌<◌, ◌≡◌, refl, ap, ◌∙◌, List, [], ◌∷◌, ◌++◌, Bool, true, false, length, arith, All,
}
use reproduction.Base.Text.{Bytes, codes, Lacks}
use reproduction.Libc.Stream.{newline}
use reproduction.Libc.Text.{strip_prefix}
use reproduction.Wayback.Globals.{Globals}
use reproduction.Wayback.Settings.{
  to_newline, strtok_newline, skip, is_blank, separates_value, gotovalue, setting, line_read,
}

-- The text of a file with these lines.
unfoldable pub text_of : List Bytes → Bytes
text_of [] = []
text_of (line ∷ lines) = line ++ (newline ∷ text_of lines)

-- What the lines do, one after the other.
unfoldable applied : List Bytes → Globals → Globals
unfolding line_read
applied [] globals = globals
applied (line ∷ lines) globals = applied lines (line_read (line ++ newline ∷ []) globals)

-- A line that one `fgets` takes whole, without NUL.
abbrev pub IsLine : Bytes → Type 0
IsLine line = Lacks newline line × Lacks 0 line × (length line < 255)

skip-append :
    (p : ℕ → Bool) (a s : Bytes) (c : ℕ)
    → All (λ d. p d ≡ true) a
    → p c ≡ false
    → skip p (a ++ (c ∷ s)) ≡ c ∷ s
unfolding skip
skip-append p [] s c h e = ground (arith, e)
skip-append p (d ∷ a) s c h e = ground (arith, h, skip-append p a s c h.1 e)

to_newline-append :
    (value : Bytes) → Lacks newline value → to_newline (value ++ newline ∷ []) ≡ value
unfolding to_newline
to_newline-append [] h = refl
to_newline-append (c ∷ value) h = ground (arith, h, to_newline-append value h.1)

strtok_newline-append :
    (c : ℕ) (value : Bytes)
    → Lacks newline (c ∷ value)
    → strtok_newline ((c ∷ value) ++ newline ∷ []) ≡ c ∷ value
unfolding strtok_newline
strtok_newline-append c value h = ground (arith, h, to_newline-append (c ∷ value) h)

-- A value behind separators.
gotovalue-append :
    (gap value : Bytes) (c : ℕ)
    → All (λ d. separates_value d ≡ true) gap
    → separates_value c ≡ false
    → Lacks newline (c ∷ value)
    → gotovalue (gap ++ ((c ∷ value) ++ newline ∷ [])) ≡ c ∷ value
unfolding gotovalue
gotovalue-append gap value c g s h =
    ap strtok_newline (skip-append separates_value gap (value ++ newline ∷ []) c g s)
    ∙ strtok_newline-append c value h

-- A line that sets the modifier of versions sets it to the value behind the name, blanks and equality
-- signs, without the newline.
pub line_read-versionmodifier :
    (gap value : Bytes) (c : ℕ) (globals : Globals)
    → All (λ d. separates_value d ≡ true) gap
    → separates_value c ≡ false
    → Lacks newline (c ∷ value)
    → line_read (codes "versionmodifier" ++ (gap ++ ((c ∷ value) ++ newline ∷ []))) globals
      ≡ record globals { versionmodifier = c ∷ value }
unfolding line_read setting skip strip_prefix
line_read-versionmodifier gap value c globals g s h =
    ap (λ v. record globals { versionmodifier = v }) (gotovalue-append gap value c g s h)

-- A line that sets the modifier of deleted directories sets it to the text `ier` and all that stands
-- behind the name, since only twelve of the fifteen bytes of its name are skipped. The rest of
-- the line has no newline but the one at its end.
pub line_read-deletedmodifier :
    (rest : Bytes) (globals : Globals)
    → Lacks newline rest
    → line_read (codes "deletedmodifier" ++ (rest ++ newline ∷ [])) globals
      ≡ record globals { deletedmodifier = codes "ier" ++ rest }
unfolding line_read setting skip strip_prefix gotovalue strtok_newline to_newline
line_read-deletedmodifier rest globals h =
    ap (λ v. record globals { deletedmodifier = codes "ier" ++ v }) (to_newline-append rest h)

-- The lines of a settings file: a remark, an empty line, and the settings of the two modifiers, behind
-- blanks. The value of the first stands behind a gap, and begins with a byte.
pub data Setting : Type 0 where
  remark : Bytes → Setting
  empty : Setting
  versions : Bytes → Bytes → ℕ → Bytes → Setting
  deleted : Bytes → Bytes → Setting

abbrev pub line_of : Setting → Bytes
line_of (remark text) = b'#' ∷ text
line_of empty = []
line_of (versions indent gap c value) = indent ++ (codes "versionmodifier" ++ (gap ++ (c ∷ value)))
line_of (deleted indent rest) = indent ++ (codes "deletedmodifier" ++ rest)

abbrev pub IsSetting : Setting → Type 0
IsSetting (remark text) = Unit
IsSetting empty = Unit
IsSetting (versions indent gap c value) =
    All (λ d. is_blank d ≡ true) indent
    × All (λ d. separates_value d ≡ true) gap
    × (separates_value c ≡ false)
    × Lacks newline (c ∷ value)
IsSetting (deleted indent rest) = All (λ d. is_blank d ≡ true) indent × Lacks newline rest

-- What is meant by the settings: the last one of each modifier counts. The modifier of deleted
-- directories gets the text `ier` in front, for the code skips three bytes too few of its name.
abbrev pub settled : List Setting → Globals → Globals
settled [] globals = globals
settled (remark text ∷ settings) globals = settled settings globals
settled (empty ∷ settings) globals = settled settings globals
settled (versions indent gap c value ∷ settings) globals =
    settled settings (record globals { versionmodifier = c ∷ value })
settled (deleted indent rest ∷ settings) globals =
    settled settings (record globals { deletedmodifier = codes "ier" ++ rest })
