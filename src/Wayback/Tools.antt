-- ===== src/Wayback/Tools.antt =====
-- fs/waybackfs/box/source/vutils.pl: how the tool vrevert reads a version file and undoes changes.
pub mod ReadFile
pub mod Directory
use reproduction.Base.{
  ℕ, zero, suc, ◌+◌, ◌*◌, ◌^◌, List, [], ◌∷◌, ◌++◌, Option, none, some, Bool, true, false, not,
  ◌&&◌, ltb, ◌==◌, if◌then◌else◌, length, drop, take,
}
use reproduction.Base.Text.{Bytes}
use reproduction.Wayback.Words.{read_word}
use reproduction.Wayback.Log.Entry.{Entry, revert}

-- What stands in front of the saved bytes, with their number in place of them, and the rest.
pub record Header : Type 0 where
  pub time : ℕ
  pub offset : ℕ
  pub moreoffset : ℕ
  pub size : ℕ
  pub trunc : ℕ

-- The 17 bytes of a header.
unfoldable pub read_header : Bytes → Option (Header × Bytes)
unfolding read_word
read_header s = elim (read_word 4 s) [
  | none ↦ none
  | some (time, s₁) ↦ elim (read_word 4 s₁) [
    | none ↦ none
    | some (offset, s₂) ↦ elim (read_word 4 s₂) [
      | none ↦ none
      | some (moreoffset, s₃) ↦ elim (read_word 4 s₃) [
        | none ↦ none
        | some (size, []) ↦ none
        | some (size, trunc ∷ rest) ↦ some (
          record {
            time = time;
            offset = offset;
            moreoffset = moreoffset;
            size = size;
            trunc = trunc;
          },
          rest,
        )
      ]
    ]
  ]
]

-- The place that the two seeks of `revertfileentry` reach stands for the two halves, of which the
-- low one is the remainder by 2 ^ 32.
abbrev pub entry_with : Header → Bytes → Entry
entry_with h saved = record {
  time = h.time;
  offset = h.offset + 2 ^ 32 * h.moreoffset;
  saved = saved;
  to_end = not (h.trunc == 0);
}

-- The loop of `readfile`, oldest entry first. `none` is a header that is cut short, whose missing
-- fields are undefined in the tool.
unfoldable pub read_entries : ℕ → Bytes → Option (List Entry)
unfolding read_header
read_entries zero s = none
read_entries (suc fuel) [] = some []
read_entries (suc fuel) (b ∷ s) = elim (read_header (b ∷ s)) [
  | none ↦ none
  | some (h, rest) ↦
      if not (h.size == 0) && length rest == 0
      then some []
      else elim (read_entries fuel (drop h.size rest)) [
        | none ↦ none
        | some es ↦ some (entry_with h (take h.size rest) ∷ es)
      ]
]

unfoldable pub readfile : Bytes → Option (List Entry)
unfolding read_entries
readfile s = read_entries (length s + 1) s

-- The entries from the first one on that is not older than the date.
unfoldable pub since : ℕ → List Entry → List Entry
since lookupdate [] = []
since lookupdate (e ∷ es) = if ltb e.time lookupdate then since lookupdate es else e ∷ es

-- The newest entry is undone first.
unfoldable pub revert_all : List Entry → Bytes → Bytes
unfolding revert
revert_all [] s = s
revert_all (e ∷ es) s = revert e (revert_all es s)

-- `vrevert` of a file with a date, for the contents of the file and of its version file.
unfoldable pub vrevert : ℕ → Bytes → Bytes → Option Bytes
unfolding readfile since revert_all
vrevert lookupdate log s = elim (readfile log) [
  | none ↦ none
  | some es ↦ some (revert_all (since lookupdate es) s)
]
