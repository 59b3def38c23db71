-- ===== src/Wayback/Log/Entry.antt =====
-- An entry of a version file, and what the tool vrevert of fs/waybackfs/box/source/vutils.pl does
-- with it.
use reproduction.Base.{ℕ, ◌+◌, ◌%◌, ◌^◌, ◌++◌, Bool, ◌||◌, ltb, if◌then◌else◌, length, drop, take}
use reproduction.Base.Text.{Bytes}
use reproduction.Libc.Os.Access.{overwritten, resized}
use reproduction.Wayback.Globals.{Sizes}
use reproduction.Wayback.Log.{header}

pub record Entry : Type 0 where
  pub time : ℕ
  pub offset : ℕ
  pub saved : Bytes
  pub to_end : Bool

-- How the entry stands in the file.
unfoldable pub encode : Sizes → Entry → Bytes
unfolding header
encode sizes e = header sizes e.time e.offset (length e.saved) e.to_end ++ e.saved

-- The entry for a write of `size` bytes, or a truncation, at the offset of a file with these
-- contents.
abbrev pub entry_for : ℕ → Bool → ℕ → ℕ → Bytes → Entry
entry_for time truncate offset size s = record {
  time = time;
  offset = offset;
  saved = if truncate then drop offset s else take size (drop offset s);
  to_end = truncate || ltb (length (drop offset s)) size;
}

-- `revertfileentry`: the saved bytes are written back, and then the file is cut if the change met its
-- end. The seek takes the whole offset, but the cut only its low half, the `offset` of the tool.
unfoldable pub revert : Entry → Bytes → Bytes
revert e s =
    let t = overwritten e.offset e.saved s in
    if e.to_end then resized (e.offset % 2 ^ 32 + length e.saved) t else t
