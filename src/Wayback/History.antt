-- ===== src/Wayback/History.antt =====
-- A file under the daemon of fs/waybackfs, as a history of writes and truncations: what the calls do
-- to its contents and to its log.
pub mod Performed
pub mod Reverted
pub mod Catalogued
pub mod Unlinked
use reproduction.Base.{
  ℕ, ◌+◌, ◌≤◌, ◌≡◌, List, [], ◌∷◌, ◌++◌, Option, none, some, Bool, true, false, ltb, if◌then◌else◌,
  length,
}
use reproduction.Base.Int.{ℤ, pos}
use reproduction.Base.Prog.{Prog, pure, ◌>>=◌}
use reproduction.Base.Text.{Bytes}
use reproduction.Libc.Os.{Os, Node, is_directory}
use reproduction.Libc.Os.Access.{overwritten, resized}
use reproduction.Wayback.Globals.{Globals, Host, Sizes}
use reproduction.Wayback.Log.Entry.{Entry, entry_for}
use reproduction.Wayback.Log.Undo.{Cuts}
use reproduction.Wayback.Callbacks.{ver_write, ver_truncate}
use reproduction.Wayback.Tools.ReadFile.{FitsEntry}

-- A write of the bytes at the offset, of one byte at least, or a truncation to a length.
pub data Change : Type 0 where
  written : ℕ → ℕ → Bytes → Change
  truncated : ℕ → Change

-- A change and the time of it.
abbrev pub Event : Type 0
Event = ℕ × Change

-- What a change makes of the contents, and the entry that takes it back.
abbrev pub changed : Change → Bytes → Bytes
changed (Change.written offset b buf) s = overwritten offset (b ∷ buf) s
changed (Change.truncated size) s = resized size s

abbrev pub entry_of : ℕ → Change → Bytes → Entry
entry_of time (Change.written offset b buf) s = entry_for time false offset (length (b ∷ buf)) s
entry_of time (Change.truncated size) s = entry_for time true size 0 s

unfoldable pub contents_after : List Event → Bytes → Bytes
contents_after [] s = s
contents_after ((time, change) ∷ events) s = contents_after events (changed change s)

unfoldable pub entries_of : List Event → Bytes → List Entry
entries_of [] s = []
entries_of ((time, change) ∷ events) s =
    entry_of time change s ∷ entries_of events (changed change s)

-- The numbers of all entries have room in the types.
abbrev pub Fit : Sizes → List Event → Bytes → Type 0
Fit sizes [] s = Unit
Fit sizes ((time, change) ∷ events) s =
    FitsEntry sizes (entry_of time change s) × Fit sizes events (changed change s)

-- Every change begins inside the file that it meets, or at its end, and before 2 ^ 32 if its entry
-- cuts the file.
abbrev starts_at : Change → ℕ
starts_at (Change.written offset b buf) = offset
starts_at (Change.truncated size) = size

abbrev pub Within : List Event → Bytes → Type 0
Within [] s = Unit
Within ((time, change) ∷ events) s =
    (starts_at change ≤ length s)
    × Cuts (starts_at change) ((entry_of time change s).to_end)
    × Within events (changed change s)

-- The part of a history that is older than a date, up to the first change that is not.
unfoldable pub older : ℕ → List Event → List Event
older date [] = []
older date ((time, change) ∷ events) =
    let rest = older date events in if ltb time date then (time, change) ∷ rest else []

-- The results of the calls.
unfoldable pub results_of : List Event → List ℤ
results_of [] = []
results_of ((time, Change.written offset b buf) ∷ events) =
    pos (length (b ∷ buf)) ∷ results_of events
results_of ((time, Change.truncated size) ∷ events) = pos 0 ∷ results_of events

module _ (host : Host) (globals : Globals) (path : Bytes) where
  abbrev pub call_of : Change → Prog Os ℤ
  call_of (Change.written offset b buf) = ver_write host globals path (b ∷ buf) offset
  call_of (Change.truncated size) = ver_truncate host globals path size

  -- The calls of a history, each at its time.
  unfoldable pub perform : List Event → Prog Os (List ℤ)
  unfolding ver_write ver_truncate
  perform [] = pure []
  perform ((time, change) ∷ events) = do
    result ← λ os. call_of change (record os { now = time })
    results ← perform events
    pure (result ∷ results)

abbrev pub contents_of : Option Node → Bytes
contents_of none = []
contents_of (some n) = n.contents

-- The disk has the file with these contents at the first path, and the log at the second, where a
-- log that is not there is empty.
abbrev pub Holds : Bytes → Bytes → Node → Bytes → Bytes → Os → Type 0
Holds file log n s entries os =
    (os.faults ≡ [])
    × (os.disk file ≡ some (record n { contents = s }))
    × (contents_of (os.disk log) ≡ entries)
    × (is_directory (os.disk log) ≡ false)
