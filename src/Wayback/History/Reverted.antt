-- ===== src/Wayback/History/Reverted.antt =====
-- The tool takes back a history to a date.
use reproduction.Base.{
  ℕ, ◌-◌, ◌≤◌, ◌<◌, ◌≡◌, refl, ap, ◌∙◌, subst⁻¹, inl, inr, true, ◌^◌, List, [], ◌∷◌, ◌++◌, some,
  length, arith, ltb, All, Bool-cases,
}
use mathlib.Core.List.{append-nil}
use reproduction.Base.Text.{Bytes}
use reproduction.Libc.Os.{Os, Node}
use reproduction.Libc.Os.Access.{zeros}
use reproduction.Wayback.Globals.{Globals, Host, Sizes, ilp32}
use reproduction.Wayback.Log.Entry.{revert}
use reproduction.Wayback.Log.Undo.{Cuts, revert-write, revert-truncate}
use reproduction.Wayback.Tools.{since, revert_all, vrevert, readfile}
use reproduction.Wayback.Tools.ReadFile.{FitsEntry, encode_all, readfile-encode_all}
use reproduction.Wayback.History.{
  Change, Event, changed, entry_of, contents_after, entries_of, Fit, Within, starts_at, older,
  results_of, perform, contents_of, Holds,
}
use reproduction.Wayback.History.Performed.{perform-Holds}

zeros_none : (n k : ℕ) (s : Bytes) → n ≤ k → s ++ zeros (n - k) ≡ s
zeros_none n k s h = let z : n - k ≡ 0 = omega (arith, h) in rw (z, zeros, append-nil)

Cuts-true : (n : ℕ) → Cuts n true → n < 2 ^ 32
Cuts-true n (inl e) = ground (arith, e)
Cuts-true n (inr h) = h

-- A change that begins inside the file is taken back by its entry.
revert-changed :
    (time : ℕ) (change : Change) (s : Bytes)
    → starts_at change ≤ length s
    → Cuts (starts_at change) ((entry_of time change s).to_end)
    → revert (entry_of time change s) (changed change s) ≡ s
revert-changed time (Change.written offset b buf) s h c =
    revert-write time offset b buf s c ∙ zeros_none offset (length s) s h
revert-changed time (Change.truncated size) s h c =
    revert-truncate time size 0 s (Cuts-true size c) ∙ zeros_none size (length s) s h

-- All entries take back the whole history.
revert_all-entries_of :
    (events : List Event) (s : Bytes)
    → Within events s
    → revert_all (entries_of events s) (contents_after events s) ≡ s
unfolding revert_all entries_of contents_after
revert_all-entries_of [] s h = refl
revert_all-entries_of ((time, change) ∷ events) s h =
    ap (revert (entry_of time change s)) (revert_all-entries_of events (changed change s) h.2)
    ∙ revert-changed time change s h.0 h.1

time_of : (time : ℕ) (change : Change) (s : Bytes) → (entry_of time change s).time ≡ time
time_of time (Change.written offset b buf) s = refl
time_of time (Change.truncated size) s = refl

-- The entries since a date take back what is not older.
revert_all-since :
    (date : ℕ) (events : List Event) (s : Bytes)
    → Within events s
    → revert_all (since date (entries_of events s)) (contents_after events s)
      ≡ contents_after (older date events) s
unfolding since older entries_of contents_after
revert_all-since date [] s h = revert_all-entries_of [] s h
revert_all-since date ((time, change) ∷ events) s h =
    let t = time_of time change s in
    elim (Bool-cases (ltb time date)) [
      | inl e ↦ ground (arith, e, t, revert_all-since date events (changed change s) h.2)
      | inr e ↦ ground (arith, e, t, revert_all-entries_of ((time, change) ∷ events) s h)
    ]

All-entries_of :
    (sizes : Sizes) (events : List Event) (s : Bytes)
    → Fit sizes events s
    → All (FitsEntry sizes) (entries_of events s)
unfolding entries_of
All-entries_of sizes [] s h = tt
All-entries_of sizes ((time, change) ∷ events) s h =
    (h.0, All-entries_of sizes events (changed change s) h.1)

-- After a history of writes and truncations through the daemon, on a file that has no log before,
-- vrevert with any date makes of the file and its log the contents that the file had before the
-- first change that is not older than the date. The daemon is built with 32-bit types and a
-- modifier that is not empty, the file is there, no call fails, each change begins inside the file or
-- at its end, a change that reaches or moves the end begins before 2 ^ 32, and the numbers fit into
-- the log.
pub vrevert-perform :
    (host : Host) (globals : Globals) (path : Bytes) (n : Node) (events : List Event) (date : ℕ)
    (os : Os)
    → host.sizes ≡ ilp32
    → 0 < length globals.versionmodifier
    → Holds
        (globals.redirectpath ++ path)
        ((globals.redirectpath ++ path) ++ globals.versionmodifier)
        n
        n.contents
        []
        os
    → Fit ilp32 events n.contents
    → Within events n.contents
    → (os' : Os) × (perform host globals path events os ≡ some (results_of events, os'))
      × (vrevert date
            (contents_of (os'.disk ((globals.redirectpath ++ path) ++ globals.versionmodifier)))
            (contents_of (os'.disk (globals.redirectpath ++ path)))
          ≡ some (contents_after (older date events) n.contents))
unfolding vrevert
vrevert-perform host globals path n events date os e named h fit within =
    let (os', done, end) =
      perform-Holds host globals path named n n.contents [] events os h
        (subst⁻¹ (λ z. Fit z events n.contents) e fit) in
    let read : readfile
          (contents_of (os'.disk ((globals.redirectpath ++ path) ++ globals.versionmodifier)))
        ≡ some (entries_of events n.contents) =
      ap readfile (end.2 ∙ ap (λ z. encode_all z (entries_of events n.contents)) e)
      ∙ readfile-encode_all (entries_of events n.contents)
          (All-entries_of ilp32 events n.contents fit) in
    (os', done, ground (arith, read, end, revert_all-since date events n.contents within))
