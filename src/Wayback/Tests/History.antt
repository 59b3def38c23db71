-- ===== src/Wayback/Tests/History.antt =====
-- Histories of one file.
use reproduction.Base.{◌≡◌, refl, inr, List, [], ◌∷◌, ◌++◌, some, true, false, arith}
use reproduction.Base.Text.{Bytes, codes, str_eq}
use reproduction.Base.Int.{pos}
use reproduction.Libc.Os.{pass, fail, put}
use reproduction.Libc.Os.{Os}
use reproduction.Libc.Os.Access.{overwritten}
use reproduction.Wayback.Globals.{defaults, ilp32}
use reproduction.Wayback.Log.{updateversion}
use reproduction.Wayback.Log.Entry.{Entry, entry_for, encode}
use reproduction.Wayback.Log.Appended.{logged, updateversion-logged}
use reproduction.Wayback.Tools.{vrevert}
use reproduction.Wayback.Tools.ReadFile.{encode_all}
use reproduction.Wayback.History.{
  Change, Event, contents_after, entries_of, older, results_of, perform, contents_of, Holds,
}
use reproduction.Wayback.History.Performed.{perform-Holds}
use reproduction.Wayback.History.Reverted.{vrevert-perform}
use reproduction.Wayback.Callbacks.{ver_write}
use reproduction.Wayback.Callbacks.Unlogged.{ver_write_unlogged}
use reproduction.Wayback.Tests.{small_host, file_node, disk_with}

abbrev log_path : Bytes
log_path = codes "//f" ++ defaults.versionmodifier

-- A write inside the file, a truncation, and a write that makes the file longer.
abbrev events : List Event
events =
    (5, Change.written 1 b'u' (codes "l"))
    ∷ (9, Change.truncated 3)
    ∷ (12, Change.written 2 b'x' (codes "yz"))
    ∷ []

vrevert-perform_example :
    (os' : Os) × (perform small_host defaults (codes "/f") events (disk_with file_node)
      ≡ some (results_of events, os'))
    × (vrevert 9 (contents_of (os'.disk log_path)) (contents_of (os'.disk (codes "//f")))
        ≡ some (contents_after (older 9 events) (codes "hello")))
unfolding str_eq
vrevert-perform_example =
    vrevert-perform small_host defaults (codes "/f") file_node events 9 (disk_with file_node) refl
      (omega arith) (refl, refl, refl, refl)
      ((refl, refl, refl), ((refl, refl, refl), ((refl, refl, refl), tt)))
      (
        omega arith,
        inr (omega arith),
        (omega arith, inr (omega arith), (omega arith, inr (omega arith), tt)),
      )

-- The contents that it gives back.
older_contents : contents_after (older 9 events) (codes "hello") ≡ codes "hullo"
unfolding contents_after older
older_contents = refl

perform-Holds_example :
    (os' : Os) × (perform small_host defaults (codes "/f") events (disk_with file_node)
      ≡ some (results_of events, os'))
    × Holds
        (codes "//f")
        log_path
        file_node
        (contents_after events (codes "hello"))
        (encode_all ilp32 (entries_of events (codes "hello")))
        os'
unfolding str_eq
perform-Holds_example =
    perform-Holds small_host defaults (codes "/f") (omega arith) file_node (codes "hello") [] events
      (disk_with file_node) (refl, refl, refl, refl)
      ((refl, refl, refl), ((refl, refl, refl), ((refl, refl, refl), tt)))

updateversion-logged_example :
    updateversion ilp32 defaults (codes "//f") 2 1 false (disk_with file_node)
    ≡ some (
      tt,
      logged log_path (encode ilp32 (entry_for 7 false 1 2 (codes "hello"))) (disk_with file_node),
    )
unfolding str_eq
updateversion-logged_example =
    updateversion-logged ilp32 defaults (codes "//f") 2 1 false file_node (disk_with file_node) refl
      refl refl refl

abbrev two_entries : List Entry
two_entries =
    record { time = 5; offset = 1; saved = codes "el"; to_end = false }
    ∷ record { time = 70000; offset = 3; saved = []; to_end = true }
    ∷ []

-- The disk is full of files, and neither mode of opening makes one more.
abbrev no_room : Os
no_room = record (disk_with file_node) { faults = pass ∷ fail 28 0 ∷ fail 28 0 ∷ [] }

ver_write_unlogged_example :
    ver_write small_host defaults (codes "/f") (codes "xy") 1 no_room
    ≡ some (
      pos 2,
      record no_room {
        disk =
            put no_room.disk
              (codes "//f")
              (some (record file_node { contents = overwritten 1 (codes "xy") (codes "hello") }));
        faults = [];
        errno = 28;
      },
    )
unfolding str_eq
ver_write_unlogged_example =
    ver_write_unlogged small_host defaults (codes "/f") (codes "xy") 1 file_node 28 0 28 0 no_room
      refl refl
