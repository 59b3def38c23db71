-- ===== src/Libc/Os/Names.antt =====
-- Calls that give files other names, and calls on attributes.
use reproduction.Base.{ℕ, [], ◌∷◌, ◌++◌, Option, none, some, Bool, true, false, ◌==◌, if◌then◌else◌}
use reproduction.Base.Text.{Bytes, str_eq}
use reproduction.Libc.Os.{Os, Node, fail, next_fault, refuse, put, enoent, eexist}

-- What follows the directory in a path that is in it, or the empty text for the path itself.
unfoldable pub under : Bytes → Bytes → Option Bytes
under [] [] = some []
under [] (c ∷ s) = if c == b'/' then some (c ∷ s) else none
under (d ∷ dir) [] = none
under (d ∷ dir) (c ∷ s) = if c == d then under dir s else none

-- The disk behind a move: a directory takes along what is in it.
abbrev pub moved : Bytes → Bytes → (Bytes → Option Node) → Bytes → Option Node
moved from to disk q = elim (under to q) [
  | some rest ↦ disk (from ++ rest)
  | none ↦ elim (under from q) [ some _ ↦ none | none ↦ disk q ]
]

-- `rename`. What is at the new path is replaced; a refusal for any other reason is in the script.
unfoldable pub rename : Bytes → Bytes → Os → Bool × Os
unfolding next_fault under
rename from to os₀ =
    let (f, os) = next_fault os₀ in
    elim f [
      | fail e _ ↦ refuse false e os
      | _ ↦ elim (os.disk from) [
        | none ↦ refuse false enoent os
        | some n ↦
            if str_eq from to
            then (true, os)
            else (true, record os { disk = moved from to os.disk })
      ]
    ]

-- `link`. The two names share the file from then on, which this disk does not show.
unfoldable pub hard_link : Bytes → Bytes → Os → Bool × Os
unfolding next_fault
hard_link from to os₀ =
    let (f, os) = next_fault os₀ in
    elim f [
      | fail e _ ↦ refuse false e os
      | _ ↦ elim (os.disk from) [
        | none ↦ refuse false enoent os
        | some n ↦ elim (os.disk to) [
          | some _ ↦ refuse false eexist os
          | none ↦ (true, record os { disk = put os.disk to (some n) })
        ]
      ]
    ]

-- `chmod`.
unfoldable pub set_mode : Bytes → ℕ → Os → Bool × Os
unfolding next_fault
set_mode path mode os₀ =
    let (f, os) = next_fault os₀ in
    elim f [
      | fail e _ ↦ refuse false e os
      | _ ↦ elim (os.disk path) [
        | none ↦ refuse false enoent os
        | some n ↦ (true, record os { disk = put os.disk path (some (record n { perm = mode })) })
      ]
    ]

-- `lchown` and `utime`: this disk has no owners and no times.
unfoldable pub set_attributes : Bytes → Os → Bool × Os
unfolding next_fault
set_attributes path os₀ =
    let (f, os) = next_fault os₀ in
    elim f [
      | fail e _ ↦ refuse false e os
      | _ ↦ elim (os.disk path) [ none ↦ refuse false enoent os | some n ↦ (true, os) ]
    ]
