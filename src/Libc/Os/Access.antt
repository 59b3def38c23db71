-- ===== src/Libc/Os/Access.antt =====
-- Calls on directories, and on parts of files by their offset.
use reproduction.Base.{
  ℕ, [], ◌∷◌, ◌++◌, Option, none, some, Bool, true, false, take, drop, length, zero, suc, ◌+◌, ◌-◌,
}
use reproduction.Base.Text.{Bytes}
use reproduction.Libc.Os.{Os, Node, directory, pass, fail, short, next_fault, refuse, put, enoent}

abbrev pub enotdir : ℕ
enotdir = 20

-- `opendir`; the listing is the environment's.
unfoldable pub opendir : Bytes → Os → Bool × Os
unfolding next_fault
opendir path os₀ =
    let (f, os) = next_fault os₀ in
    elim f [
      | fail e _ ↦ refuse false e os
      | _ ↦ elim (os.disk path) [
        | none ↦ refuse false enoent os
        | some n ↦ elim n.kind [ directory ↦ (true, os) | _ ↦ refuse false enotdir os ]
      ]
    ]

abbrev pub zeros : ℕ → Bytes
zeros zero = []
zeros (suc n) = 0 ∷ zeros n

-- A file's contents cut or filled up with zeros to a size.
abbrev pub resized : ℕ → Bytes → Bytes
resized size s = take size s ++ zeros (size - length s)

-- `truncate`.
unfoldable pub truncate : Bytes → ℕ → Os → Bool × Os
unfolding next_fault
truncate path size os₀ =
    let (f, os) = next_fault os₀ in
    elim f [
      | fail e _ ↦ refuse false e os
      | _ ↦ elim (os.disk path) [
        | none ↦ refuse false enoent os
        | some n ↦ (
          true,
          record os {
            disk = put os.disk path (some (record n { contents = resized size n.contents }));
          },
        )
      ]
    ]

-- `open` for reading and `pread`, whose failures are reported alike.
unfoldable pub pread : Bytes → ℕ → ℕ → Os → Option Bytes × Os
unfolding next_fault
pread path size off os₀ =
    let (f, os) = next_fault os₀ in
    elim f [
      | fail e _ ↦ refuse none e os
      | _ ↦ elim (os.disk path) [
        | none ↦ refuse none enoent os
        | some n ↦ (some (take size (drop off n.contents)), os)
      ]
    ]

-- The contents behind a write at an offset; a gap is filled with zeros. A write of nothing is none.
abbrev pub overwritten : ℕ → Bytes → Bytes → Bytes
overwritten off [] old = old
overwritten off (b ∷ s) old = resized off old ++ ((b ∷ s) ++ drop (off + length (b ∷ s)) old)

-- `open` for writing and `pwrite`, whose failures are reported alike.
unfoldable pub pwrite : Bytes → Bytes → ℕ → Os → Option ℕ × Os
unfolding next_fault
pwrite path s off os₀ =
    let (f, os) = next_fault os₀ in
    let done = λ (t : Bytes) (n : Node). record os {
      disk = put os.disk path (some (record n { contents = overwritten off t n.contents }));
    } in
    elim f [
      | fail e _ ↦ refuse none e os
      | short k ↦ elim (os.disk path) [
        | none ↦ refuse none enoent os
        | some n ↦ (some (length (take k s)), done (take k s) n)
      ]
      | pass ↦ elim (os.disk path) [
        | none ↦ refuse none enoent os
        | some n ↦ (some (length s), done s n)
      ]
    ]
