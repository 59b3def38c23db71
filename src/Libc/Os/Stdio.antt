-- ===== src/Libc/Os/Stdio.antt =====
-- Streams that append to a file, and `pread` on an open file.
use reproduction.Base.{
  ℕ, [], Option, none, some, Bool, true, false, take, drop, length, if◌then◌else◌,
}
use reproduction.Base.Text.{Bytes}
use reproduction.Libc.Os.{
  Os, Node, Kind, fail, next_fault, refuse, put, eisdir, is_directory, append,
}

-- The node behind `fopen(path, "ab")`: the old one, or an empty file.
abbrev pub opened : Option Node → Node
opened none = record { kind = Kind.regular; perm = 0o600; contents = [] }
opened (some n) = n

-- `fopen(path, "ab")`.
unfoldable pub fopen_append : Bytes → Os → Bool × Os
unfolding next_fault
fopen_append path os₀ =
    let (f, os) = next_fault os₀ in
    elim f [
      | fail e _ ↦ refuse false e os
      | _ ↦
          if is_directory (os.disk path)
          then refuse false eisdir os
          else (true, record os { disk = put os.disk path (some (opened (os.disk path))) })
    ]

-- `fwrite`: the number of bytes that were put out, and whether `ferror` is set by it.
unfoldable pub fwrite : Bytes → Bytes → Os → (ℕ × Bool) × Os
unfolding next_fault
fwrite path s os₀ =
    let (f, os) = next_fault os₀ in
    elim f [
      | fail e n ↦ refuse (length (take n s), true) e (append path (take n s) os)
      | _ ↦ ((length s, false), append path s os)
    ]

-- `pread` on a file that was opened before, with these contents.
unfoldable pub pread_open : Bytes → ℕ → ℕ → Os → Option Bytes × Os
unfolding next_fault
pread_open contents size off os₀ =
    let (f, os) = next_fault os₀ in
    elim f [ fail e _ ↦ refuse none e os | _ ↦ (some (take size (drop off contents)), os) ]
