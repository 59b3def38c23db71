-- ===== src/Libc/Os.antt =====
-- The real file system below the daemons. A script says which of the coming calls fail, with which
-- `errno`; a call that the script lets through does what its manual page says.
pub mod Access
pub mod Stdio
pub mod Names
pub mod Appended
use mathlib.Core.List.{append_assoc, append-nil}
use mathlib.Core.Path.{fun_ext}
use reproduction.Base.{
  ℕ, ◌≡◌, refl, ap, arith, List, [], ◌∷◌, ◌++◌, Option, none, some, Bool, true, false,
  if◌then◌else◌, take, drop, length, zero, suc, ◌+◌, ◌-◌, ◌*◌, ◌/◌, ◌%◌, ◌&&◌, not, ◌==◌,
}
use reproduction.Base.Text.{Bytes, str_eq, str_eq_refl, str_eq_sound}
use reproduction.Libc.Stream.{Stream}

-- `special` has the type bits of a device, a pipe or a socket.
pub data Kind : Type 0 where
  regular symbolic directory : Kind
  special : ℕ → Kind

-- `contents` is a file's data or a symbolic link's target.
pub record Node : Type 0 where
  pub kind : Kind
  pub perm : ℕ
  pub contents : Bytes

-- `fail e n`: the call sets `errno` to `e`; a write through stdio has put out `n` bytes by then.
-- `short n`: a `write` puts out `n` bytes only, and says so; any other call goes through.
pub data Fault : Type 0 where
  pass : Fault
  fail : ℕ → ℕ → Fault
  short : ℕ → Fault

pub record Os : Type 0 where
  pub disk : Bytes → Option Node
  pub faults : List Fault
  pub errno : ℕ
  pub now : ℕ

abbrev pub enoent : ℕ
enoent = 2

abbrev pub eexist : ℕ
eexist = 17

abbrev pub eintr : ℕ
eintr = 4

abbrev pub einval : ℕ
einval = 22

abbrev pub eisdir : ℕ
eisdir = 21

abbrev pub put : (Bytes → Option Node) → Bytes → Option Node → Bytes → Option Node
put d p n q = if str_eq q p then n else d q

-- The verdict on the next call, and the script behind it.
unfoldable pub next_fault : Os → Fault × Os
next_fault os = elim os.faults [ [] ↦ (pass, os) | f ∷ fs ↦ (f, record os { faults = fs }) ]

abbrev pub refuse {ℓ} : {A : Type ℓ} → A → ℕ → Os → A × Os
refuse a e os = (a, record os { errno = e })

-- `fopen(path, "r")`.
unfoldable pub fopen_read : Bytes → Os → Option Stream × Os
unfolding next_fault
fopen_read path os₀ =
    let (f, os) = next_fault os₀ in
    elim f [
      | fail e _ ↦ refuse none e os
      | _ ↦ elim (os.disk path) [
        | none ↦ refuse none enoent os
        | some n ↦ (some (record { unread = n.contents; at_eof = false }), os)
      ]
    ]

abbrev pub is_directory : Option Node → Bool
is_directory none = false
is_directory (some n) = elim n.kind [ directory ↦ true | _ ↦ false ]

-- The node that `fopen(path, "w")` leaves: an empty file, of the old mode if there was one.
abbrev pub truncated : Option Node → Node
truncated none = record { kind = Kind.regular; perm = 0o600; contents = [] }
truncated (some n) = record n { contents = [] }

-- The node that `creat` leaves: an empty file. The process runs under `umask(0077)`, and may set the
-- set-id and sticky bits.
abbrev pub created : ℕ → Option Node → Node
created mode none = record {
  kind = Kind.regular;
  perm = mode / 0o1000 % 0o10 * 0o1000 + mode / 0o100 % 0o10 * 0o100;
  contents = [];
}
created mode (some n) = record n { contents = [] }

-- `fopen(path, "w")`.
unfoldable pub fopen_write : Bytes → Os → Bool × Os
unfolding next_fault
fopen_write path os₀ =
    let (f, os) = next_fault os₀ in
    elim f [
      | fail e _ ↦ refuse false e os
      | _ ↦
          if is_directory (os.disk path)
          then refuse false eisdir os
          else (true, record os { disk = put os.disk path (some (truncated (os.disk path))) })
    ]

abbrev pub extended : Bytes → Option Node → Option Node
extended s none = none
extended s (some n) = some (record n { contents = n.contents ++ s })

abbrev pub append : Bytes → Bytes → Os → Os
append path s os = record os { disk = put os.disk path (extended s (os.disk path)) }

-- `fprintf(fh, …) >= 0` on a file that was opened for writing.
unfoldable pub fprintf : Bytes → Bytes → Os → Bool × Os
unfolding next_fault
fprintf path s os₀ =
    let (f, os) = next_fault os₀ in
    elim f [ fail e n ↦ refuse false e (append path (take n s) os) | _ ↦ (true, append path s os) ]

-- `unlink(path) == 0`.
unfoldable pub unlink : Bytes → Os → Bool × Os
unfolding next_fault
unlink path os₀ =
    let (f, os) = next_fault os₀ in
    elim f [
      | fail e _ ↦ refuse false e os
      | _ ↦ elim (os.disk path) [
        | none ↦ refuse false enoent os
        | some n ↦ elim n.kind [
          | directory ↦ refuse false eisdir os
          | _ ↦ (true, record os { disk = put os.disk path none })
        ]
      ]
    ]

-- `mknod`, `mkdir`, `symlink`: the node must be new.
unfoldable pub make_node : Bytes → Node → Os → Bool × Os
unfolding next_fault
make_node path node os₀ =
    let (f, os) = next_fault os₀ in
    elim f [
      | fail e _ ↦ refuse false e os
      | _ ↦ elim (os.disk path) [
        | none ↦ (true, record os { disk = put os.disk path (some node) })
        | some n ↦ refuse false eexist os
      ]
    ]

-- `lstat`.
unfoldable pub lstat : Bytes → Os → Option Node × Os
unfolding next_fault
lstat path os₀ =
    let (f, os) = next_fault os₀ in
    elim f [
      | fail e _ ↦ refuse none e os
      | _ ↦ elim (os.disk path) [ none ↦ refuse none enoent os | some n ↦ (some n, os) ]
    ]

-- `open(path, O_RDONLY)`, of a file or a directory, followed by nothing that changes it.
unfoldable pub open_read : Bytes → Os → Option Bytes × Os
unfolding next_fault
open_read path os₀ =
    let (f, os) = next_fault os₀ in
    elim f [
      | fail e _ ↦ refuse none e os
      | _ ↦ elim (os.disk path) [ none ↦ refuse none enoent os | some n ↦ (some n.contents, os) ]
    ]

-- `open(path, flags)` without `O_CREAT` and `O_TRUNC`: whether it may open. A directory is not opened
-- for writing.
unfoldable pub open_existing : ℕ → Bytes → Os → Bool × Os
unfolding next_fault
open_existing flags path os₀ =
    let (f, os) = next_fault os₀ in
    elim f [
      | fail e _ ↦ refuse false e os
      | _ ↦ elim (os.disk path) [
        | none ↦ refuse false enoent os
        | some n ↦
            if not (flags % 4 == 0) && is_directory (some n)
            then refuse false eisdir os
            else (true, os)
      ]
    ]

-- `readlink`: the target of the symbolic link at the path, cut to the size of the buffer.
unfoldable pub readlink : Bytes → ℕ → Os → Option Bytes × Os
unfolding next_fault
readlink path size os₀ =
    let (f, os) = next_fault os₀ in
    elim f [
      | fail e _ ↦ refuse none e os
      | _ ↦ elim (os.disk path) [
        | none ↦ refuse none enoent os
        | some n ↦ elim n.kind [
          | symbolic ↦ (some (take size n.contents), os)
          | _ ↦ refuse none einval os
        ]
      ]
    ]

-- `creat(path, mode)`: as `fopen` for writing, with the mode of a new file.
unfoldable pub creat : Bytes → ℕ → Os → Bool × Os
unfolding next_fault
creat path mode os₀ =
    let (f, os) = next_fault os₀ in
    elim f [
      | fail e _ ↦ refuse false e os
      | _ ↦
          if is_directory (os.disk path)
          then refuse false eisdir os
          else (true, record os { disk = put os.disk path (some (created mode (os.disk path))) })
    ]

-- `read` of the next bytes of a file whose unread part is given.
unfoldable pub read : ℕ → Bytes → Os → Option (Bytes × Bytes) × Os
unfolding next_fault
read size unread os₀ =
    let (f, os) = next_fault os₀ in
    elim f [ fail e _ ↦ refuse none e os | _ ↦ (some (take size unread, drop size unread), os) ]

-- `write` at the end of a file: the number of bytes put out, `none` for -1.
unfoldable pub write : Bytes → Bytes → Os → Option ℕ × Os
unfolding next_fault
write path s os₀ =
    let (f, os) = next_fault os₀ in
    elim f [
      | fail e _ ↦ refuse none e os
      | short n ↦ (some (length (take n s)), append path (take n s) os)
      | pass ↦ (some (length s), append path s os)
    ]
