-- ===== src/Copyfs/CopyFile.antt =====
-- `create_copy_file` of create.c: the contents of a file, or a symbolic link, copied on disk.
pub mod Copied
pub mod Short
use reproduction.Base.{
  ℕ, zero, suc, ◌+◌, List, [], ◌∷◌, ◌++◌, Option, none, some, Bool, true, false, ◌==◌,
  if◌then◌else◌, length,
}
use reproduction.Base.Int.{ℤ, pos, negsuc}
use reproduction.Base.Prog.{Prog, pure, crash, call, ◌>>=◌}
use reproduction.Base.Text.{Bytes}
use reproduction.Libc.Os.{
  Os, Node, Kind, symbolic, regular, lstat, readlink, make_node, open_read, creat, read, write,
  eintr,
}

abbrev pub minus : ℕ → ℤ
minus zero = pos 0
minus (suc n) = negsuc n

abbrev pub buffer_size : ℕ
buffer_size = 1024

abbrev pub errno_of : Prog Os ℕ
errno_of os = some (os.errno, os)

-- `while (write(dst, buf, rsize) == -1) if (errno != EINTR) … return -7;`
unfoldable pub write_loop : ℕ → Bytes → Bytes → Prog Os ℤ
write_loop zero target buf = crash
write_loop (suc fuel) target buf = do
  put_out ← call (write target buf)
  elim put_out [
    | some n ↦ pure (pos 0)
    | none ↦ do
      e ← errno_of
      elim (e == eintr) [ true ↦ write_loop fuel target buf | false ↦ pure (minus 7) ]
  ]

-- `while ((rsize = read(src, buf, 1024))) …`; the source is what is still unread of it.
unfoldable pub copy_loop : ℕ → Bytes → Bytes → Prog Os ℤ
copy_loop zero target unread = crash
copy_loop (suc fuel) target unread = do
  got ← call (read buffer_size unread)
  elim got [
    | none ↦ do
      e ← errno_of
      elim (e == eintr) [ true ↦ copy_loop fuel target unread | false ↦ pure (minus 6) ]
    | some ([], rest) ↦ pure (pos 0)
    | some (b ∷ buf, rest) ↦ do
      written ← write_loop fuel target (b ∷ buf)
      elim written [ pos zero ↦ copy_loop fuel target rest | r ↦ pure r ]
  ]

-- Rounds for every piece of the source, and for every call that can be interrupted.
abbrev pub copy_fuel : Bytes → Os → ℕ
copy_fuel s os = length s + length os.faults + 2

unfoldable pub copy_regular : Bytes → Bytes → ℕ → Prog Os ℤ
unfolding copy_loop write_loop
copy_regular source target mode = do
  src ← call (open_read source)
  elim src [
    | none ↦ pure (minus 4)
    | some contents ↦ do
      dst ← call (creat target mode)
      if dst then (λ os. copy_loop (copy_fuel contents os) target contents os) else pure (minus 5)
  ]

-- The target of the new link is what `readlink` puts into a buffer of 1023 bytes.
unfoldable pub copy_link : Bytes → Bytes → Prog Os ℤ
copy_link source target = do
  got ← call (readlink source 1023)
  elim got [
    | none ↦ pure (minus 2)
    | some lnk ↦ do
      made ← call (make_node target (record { kind = Kind.symbolic; perm = 0o777; contents = lnk }))
      pure (if made then pos 0 else minus 3)
  ]

unfoldable pub create_copy_file : Bytes → Bytes → Prog Os ℤ
unfolding copy_regular copy_link
create_copy_file source target = do
  src_stat ← call (lstat source)
  elim src_stat [
    | none ↦ pure (minus 1)
    | some n ↦ elim n.kind [
      | symbolic ↦ copy_link source target
      | regular ↦ copy_regular source target n.perm
      | _ ↦ pure (minus 8)
    ]
  ]
