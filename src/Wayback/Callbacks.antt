-- ===== src/Wayback/Callbacks.antt =====
-- wayback.c: the FUSE callbacks. Each works on the redirected path and logs how to undo what it does.
pub mod Space
pub mod Listing
pub mod Unlogged
use reproduction.Base.{
  ℕ, zero, suc, ◌+◌, ◌-◌, ◌/◌, ◌%◌, List, [], ◌∷◌, ◌++◌, Option, none, some, Bool, true, false, not,
  ◌&&◌, ◌==◌, if◌then◌else◌, length, take,
}
use reproduction.Base.Int.{ℤ, pos, negsuc}
use reproduction.Base.Prog.{Prog, pure, crash, call, ◌>>=◌, ◌>>◌}
use reproduction.Base.Text.{Bytes}
use reproduction.Libc.Os.{
  Os, Node, Kind, regular, symbolic, lstat, readlink, unlink, make_node, open_existing, enoent,
}
use reproduction.Libc.Os.Access.{opendir, truncate, pread, pwrite}
use reproduction.Libc.Os.Names.{rename, hard_link, set_mode, set_attributes}
use reproduction.Libc.Text.{c_string}
use reproduction.Copyfs.CopyFile.{minus}
use reproduction.Wayback.Globals.{Globals, Host, Stats}
use reproduction.Wayback.Log.{updateversion}
use reproduction.Wayback.Names.{ends_with, hides, deletedpath}
use reproduction.Wayback.Catalog.{Action, updatedirectory}

-- The result of a call: 0, or `-errno`.
abbrev pub result : Bool → Prog Os ℤ
result true os = some (pos 0, os)
result false os = some (minus os.errno, os)

abbrev pub failed : {A : Type 0} → Prog Os (ℤ × Option A)
failed os = some ((minus os.errno, none), os)

abbrev pub efault : ℕ
efault = 14

-- A Boolean call with a path that may be NULL.
abbrev at_path : Option Bytes → (Bytes → Os → Bool × Os) → Prog Os Bool
at_path none f os = some (false, record os { errno = efault })
at_path (some path) f os = some (f path os)

abbrev stats_or : Host → Bytes → Option Node → Stats
stats_or host path none = host.unset
stats_or host path (some n) = host.stat_of path n

module _ (host : Host) (globals : Globals) where
  -- `sprintf(fullpath, "%s%s", redirectpath, path)`.
  abbrev pub full : Bytes → Bytes
  full path = globals.redirectpath ++ path

  abbrev update : Action → Bytes → Option Bytes → Option Stats → Prog Os (Unit {0})
  update = updatedirectory host.sizes globals

  unfoldable pub ver_getattr : Bytes → Prog Os (ℤ × Option Stats)
  ver_getattr path = do
    stat ← call (lstat (full path))
    elim stat [ none ↦ failed | some n ↦ pure (pos 0, some (host.stat_of (full path) n)) ]

  unfoldable pub ver_readlink : Bytes → ℕ → Prog Os (ℤ × Option Bytes)
  ver_readlink path size = do
    got ← call (readlink (full path) (size - 1))
    elim got [ none ↦ failed | some s ↦ pure (pos 0, some s) ]

  -- The loop over what `readdir` gives. `filler` answers each name behind those that the caller's
  -- buffer holds; an answer that is not 0 ends the loop and is the result.
  unfoldable pub list_names :
      (List Bytes → Bytes → ℤ) → List Bytes → List Bytes → ℤ → Prog Os (ℤ × Option (List Bytes))
  list_names filler [] listed res = pure (res, some listed)
  list_names filler (name ∷ names) listed res = elim (hides globals name) [
    | none ↦ crash
    | some true ↦ list_names filler names listed res
    | some false ↦ elim (filler listed name) [
      | pos zero ↦ list_names filler names (listed ++ (name ∷ [])) (pos 0)
      | r ↦ pure (r, some listed)
    ]
  ]

  unfoldable pub ver_getdir :
      Bytes → (List Bytes → Bytes → ℤ) → List Bytes → Prog Os (ℤ × Option (List Bytes))
  unfolding list_names
  ver_getdir path filler names = do
    dir ← call (opendir (full path))
    if not dir then failed else list_names filler names [] (pos 0)

  -- A node is made at the path, and its making is logged under this action.
  unfoldable pub make : Action → Bytes → Node → Prog Os ℤ
  make action fullpath node = do
    done ← call (make_node fullpath node)
    if done then (do update action fullpath none none; pure (pos 0)) else result false

  unfoldable pub ver_mknod : Bytes → Node → Prog Os ℤ
  unfolding make
  ver_mknod path node = make Action.create (full path) node

  unfoldable pub ver_mkdir : Bytes → ℕ → Prog Os ℤ
  unfolding make
  ver_mkdir path mode =
      make Action.mkdir (full path) (record { kind = Kind.directory; perm = mode; contents = [] })

  -- The target of a link that is to go, in a buffer of 1024 bytes whose last one is the NUL at most.
  unfoldable pub link_target : Bytes → Prog Os Bytes
  link_target path = do
    got ← call (readlink path 1024)
    pure (elim got [ none ↦ [] | some s ↦ c_string (take 1023 s) ])

  -- Before the file goes: all of a regular file is saved, and the target of a link is kept.
  unfoldable pub before_unlink : Bytes → Prog Os (Stats × Option Bytes)
  unfolding link_target
  before_unlink path = do
    stat ← call (lstat path)
    elim stat [
      | none ↦ pure (host.unset, none)
      | some n ↦ elim n.kind [
        | regular ↦ do
          updateversion host.sizes globals path 0 0 true
          pure (host.stat_of path n, none)
        | symbolic ↦ do linkdest ← link_target path; pure (host.stat_of path n, some linkdest)
        | _ ↦ pure (host.stat_of path n, none)
      ]
    ]

  unfoldable pub ver_unlink : Bytes → Prog Os ℤ
  unfolding before_unlink
  ver_unlink path =
      let fullpath = full path in
      if ends_with fullpath globals.versionmodifier
      then (do done ← call (unlink fullpath); result done)
      else (do
        (filestats, linkdest) ← before_unlink fullpath
        done ← call (unlink fullpath)
        if done
            then (do update Action.rm fullpath linkdest (some filestats); pure (pos 0))
            else result false)

  -- The directory is given a name that marks it as deleted. `fuel` is that of the search for one.
  unfoldable pub ver_rmdir : ℕ → Bytes → Prog Os ℤ
  ver_rmdir fuel path = do
    (fullpath, deleted) ← deletedpath fuel globals (full path)
    done ← at_path deleted (rename fullpath)
    if done then (do update Action.rmdir fullpath deleted none; pure (pos 0)) else result false

  unfoldable pub ver_symlink : Bytes → Bytes → Prog Os ℤ
  ver_symlink from to = do
    done ←
        call (make_node (full to) (record { kind = Kind.symbolic; perm = 0o777; contents = from }))
    if done
        then (do update Action.create (full to) (some from) none; pure (pos 0))
        else result false

  unfoldable pub ver_rename : Bytes → Bytes → Prog Os ℤ
  ver_rename from to = do
    done ← call (rename (full from) (full to))
    if done
        then (do update Action.rename (full from) (some (full to)) none; pure (pos 0))
        else result false

  unfoldable pub ver_link : Bytes → Bytes → Prog Os ℤ
  ver_link from to = do
    done ← call (hard_link (full from) (full to))
    if done
        then (do update Action.create (full from) (some (full to)) none; pure (pos 0))
        else result false

  -- `lstat`, whose result is not looked at, the change of attributes, and its entry.
  unfoldable pub change_attributes : Action → (Bytes → Os → Bool × Os) → Bytes → Prog Os ℤ
  change_attributes action change path = do
    stat ← call (lstat path)
    let filestats = stats_or host path stat
    done ← call (change path)
    if done then (do update action path none (some filestats); pure (pos 0)) else result false

  unfoldable pub ver_chmod : Bytes → ℕ → Prog Os ℤ
  unfolding change_attributes
  ver_chmod path mode = change_attributes Action.chmod (λ p. set_mode p mode) (full path)

  unfoldable pub ver_chown : Bytes → Prog Os ℤ
  unfolding change_attributes
  ver_chown path = change_attributes Action.chown set_attributes (full path)

  unfoldable pub ver_utime : Bytes → Prog Os ℤ
  unfolding change_attributes
  ver_utime path = change_attributes Action.utime set_attributes (full path)

  unfoldable pub ver_truncate : Bytes → ℕ → Prog Os ℤ
  ver_truncate path size = do
    updateversion host.sizes globals (full path) 0 size true
    done ← call (truncate (full path) size)
    result done

  -- FUSE opens without `O_CREAT`; the file descriptor is never 0, which the code takes for success.
  unfoldable pub ver_open : Bytes → ℕ → Prog Os ℤ
  ver_open path flags = do
    stat ← call (lstat (full path))
    opened ← call (open_existing flags (full path))
    result opened

  unfoldable pub ver_read : Bytes → ℕ → ℕ → Prog Os (ℤ × Option Bytes)
  ver_read path size offset = do
    got ← call (pread (full path) size offset)
    elim got [ none ↦ failed | some s ↦ pure (pos (length s), some s) ]

  unfoldable pub ver_write : Bytes → Bytes → ℕ → Prog Os ℤ
  ver_write path buf offset = do
    updateversion host.sizes globals (full path) (length buf) offset false
    put_out ← call (pwrite (full path) buf offset)
    elim put_out [ none ↦ result false | some n ↦ pure (pos n) ]

  unfoldable pub ver_release : Bytes → ℕ → Prog Os ℤ
  ver_release path flags = pure (pos 0)

  unfoldable pub ver_fsync : Bytes → ℕ → Prog Os ℤ
  ver_fsync path isdatasync = pure (pos 0)
