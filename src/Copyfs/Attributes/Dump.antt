-- ===== src/Copyfs/Attributes/Dump.antt =====
-- `rcs.metadata_dump` of ea.c: a line for each version, for scripts.
pub mod Split
pub mod Files
use Prim.Native.Nat.{bit_or}
use reproduction.Base.{ℕ, List, [], ◌∷◌, ◌++◌, Option, none, some, length}
use reproduction.Base.Int.{ℤ}
use reproduction.Base.Prog.{Prog, pure, ◌>>=◌}
use reproduction.Base.Text.{Bytes, codes}
use reproduction.Libc.Os.{Node, lstat}
use reproduction.Libc.Print.{print_int, print_nat}
use reproduction.Copyfs.Attributes.Lock.{ea_reply}
use reproduction.Copyfs.Callbacks.Stat.{type_bits}
use reproduction.Copyfs.Helper.Composite.{build_composite, array}
use reproduction.Copyfs.Structs.{Version}
use reproduction.Copyfs.World.{World, load, deref, system}

-- What the model of the disk does not hold: the time of the last change of a node, and what
-- `st_data.st_size` holds where `lstat` did not fill it.
pub record Unfilled : Type 0 where
  pub st_mtime : Node → ℕ
  pub st_size : Version → ℕ

-- `"%d:%d:%d:%d:%d:%lld:%ld"`, with the fields of `st_data`.
unfoldable pub dump_line : Version → ℕ → ℕ → Bytes → Bytes
dump_line version st_mode st_size st_mtime =
    print_int version.v_vid
    ++ b':'
      ∷ (print_int version.v_svid
          ++ b':'
            ∷ (print_int (bit_or version.v_mode st_mode)
                ++ b':'
                  ∷ (print_int version.v_uid
                      ++ b':'
                        ∷ (print_int version.v_gid
                            ++ b':' ∷ (print_nat 10 st_size ++ b':' ∷ st_mtime)))))

-- The string of one version. `lstat` failures are ignored; `st_mode &= ~07777` leaves the type.
unfoldable pub dump_version : Unfilled → Version → Option Node → Bytes
unfolding dump_line
dump_version unfilled version none =
    dump_line version 0o100000 (unfilled.st_size version) (codes "-1")
dump_version unfilled version (some n) =
    dump_line version (type_bits n.kind) (length n.contents) (print_nat 10 (unfilled.st_mtime n))

-- "Traverse the version list and build the individual strings".
unfoldable pub dump_versions : Unfilled → List Version → Prog World (List Bytes)
unfolding dump_version
dump_versions unfilled [] = pure []
dump_versions unfilled (version ∷ versions) = do
  stat ← system (lstat version.v_rfile)
  rest ← dump_versions unfilled versions
  pure (dump_version unfilled version stat ∷ rest)

-- The branch of `callback_getxattr` for `rcs.metadata_dump`.
unfoldable pub metadata_dump : Unfilled → ℕ → ℕ → Prog World (ℤ × Option Bytes)
unfolding dump_versions
metadata_dump unfilled p size = do
  md ← load p
  lines ← dump_versions unfilled md.md_versions
  (result, allocated) ← deref (build_composite (codes "A") (codes "|") (array lines ∷ []))
  pure (ea_reply size result)
