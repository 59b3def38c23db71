-- ===== src/Copyfs/Tests/Copying.antt =====
-- A copy under interruptions, and a copy that is cut.
use reproduction.Base.{◌≡◌, refl, List, [], ◌∷◌, none, some, arith, if◌then◌else◌, take}
use reproduction.Base.Int.{pos}
use reproduction.Base.Text.{Bytes, codes, str_eq}
use reproduction.Libc.Os.{Os, Node, Kind, Fault, pass, fail, short, eintr, created, put}
use reproduction.Copyfs.CopyFile.{create_copy_file}
use reproduction.Copyfs.CopyFile.Copied.{create_copy_file-contents}
use reproduction.Copyfs.CopyFile.Short.{create_copy_file_short}

abbrev node : Node
node = record { kind = Kind.regular; perm = 0o644; contents = codes "hello" }

-- The one file is `/v/1`.
abbrev with_faults : List Fault → Os
with_faults fs = record {
  disk = λ q. if str_eq q (codes "/v/1") then some node else none;
  faults = fs;
  errno = 0;
  now = 0;
}

abbrev interrupted : List Fault
interrupted = fail eintr 0 ∷ pass ∷ fail eintr 0 ∷ fail eintr 0 ∷ []

create_copy_file-contents_example :
    (os' : Os) × (create_copy_file
        (codes "/v/1")
        (codes "/v/2")
        (with_faults (pass ∷ pass ∷ pass ∷ interrupted))
      ≡ some (pos 0, os'))
    × ((q : Bytes)
        → os'.disk q
          ≡ put
              (with_faults (pass ∷ pass ∷ pass ∷ interrupted)).disk
              (codes "/v/2")
              (some (record (created 0o644 none) { contents = codes "hello" }))
              q)
unfolding str_eq
create_copy_file-contents_example =
    create_copy_file-contents (codes "/v/1") (codes "/v/2") node interrupted
      (with_faults (pass ∷ pass ∷ pass ∷ interrupted)) refl (refl, (tt, (refl, (refl, tt)))) refl
      refl refl

create_copy_file_short_example :
    (os' : Os) × (create_copy_file
        (codes "/v/1")
        (codes "/v/2")
        (with_faults (pass ∷ pass ∷ pass ∷ pass ∷ short 2 ∷ []))
      ≡ some (pos 0, os'))
    × (os'.disk (codes "/v/2")
        ≡ some (record (created 0o644 none) { contents = take 2 (codes "hello") }))
unfolding str_eq
create_copy_file_short_example =
    create_copy_file_short (codes "/v/1") (codes "/v/2") node b'h' (codes "ello") 2
      (with_faults (pass ∷ pass ∷ pass ∷ pass ∷ short 2 ∷ [])) refl refl refl refl (omega arith)
      refl
