-- ===== src/Wayback/Tests/Names.antt =====
-- Names of deleted directories, catalogs and logs.
use reproduction.Base.{ℕ, ◌≡◌, refl, List, [], ◌∷◌, ◌++◌, none, some, true, arith, if◌then◌else◌}
use reproduction.Base.Int.{pos}
use reproduction.Base.Text.{Bytes, codes, str_eq}
use reproduction.Libc.Os.{Os, Node, Kind}
use reproduction.Libc.Print.{emit, print_nat}
use reproduction.Wayback.Globals.{defaults}
use reproduction.Wayback.Names.{matchesdeleted, deletedpath, all_digits, hides, makerelative}
use reproduction.Wayback.Names.Deleted.{anywhere, matchesdeleted-anywhere}
use reproduction.Wayback.Names.Free.{deletedpath-free}
use reproduction.Wayback.Names.Hidden.{hides-made}
use reproduction.Wayback.Callbacks.{ver_getdir}
use reproduction.Wayback.Callbacks.Listing.{shown, ver_getdir-shown}
use reproduction.Wayback.Tests.{small_host, file_node, disk_with}

matchesdeleted-anywhere_example :
    matchesdeleted (codes "d!x!12") (codes "!") ≡ some (anywhere (codes "!") (codes "d!x!12"))
matchesdeleted-anywhere_example = matchesdeleted-anywhere b'!' [] (codes "d!x!12")

-- The first two names for the directory are taken.
abbrev taken : Os
taken = record (disk_with file_node) {
  disk = λ q.
      if str_eq q (codes "//d.  versionfs! deleted")
      then some file_node
      else if str_eq q (codes "//d.  versionfs! deleted1")
      then some file_node
      else none;
}

deletedpath-free_example :
    (digits : Bytes) × (e : ℕ) × (deletedpath 3 defaults (codes "//d/") taken
      ≡ some (
        (codes "//d", some (codes "//d" ++ (defaults.deletedmodifier ++ digits))),
        record taken { errno = e },
      ))
    × (taken.disk (codes "//d" ++ (defaults.deletedmodifier ++ digits)) ≡ none)
    × (all_digits digits ≡ true)
unfolding str_eq emit print_nat
deletedpath-free_example =
    deletedpath-free defaults 3 2 b'/' (codes "/d/") taken refl (omega arith) (omega arith) refl

hides-made_example :
    (hides defaults (
        makerelative (codes "/a" ++ b'/' ∷ (codes "d" ++ (defaults.deletedmodifier ++ codes "12"))))
      ≡ some true)
    × (hides defaults (makerelative (codes "/a" ++ b'/' ∷ (codes "d" ++ defaults.versionmodifier)))
        ≡ some true)
    × (hides defaults (makerelative (codes "/a" ++ b'/' ∷ defaults.versionmodifier)) ≡ some true)
unfolding all_digits
hides-made_example =
    hides-made defaults (codes "/a") (codes "d") (codes "12") (omega arith) (ground arith)
      (ground arith) (omega arith) (ground arith) refl

abbrev directory_node : Node
directory_node = record { kind = Kind.directory; perm = 0o755; contents = [] }

abbrev names : List Bytes
names =
    codes "f" ∷ codes "f.   versionfs! version" ∷ codes "d.  versionfs! deleted3" ∷ codes "g" ∷ []

ver_getdir-shown_example :
    ver_getdir small_host defaults (codes "/f") (λ l name. pos 0) names (disk_with directory_node)
    ≡ some ((pos 0, some (shown defaults names)), disk_with directory_node)
unfolding str_eq
ver_getdir-shown_example =
    ver_getdir-shown small_host defaults (λ l name. pos 0) (λ l name. refl) (omega arith)
      (codes "/f") names directory_node (disk_with directory_node) refl refl refl

shown_lem : shown defaults names ≡ codes "f" ∷ codes "g" ∷ []
unfolding shown str_eq
shown_lem = refl
