-- ===== src/Copyfs/Helper/Names.antt =====
-- `helper_get_file_name`, `helper_extract_filename` and `helper_extract_dirname`.
use reproduction.Base.{
  suc, ◌≡◌, refl, [], ◌∷◌, ◌++◌, none, some, ◌⊎◌, inl, inr, take, drop, Option-cases, take-append,
  drop-append_cons, arith,
}
use reproduction.Base.Text.{Bytes, Lacks}
use reproduction.Libc.Text.{rindex, rindex-append, rindex-cut, rindex-none, rindex-Lacks}

-- `sprintf(result, "%s.%s", prefix, base)`.
unfoldable pub get_file_name : Bytes → Bytes → Bytes
get_file_name base prefix = prefix ++ (b'.' ∷ base)

unfoldable pub extract_filename : Bytes → Bytes
extract_filename path = elim (rindex path b'/') [ none ↦ path | some i ↦ drop (suc i) path ]

unfoldable pub extract_dirname : Bytes → Bytes
extract_dirname path = elim (rindex path b'/') [ none ↦ [] | some i ↦ take i path ]

-- The directory and the file name of `dir/file`, where the name holds no slash, are `dir` and
-- `file`; a path without a slash is its own file name and has the empty directory.
pub extract_parts :
    (dir file : Bytes)
    → Lacks b'/' file
    → (extract_dirname (dir ++ b'/' ∷ file) ≡ dir)
      × (extract_filename (dir ++ b'/' ∷ file) ≡ file)
      × (extract_dirname file ≡ [])
      × (extract_filename file ≡ file)
unfolding extract_dirname extract_filename
extract_parts dir file l = (
  ground (arith, rindex-append dir file b'/' l, take-append dir (b'/' ∷ file)),
  ground (arith, rindex-append dir file b'/' l, drop-append_cons dir file b'/'),
  ground (arith, rindex-Lacks file b'/' l),
  ground (arith, rindex-Lacks file b'/' l),
)

-- Every path is its directory, a slash and its file name, unless it has no slash at all, and the
-- file name never holds a slash.
pub extract_rejoin :
    (path : Bytes)
    → Lacks b'/' (extract_filename path)
      × ((path ≡ extract_dirname path ++ b'/' ∷ extract_filename path)
          ⊎ ((extract_dirname path ≡ []) × (extract_filename path ≡ path)))
unfolding extract_dirname extract_filename
extract_rejoin path = elim (Option-cases (rindex path b'/')) [
  | inl e ↦ rw (e, extract_filename, extract_dirname) (rindex-none path b'/' e, inr (refl, refl))
  | inr (i, e) ↦
      let (cut, lacks) = rindex-cut path b'/' i e in
      rw (e, extract_filename, extract_dirname) (lacks, inl cut)
]
