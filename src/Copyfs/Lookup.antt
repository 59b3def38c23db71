-- ===== src/Copyfs/Lookup.antt =====
-- `rcs_find_version` of lookup.c, which picks one version out of a file's chain.
pub mod Order
pub mod Reference
pub mod Entry
use reproduction.Base.{
  ℕ, List, [], ◌∷◌, Option, none, some, Bool, not, ◌&&◌, ◌||◌, ltb, ◌==◌, if◌then◌else◌,
}
use reproduction.Base.Int.{ℤ, eq_ℤ, to_unsigned}
use reproduction.Copyfs.Structs.{Version, Metadata, latest}

abbrev pub head? : List Version → Option Version
head? [] = none
head? (v ∷ vs) = some v

-- `while (version && (version->v_vid > (unsigned)vid)) version = version->v_next;`
unfoldable pub skip_newer : ℕ → List Version → List Version
skip_newer vid [] = []
skip_newer vid (v ∷ vs) = if ltb vid v.v_vid then skip_newer vid vs else v ∷ vs

-- `while (version && v_vid == vid && v_svid > svid) version = version->v_next;`
unfoldable pub skip_newer_sub : ℕ → ℕ → List Version → List Version
skip_newer_sub vid svid [] = []
skip_newer_sub vid svid (v ∷ vs) =
    if v.v_vid == vid && ltb svid v.v_svid then skip_newer_sub vid svid vs else v ∷ vs

-- The `return` of the real latest version, or of NULL, where the version asked for is missing.
unfoldable pub fallback : Metadata → Option Version
fallback md = if not (eq_ℤ md.md_dfl_vid latest) then head? md.md_versions else none

-- From the test behind the second loop to the end of the function.
unfoldable pub accept_sub : Metadata → ℕ → ℕ → List Version → Option Version
accept_sub md vid svid [] = fallback md
accept_sub md vid svid (v ∷ vs) =
    if not (v.v_vid == vid) || not (v.v_svid == svid) then fallback md else some v

-- From the test behind the first loop to the second loop.
unfoldable pub find_sub : Metadata → ℕ → ℤ → List Version → Option Version
find_sub md vid svid [] = fallback md
find_sub md vid svid (v ∷ vs) =
    if not (v.v_vid == vid)
    then fallback md
    else if eq_ℤ svid latest
    then some v
    else accept_sub md vid (to_unsigned svid) (skip_newer_sub vid (to_unsigned svid) (v ∷ vs))

-- The search for a numbered version.
unfoldable pub search_version : Metadata → ℤ → ℤ → Option Version
search_version md vid svid =
    find_sub md (to_unsigned vid) svid (skip_newer (to_unsigned vid) md.md_versions)

-- `rcs_find_version`; the first argument is the global `rcs_ignore_deleted`.
unfoldable pub find_version : Bool → Metadata → ℤ → ℤ → Option Version
unfolding search_version skip_newer skip_newer_sub find_sub accept_sub fallback
find_version ignore_deleted md vid svid =
    if eq_ℤ vid latest
    then (if md.md_deleted && not ignore_deleted
        then none
        else if eq_ℤ md.md_dfl_vid latest
        then head? md.md_versions
        else search_version md md.md_dfl_vid md.md_dfl_svid)
    else search_version md vid svid
