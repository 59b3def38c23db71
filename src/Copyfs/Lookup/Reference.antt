-- ===== src/Copyfs/Lookup/Reference.antt =====
-- `rcs_find_version` against a plain description: the first entry that has the numbers asked for.
use reproduction.Base.{
  ℕ, ◌≤◌, ◌<◌, ◌≡◌, refl, inl, inr, List, [], ◌∷◌, Option, none, some, Bool, false, not, ◌&&◌, ◌||◌,
  ◌==◌, if◌then◌else◌, All, All-imp, Bool-cases, arith,
}
use reproduction.Base.Int.{ℤ, eq_ℤ, to_unsigned}
use reproduction.Copyfs.Structs.{Version, Metadata, latest}
use reproduction.Copyfs.Lookup.{
  head?, skip_newer, skip_newer_sub, fallback, accept_sub, find_sub, search_version, find_version,
}
use reproduction.Copyfs.Lookup.Order.{Newer, IsNewestFirst}

-- The version has number `vid`, and subversion `svid` if one is asked for.
abbrev pub is_match : ℕ → ℤ → Version → Bool
is_match vid svid v = v.v_vid == vid && (eq_ℤ svid latest || v.v_svid == to_unsigned svid)

unfoldable pub first : (Version → Bool) → List Version → Option Version → Option Version
first p [] other = other
first p (v ∷ vs) other = if p v then some v else first p vs other

first-none :
    (p : Version → Bool) (vs : List Version) (other : Option Version)
    → All (λ v. p v ≡ false) vs
    → first p vs other ≡ other
unfolding first
first-none p [] other h = refl
first-none p (v ∷ vs) other h = ground (arith, first-none p vs other)

-- Behind a version older than the one asked for nothing matches.
miss_older :
    (vid : ℕ) (svid : ℤ) (v : Version) (vs : List Version)
    → v.v_vid < vid
    → All (Newer v) vs
    → All (λ w. is_match vid svid w ≡ false) vs
miss_older vid svid v vs h =
    All-imp (Newer v) (λ w. is_match vid svid w ≡ false) (λ w k. ground arith) vs

-- Behind an older subversion of it nothing matches either.
miss_older_sub :
    (vid : ℕ) (svid : ℤ) (v : Version) (vs : List Version)
    → v.v_vid ≡ vid
    → v.v_svid ≤ to_unsigned svid
    → eq_ℤ svid latest ≡ false
    → All (Newer v) vs
    → All (λ w. is_match vid svid w ≡ false) vs
miss_older_sub vid svid v vs e h l =
    All-imp (Newer v) (λ w. is_match vid svid w ≡ false) (λ w k. ground arith) vs

accept_sub-first :
    (md : Metadata) (vid : ℕ) (svid : ℤ) (vs : List Version)
    → eq_ℤ svid latest ≡ false
    → All (λ w. w.v_vid ≤ vid) vs
    → IsNewestFirst vs
    → accept_sub md vid (to_unsigned svid) (skip_newer_sub vid (to_unsigned svid) vs)
      ≡ first (is_match vid svid) vs (fallback md)
unfolding accept_sub skip_newer_sub first
accept_sub-first md vid svid [] e b s = refl
accept_sub-first md vid svid (v ∷ vs) e b s = ground (
  arith,
  accept_sub-first md vid svid vs e b.1 s.1,
  λ (h : v.v_vid < vid).
      first-none (is_match vid svid) vs (fallback md) (miss_older vid svid v vs h s.0),
  λ (p : v.v_vid ≡ vid) (h : v.v_svid ≤ to_unsigned svid).
      first-none (is_match vid svid) vs (fallback md) (miss_older_sub vid svid v vs p h e s.0),
)

older_le :
    (v : Version) (vs : List Version) → All (Newer v) vs → All (λ w. w.v_vid ≤ v.v_vid) (v ∷ vs)
older_le v vs h =
    (omega arith, All-imp (Newer v) (λ w. w.v_vid ≤ v.v_vid) (λ w k. omega arith) vs h)

find_sub-first :
    (md : Metadata) (vid : ℕ) (svid : ℤ) (vs : List Version)
    → IsNewestFirst vs
    → find_sub md vid svid (skip_newer vid vs) ≡ first (is_match vid svid) vs (fallback md)
unfolding find_sub skip_newer first
find_sub-first md vid svid [] s = refl
find_sub-first md vid svid (v ∷ vs) s = elim (Bool-cases (eq_ℤ svid latest)) [
  | inl e ↦ ground (
    arith,
    find_sub-first md vid svid vs s.1,
    λ (h : v.v_vid < vid).
        first-none (is_match vid svid) vs (fallback md) (miss_older vid svid v vs h s.0),
  )
  | inr e ↦ ground (
    arith,
    find_sub-first md vid svid vs s.1,
    λ (p : v.v_vid ≡ vid). accept_sub-first md v.v_vid svid (v ∷ vs) e (older_le v vs s.0) s,
    λ (h : v.v_vid < vid).
        first-none (is_match vid svid) vs (fallback md) (miss_older vid svid v vs h s.0),
  )
]

-- What the function is to return, read off its comment: with `latest` asked for, nothing if the
-- file is deleted (and deletion is not ignored), else the pinned version if there is a pin, else
-- the head; a numbered version is the first entry that has the numbers.
unfoldable pub wanted : Bool → Metadata → ℤ → ℤ → Option Version
wanted ignore_deleted md vid svid =
    if eq_ℤ vid latest
    then (if md.md_deleted && not ignore_deleted
        then none
        else if eq_ℤ md.md_dfl_vid latest
        then head? md.md_versions
        else first (is_match (to_unsigned md.md_dfl_vid) md.md_dfl_svid) md.md_versions
            (head? md.md_versions))
    else first (is_match (to_unsigned vid) svid) md.md_versions (fallback md)

-- On a chain that is ordered newest first, the two early-stopping loops of `rcs_find_version`
-- return exactly the entry that the plain search over the whole chain returns, for every request,
-- pin, deletion mark and setting of `rcs_ignore_deleted`.
pub find_version-wanted :
    (ignore_deleted : Bool) (md : Metadata) (vid svid : ℤ)
    → IsNewestFirst md.md_versions
    → find_version ignore_deleted md vid svid ≡ wanted ignore_deleted md vid svid
unfolding find_version wanted search_version fallback
find_version-wanted ignore_deleted md vid svid s = ground (
  arith,
  find_sub-first md (to_unsigned vid) svid md.md_versions s,
  find_sub-first md (to_unsigned md.md_dfl_vid) md.md_dfl_svid md.md_versions s,
)
