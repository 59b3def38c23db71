-- ===== src/Copyfs/Lookup/Entry.antt =====
-- What `rcs_find_version` returns is an entry of the chain, also of a chain that is out of order.
use reproduction.Base.{
  ℕ, ◌≡◌, refl, inl, inr, List, [], ◌∷◌, Option, none, some, Bool, true, false, IsIn, arith,
}
use reproduction.Base.Int.{ℤ, to_unsigned}
use reproduction.Copyfs.Structs.{Version, Metadata, latest}
use reproduction.Copyfs.Lookup.{
  head?, skip_newer, skip_newer_sub, fallback, accept_sub, find_sub, search_version, find_version,
}

-- An entry of the chain, or nothing.
abbrev pub IsEntry : List Version → Option Version → Type 0
IsEntry vs none = Unit
IsEntry vs (some v) = IsIn v vs

-- Every entry of the one chain is one of the other.
abbrev Within : List Version → List Version → Type 0
Within ws [] = Unit
Within ws (v ∷ vs) = IsIn v ws × Within ws vs

Within-cons : (ws vs : List Version) (w : Version) → Within ws vs → Within (w ∷ ws) vs
Within-cons ws [] w h = tt
Within-cons ws (v ∷ vs) w h = (inr h.0, Within-cons ws vs w h.1)

Within-refl : (vs : List Version) → Within vs vs
Within-refl [] = tt
Within-refl (v ∷ vs) = (inl refl, Within-cons vs vs v (Within-refl vs))

skip_newer-Within :
    (ws : List Version) (vid : ℕ) (vs : List Version) → Within ws vs → Within ws (skip_newer vid vs)
unfolding skip_newer
skip_newer-Within ws vid [] h = tt
skip_newer-Within ws vid (v ∷ vs) h = ground (arith, skip_newer-Within ws vid vs h.1)

skip_newer_sub-Within :
    (ws : List Version) (vid svid : ℕ) (vs : List Version)
    → Within ws vs
    → Within ws (skip_newer_sub vid svid vs)
unfolding skip_newer_sub
skip_newer_sub-Within ws vid svid [] h = tt
skip_newer_sub-Within ws vid svid (v ∷ vs) h =
    ground (arith, skip_newer_sub-Within ws vid svid vs h.1)

head?-IsEntry : (vs : List Version) → IsEntry vs (head? vs)
head?-IsEntry [] = tt
head?-IsEntry (v ∷ vs) = inl refl

fallback-IsEntry : (md : Metadata) → IsEntry md.md_versions (fallback md)
unfolding fallback
fallback-IsEntry md = ground (arith, head?-IsEntry md.md_versions)

accept_sub-IsEntry :
    (md : Metadata) (vid svid : ℕ) (vs : List Version)
    → Within md.md_versions vs
    → IsEntry md.md_versions (accept_sub md vid svid vs)
unfolding accept_sub
accept_sub-IsEntry md vid svid [] h = fallback-IsEntry md
accept_sub-IsEntry md vid svid (v ∷ vs) h = ground (arith, fallback-IsEntry md)

find_sub-IsEntry :
    (md : Metadata) (vid : ℕ) (svid : ℤ) (vs : List Version)
    → Within md.md_versions vs
    → IsEntry md.md_versions (find_sub md vid svid vs)
unfolding find_sub
find_sub-IsEntry md vid svid [] h = fallback-IsEntry md
find_sub-IsEntry md vid svid (v ∷ vs) h = ground (
  arith,
  fallback-IsEntry md,
  accept_sub-IsEntry md vid (to_unsigned svid) (skip_newer_sub vid (to_unsigned svid) (v ∷ vs))
      (skip_newer_sub-Within md.md_versions vid (to_unsigned svid) (v ∷ vs) h),
)

search_version-IsEntry :
    (md : Metadata) (vid svid : ℤ) → IsEntry md.md_versions (search_version md vid svid)
unfolding search_version
search_version-IsEntry md vid svid =
    find_sub-IsEntry md (to_unsigned vid) svid (skip_newer (to_unsigned vid) md.md_versions) (
      skip_newer-Within md.md_versions (to_unsigned vid) md.md_versions
        (Within-refl md.md_versions))

-- For every chain, ordered or not, and every request, pin and mark: what `rcs_find_version` returns
-- is an entry of the chain or NULL, and for the latest version of a deleted file, with deletion not
-- ignored, it is NULL.
pub find_version-IsEntry :
    (ignore_deleted : Bool) (md : Metadata) (vid svid : ℤ)
    → IsEntry md.md_versions (find_version ignore_deleted md vid svid)
      × (find_version false (record md { md_deleted = true }) latest svid ≡ none)
unfolding find_version
find_version-IsEntry ignore_deleted md vid svid = (
  ground (
    arith,
    head?-IsEntry md.md_versions,
    search_version-IsEntry md vid svid,
    search_version-IsEntry md md.md_dfl_vid md.md_dfl_svid,
  ),
  refl,
)
