-- ===== src/Copyfs/Attributes/Lock/Pin.antt =====
-- What a pin does: later look-ups find the version that the lock found, and only its owner or root
-- can set it.
use mathlib.Core.List.{append-nil}
use reproduction.Base.{
  ap, sym, refl, ◌∙◌, ◌++◌, true, All, Bool-cases, ℕ, ◌≡◌, ◌≢◌, subst⁻¹, ◌⊎◌, inl, inr, List, [],
  ◌∷◌, Option, none, some, false, arith, ==_refl,
}
use reproduction.Base.Int.{ℤ, pos, negsuc, eq_ℤ, to_unsigned}
use reproduction.Base.Text.{Bytes, codes}
use reproduction.Libc.Os.{Os, einval}
use reproduction.Copyfs.CopyFile.{minus}
use reproduction.Copyfs.Create.{create_meta_name}
use reproduction.Copyfs.Lookup.{find_version, head?}
use reproduction.Copyfs.Lookup.Order.{IsNewestFirst}
use reproduction.Copyfs.Lookup.Reference.{is_match, first, wanted, find_version-wanted}
use reproduction.Copyfs.Parse.{Unset}
use reproduction.Copyfs.Structs.{Version, Metadata, latest}
use reproduction.Copyfs.World.{World, load, modify, set_at}
use reproduction.Copyfs.Write.{write_default_file}
use reproduction.Copyfs.Attributes.Lock.{scan_lock, fits_lock, find_lock, lock_version, eacces}

-- For a numbered pin the loop of the attribute finds what a search by the test of the look-up finds.
find_lock-first :
    (vid svid : ℤ) (vs : List Version) (v : Version) (other : Option Version)
    → eq_ℤ vid latest ≡ false
    → find_lock vid svid vs ≡ some v
    → first (is_match (to_unsigned vid) svid) vs other ≡ some v
unfolding find_lock first
find_lock-first vid svid [] v other e h = ground arith
find_lock-first vid svid (w ∷ vs) v other e h =
    ground
      (arith, h, e, λ (k : find_lock vid svid vs ≡ some v). find_lock-first vid svid vs v other e k)

-- The structure with the pin.
abbrev pub pinned_to : ℤ → ℤ → Metadata → Metadata
pinned_to vid svid md = record md { md_dfl_vid = vid; md_dfl_svid = svid }

pinned-find_version :
    (vid svid : ℤ) (md : Metadata) (v : Version)
    → eq_ℤ vid latest ≡ false
    → md.md_deleted ≡ false
    → IsNewestFirst md.md_versions
    → find_lock vid svid md.md_versions ≡ some v
    → find_version false (pinned_to vid svid md) latest latest ≡ some v
unfolding wanted
pinned-find_version vid svid md v e d s h = ground (
  arith,
  e,
  d,
  find_version-wanted false (pinned_to vid svid md) latest latest s,
  find_lock-first vid svid md.md_versions v (head? md.md_versions) e h,
)

-- Setting a numbered pin on a file with an ordered chain that is not deleted: if the chain has a
-- version for the numbers, the caller is root or that version's owner, the default file has a name,
-- looking the name up leaves chain and deletion mark as they were, and the default file is written,
-- then the attribute returns 0 and later look-ups of the latest version give the version found.
pub lock_version-find_version :
    (u : Unset) (uid : ℕ) (path : Bytes) (p : ℕ) (value : Bytes) (vid svid : ℤ)
    → (md md₂ : Metadata) (w w₂ : World) (dflfile : Bytes) (v : Version) (os : Os)
    → scan_lock value ≡ some (vid, svid)
    → eq_ℤ vid latest ≡ false
    → w.store p ≡ some md
    → IsNewestFirst md.md_versions
    → find_lock vid svid md.md_versions ≡ some v
    → (uid ≡ 0) ⊎ (uid ≡ v.v_uid)
    → create_meta_name u path (codes "dfl-meta") w ≡ some (dflfile, w₂)
    → w₂.store p ≡ some md₂
    → md₂.md_versions ≡ md.md_versions
    → md₂.md_deleted ≡ false
    → write_default_file dflfile vid svid w₂.os ≡ some (pos 0, os)
    → (w' : World) × (md' : Metadata) × (lock_version u uid path p value w ≡ some (pos 0, w'))
      × (w'.store p ≡ some md')
      × (find_version false md' latest latest ≡ some v)
unfolding lock_version load modify
lock_version-find_version u uid path p value vid svid md md₂ w w₂ dflfile v os scanned e at_p s
      found allowed named at_p₂ same d written =
    (
      record w₂ { os = os; store = set_at w₂.store p (some (pinned_to vid svid md₂)) },
      pinned_to vid svid md₂,
      ground (arith, scanned, at_p, found, allowed, named, at_p₂, written, ==_refl p),
      ground (arith, ==_refl p),
      pinned-find_version vid svid md₂ v e d (subst⁻¹ IsNewestFirst same s)
          (subst⁻¹ (λ vs. find_lock vid svid vs ≡ some v) same found),
    )

-- The numbers ask for the version: -1 for any, and -1 in the second place for any subversion.
abbrev pub Asks : ℤ → ℤ → Version → Type 0
Asks vid svid v =
    (vid ≡ latest)
    ⊎ ((v.v_vid ≡ to_unsigned vid) × ((svid ≡ latest) ⊎ (v.v_svid ≡ to_unsigned svid)))

eq_ℤ-sound : (a b : ℤ) → eq_ℤ a b ≡ true → a ≡ b
eq_ℤ-sound (pos a) (pos b) h = ground (arith, h)
eq_ℤ-sound (pos a) (negsuc b) h = cc
eq_ℤ-sound (negsuc a) (pos b) h = cc
eq_ℤ-sound (negsuc a) (negsuc b) h = ground (arith, h)

fits-Asks : (vid svid : ℤ) (v : Version) → fits_lock vid svid v ≡ true → Asks vid svid v
fits-Asks vid svid v h = elim (Bool-cases (eq_ℤ vid latest)) [
  | inl e ↦ inl (eq_ℤ-sound vid latest e)
  | inr e ↦ elim (Bool-cases (eq_ℤ svid latest)) [
    | inl k ↦ inr (ground (arith, h, e, k), inl (eq_ℤ-sound svid latest k))
    | inr k ↦ inr (ground (arith, h, e, k), inr (ground (arith, h, e, k)))
  ]
]

Asks-fits : (vid svid : ℤ) (v : Version) → Asks vid svid v → fits_lock vid svid v ≡ true
Asks-fits vid svid v (inl e) = rw e refl
Asks-fits vid svid v (inr (e, inl k)) = rw (e, k) (ground arith)
Asks-fits vid svid v (inr (e, inr k)) = rw (e, k) (ground arith)

find_lock-skips :
    (vid svid : ℤ) (newer vs : List Version)
    → All (λ v. ¬ Asks vid svid v) newer
    → find_lock vid svid (newer ++ vs) ≡ find_lock vid svid vs
unfolding find_lock
find_lock-skips vid svid [] vs h = refl
find_lock-skips vid svid (v ∷ newer) vs (n, h) = elim (Bool-cases (fits_lock vid svid v)) [
  | inl e ↦ elim (n (fits-Asks vid svid v e)) [ ]
  | inr e ↦ rw (find_lock, e) (find_lock-skips vid svid newer vs h)
]

find_lock-finds :
    (vid svid : ℤ) (newer older : List Version) (v : Version)
    → All (λ v. ¬ Asks vid svid v) newer
    → Asks vid svid v
    → find_lock vid svid (newer ++ v ∷ older) ≡ some v
unfolding find_lock
find_lock-finds vid svid newer older v h a =
    find_lock-skips vid svid newer (v ∷ older) h ∙ rw (find_lock, Asks-fits vid svid v a) refl

-- Why a user may not set the pin: no version is asked for, or the first that is has another owner.
abbrev pub Refused : ℤ → ℤ → ℕ → List Version → ℕ → Type 0
Refused vid svid uid versions e =
    ((e ≡ einval) × All (λ v. ¬ Asks vid svid v) versions)
    ⊎ ((e ≡ eacces)
        × ((newer : List Version) × (v : Version) × (older : List Version) × (versions
              ≡ newer ++ v ∷ older)
            × All (λ v. ¬ Asks vid svid v) newer
            × Asks vid svid v
            × (uid ≢ 0)
            × (uid ≢ v.v_uid)))

-- A pair of numbers that asks for no version of the chain is refused with -EINVAL, and a user who is
-- neither root nor the owner of the first version that is asked for with -EACCES; nothing is changed
-- then, on disk or in memory.
pub lock_version-Refused :
    (u : Unset) (uid : ℕ) (path : Bytes) (p : ℕ) (value : Bytes) (vid svid : ℤ) (md : Metadata)
    → (w : World) (e : ℕ) → w.store p ≡ some md
    → scan_lock value ≡ some (vid, svid)
    → Refused vid svid uid md.md_versions e
    → lock_version u uid path p value w ≡ some (minus e, w)
unfolding lock_version load find_lock
lock_version-Refused u uid path p value vid svid md w e at_p h (inl (k, none_asked)) =
    let nothing : find_lock vid svid md.md_versions ≡ none =
      ap (find_lock vid svid) (sym (append-nil md.md_versions))
      ∙ find_lock-skips vid svid md.md_versions [] none_asked in
    ground (arith, k, h, nothing, at_p)
lock_version-Refused u uid path p value vid svid md w e at_p h (inr (k, rest)) =
    let (newer, v, older, split, skipped, asked, a, b) = rest in
    let found : find_lock vid svid md.md_versions ≡ some v =
      ap (find_lock vid svid) split ∙ find_lock-finds vid svid newer older v skipped asked in
    ground (arith, k, h, found, at_p, a, b)
