-- ===== src/Wayback/Names/Hidden.antt =====
-- A listing leaves out the names that the daemon makes for itself.
use reproduction.Base.{
  ◌-◌, ◌<◌, ◌≡◌, ◌≢◌, ap, sym, ◌∙◌, inl, inr, [], ◌∷◌, ◌++◌, some, Bool, true, ◌&&◌, ◌||◌, ltb,
  length, drop, arith, All-append, drop-append, length-append, List-cases,
}
use reproduction.Base.Text.{Bytes, Lacks, str_eq_refl}
use reproduction.Wayback.Globals.{Globals}
use reproduction.Wayback.Names.{hides, ends_with, matchesdeleted, makerelative, all_digits}
use reproduction.Wayback.Names.Deleted.{anywhere, matchesdeleted-anywhere, anywhere-append}
use reproduction.Wayback.Names.Parts.{makerelative-append}

-- The names that a listing leaves out: deleted directories and logs.
unfoldable pub hidden : Globals → Bytes → Bool
unfolding anywhere ends_with
hidden globals name =
    (ltb (length globals.deletedmodifier) (length name) && anywhere globals.deletedmodifier name)
    || ends_with name globals.versionmodifier

pub hides-hidden :
    (globals : Globals) (name : Bytes)
    → 0 < length globals.deletedmodifier
    → hides globals name ≡ some (hidden globals name)
unfolding hides hidden
hides-hidden globals name h = elim (List-cases globals.deletedmodifier) [
  | inl e ↦ ground (arith, e, h)
  | inr (d, rest, e) ↦
      let found : matchesdeleted name globals.deletedmodifier
          ≡ some (anywhere globals.deletedmodifier name) =
        ap (matchesdeleted name) e
        ∙ matchesdeleted-anywhere d rest name
        ∙ ap (λ s. some (anywhere s name)) (sym e) in
      ground (arith, found)
]

pub ends_with-append : (base suffix : Bytes) → ends_with (base ++ suffix) suffix ≡ true
unfolding ends_with
ends_with-append base suffix =
    let k : length (base ++ suffix) - length suffix ≡ length base =
      omega (arith, length-append base suffix) in
    let there : drop (length (base ++ suffix) - length suffix) (base ++ suffix) ≡ suffix =
      ap (λ n. drop n (base ++ suffix)) k ∙ drop-append base suffix in
    ground (arith, length-append base suffix, there, str_eq_refl suffix)

deleted_hidden :
    (globals : Globals) (base digits : Bytes)
    → 0 < length globals.deletedmodifier
    → 0 < length base
    → all_digits digits ≡ true
    → hidden globals (base ++ (globals.deletedmodifier ++ digits)) ≡ true
unfolding hidden
deleted_hidden globals base digits h l a = ground (
  arith,
  anywhere-append globals.deletedmodifier base digits h a,
  length-append base (globals.deletedmodifier ++ digits),
  length-append globals.deletedmodifier digits,
)

version_hidden :
    (globals : Globals) (base : Bytes) → hidden globals (base ++ globals.versionmodifier) ≡ true
unfolding hidden
version_hidden globals base = ground (arith, ends_with-append base globals.versionmodifier)

digits-Lacks : (s : Bytes) → all_digits s ≡ true → Lacks b'/' s
unfolding all_digits
digits-Lacks [] h = tt
digits-Lacks (c ∷ s) h = (λ p. ground (arith, h, p), digits-Lacks s (ground (arith, h)))

-- The name of a deleted directory, and the names of logs and catalogs, are left out of a listing of
-- their directory: for modifiers without slashes, of which that of deleted directories is not empty,
-- a name without slashes that is not empty, and nothing or digits behind the modifier.
pub hides-made :
    (globals : Globals) (dir name digits : Bytes)
    → 0 < length globals.deletedmodifier
    → Lacks b'/' globals.deletedmodifier
    → Lacks b'/' globals.versionmodifier
    → 0 < length name
    → Lacks b'/' name
    → all_digits digits ≡ true
    → (hides globals (makerelative (dir ++ b'/' ∷ (name ++ (globals.deletedmodifier ++ digits))))
        ≡ some true)
      × (hides globals (makerelative (dir ++ b'/' ∷ (name ++ globals.versionmodifier))) ≡ some true)
      × (hides globals (makerelative (dir ++ b'/' ∷ globals.versionmodifier)) ≡ some true)
hides-made globals dir name digits h d v l n a =
    let made : Lacks b'/' (name ++ (globals.deletedmodifier ++ digits)) =
      All-append (λ c. c ≢ b'/') name (globals.deletedmodifier ++ digits) n
        (All-append (λ c. c ≢ b'/') globals.deletedmodifier digits d (digits-Lacks digits a)) in
    let log : Lacks b'/' (name ++ globals.versionmodifier) =
      All-append (λ c. c ≢ b'/') name globals.versionmodifier n v in
    (
      ap (hides globals)
            (makerelative-append dir (name ++ (globals.deletedmodifier ++ digits)) made)
          ∙ hides-hidden globals (name ++ (globals.deletedmodifier ++ digits)) h
          ∙ ap some (deleted_hidden globals name digits h l a),
      ap (hides globals) (makerelative-append dir (name ++ globals.versionmodifier) log)
          ∙ hides-hidden globals (name ++ globals.versionmodifier) h
          ∙ ap some (version_hidden globals name),
      ap (hides globals) (makerelative-append dir globals.versionmodifier v)
          ∙ hides-hidden globals globals.versionmodifier h
          ∙ ap some (version_hidden globals []),
    )
