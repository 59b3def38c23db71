-- ===== src/Copyfs/Cache/Links.antt =====
-- The chain of a bucket as a list of addresses, and what updates of single structures do to it.
use reproduction.Base.{
  ℕ, ◌≡◌, ◌≢◌, refl, ap, ◌∙◌, ◌⊎◌, inl, inr, List, [], ◌∷◌, ◌++◌, Option, none, some, ◌==◌,
  if◌then◌else◌, arith, All, ==_refl, ==_ne,
}
use reproduction.Copyfs.Structs.{Metadata}
use reproduction.Copyfs.Cache.{set_previous}

-- The chain from `top` runs through these addresses and ends; each has the one in front of it as its
-- previous item, or none.
abbrev pub Links : (ℕ → Option Metadata) → Option ℕ → Option ℕ → List ℕ → Type 0
Links store before top [] = top ≡ none
Links store before top (p ∷ ps) =
    (top ≡ some p)
    × ((md : Metadata) × (store p ≡ some md)
        × ((md.md_previous ≡ none) ⊎ (md.md_previous ≡ before))
        × Links store (some p) md.md_next ps)

-- `p` is none of the addresses.
abbrev pub IsOut : ℕ → List ℕ → Type 0
IsOut p = All (λ q. q ≢ p)

abbrev pub AllDistinct : List ℕ → Type 0
AllDistinct [] = Unit
AllDistinct (p ∷ ps) = IsOut p ps × AllDistinct ps

abbrev pub apply : (Metadata → Metadata) → Option Metadata → Option Metadata
apply f none = none
apply f (some md) = some (f md)

-- `*p` is changed.
abbrev pub update : (ℕ → Option Metadata) → ℕ → (Metadata → Metadata) → ℕ → Option Metadata
update store p f q = if q == p then apply f (store p) else store q

pub update_here :
    (store : ℕ → Option Metadata) (p : ℕ) (f : Metadata → Metadata) (md : Metadata)
    → store p ≡ some md
    → update store p f p ≡ some (f md)
update_here store p f md h = ground (arith, ==_refl p, h)

pub update_else :
    (store : ℕ → Option Metadata) (p q : ℕ) (f : Metadata → Metadata)
    → q ≢ p
    → update store p f q ≡ store q
update_else store p q f n = ground (arith, ==_ne q p n)

-- A chain does not see a change elsewhere.
pub Links-out :
    (store : ℕ → Option Metadata) (p : ℕ) (f : Metadata → Metadata) (before top : Option ℕ)
    (ps : List ℕ)
    → IsOut p ps
    → Links store before top ps
    → Links (update store p f) before top ps
Links-out store p f before top [] o h = h
Links-out store p f before top (q ∷ ps) o (t, (md, e, b, l)) =
    (t, (md, update_else store p q f o.0 ∙ e, b, Links-out store p f (some q) md.md_next ps o.1 l))

-- The first item may lose its previous one.
pub Links-top :
    (store : ℕ → Option Metadata) (p : ℕ) (before before' top : Option ℕ) (ps : List ℕ)
    → IsOut p ps
    → Links store before top (p ∷ ps)
    → Links (update store p (set_previous none)) before' top (p ∷ ps)
Links-top store p before before' top ps o (t, (md, e, b, l)) = (
  t,
  (
    set_previous none md,
    update_here store p (set_previous none) md e,
    inl refl,
    Links-out store p (set_previous none) (some p) md.md_next ps o l,
  ),
)

-- The first item may get the right previous one.
pub Links-previous :
    (store : ℕ → Option Metadata) (p : ℕ) (before before' top : Option ℕ) (ps : List ℕ)
    → IsOut p ps
    → Links store before top (p ∷ ps)
    → Links (update store p (set_previous before')) before' top (p ∷ ps)
Links-previous store p before before' top ps o (t, (md, e, b, l)) = (
  t,
  (
    set_previous before' md,
    update_here store p (set_previous before') md e,
    inr refl,
    Links-out store p (set_previous before') (some p) md.md_next ps o l,
  ),
)

-- The structures of a chain are there, one at each address.
pub Links-next :
    (store : ℕ → Option Metadata) (before top : Option ℕ) (done : List ℕ) (p : ℕ) (ps : List ℕ)
    → Links store before top (done ++ p ∷ ps)
    → (md : Metadata) × (store p ≡ some md) × Links store (some p) md.md_next ps
Links-next store before top [] p ps (t, (md, e, b, l)) = (md, e, l)
Links-next store before top (d ∷ done) p ps (t, (md, e, b, l)) =
    Links-next store (some d) md.md_next done p ps l

-- What an item of a chain knows of the one in front of it.
pub previous_of :
    (store : ℕ → Option Metadata) (before top : Option ℕ) (done : List ℕ) (p : ℕ) (rest : List ℕ)
    → Links store before top (done ++ p ∷ rest)
    → (md : Metadata) × (store p ≡ some md)
      × ((md.md_previous ≡ none)
          ⊎ ((done ≡ []) × (md.md_previous ≡ before))
          ⊎ ((front : List ℕ) × (b : ℕ) × (done ≡ front ++ b ∷ []) × (md.md_previous ≡ some b)))
      × Links store (some p) md.md_next rest
previous_of store before top [] p rest (t, (md, e, inl n, l)) = (md, e, inl n, l)
previous_of store before top [] p rest (t, (md, e, inr b, l)) = (md, e, inr (inl (refl, b)), l)
previous_of store before top (d ∷ done) p rest (t, (m, h, b, l)) =
    let (md, e, k, behind) = previous_of store (some d) m.md_next done p rest l in
    (
      md,
      e,
      elim k [
        | inl n ↦ inl n
        | inr (inl (nothing, q)) ↦ inr (inr ([], d, ap (◌∷◌ d) nothing, q))
        | inr (inr (front, c, same, q)) ↦ inr (inr (d ∷ front, c, ap (◌∷◌ d) same, q))
      ],
      behind,
    )

pub top_of :
    (store : ℕ → Option Metadata) (before top : Option ℕ) (front : List ℕ) (b : ℕ) (rest : List ℕ)
    → Links store before top (front ++ b ∷ rest)
    → (t : ℕ) × (top ≡ some t)
top_of store before top [] b rest (t, l) = (b, t)
top_of store before top (q ∷ front) b rest (t, l) = (q, t)
