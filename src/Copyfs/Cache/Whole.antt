-- ===== src/Copyfs/Cache/Whole.antt =====
-- Look-ups in the whole cache.
use reproduction.Base.{
  ℕ, ◌<◌, ◌≡◌, ◌≢◌, ap, sym, ◌∙◌, subst⁻¹, ◌⊎◌, inl, inr, List, [], ◌∷◌, ◌++◌, Option, none, some,
  ◌==◌, if◌then◌else◌, arith, All, All-imp, Bool-cases, ==_refl, ==_ne,
}
use reproduction.Base.Text.{Bytes}
use reproduction.Copyfs.Structs.{Metadata}
use reproduction.Copyfs.World.{World}
use reproduction.Copyfs.Cache.{cache_get_metadata, cache_hash}
use reproduction.Copyfs.Cache.Links.{Links, IsOut}
use reproduction.Copyfs.Cache.Search.{Found}
use reproduction.Copyfs.Cache.Kept.{IsChain, Frame, Bumped, cache_get_metadata-IsChain}

-- Every bucket has its chain, of addresses that were handed out, and no structure is in two of them.
pub record IsCache (w : World) (chains : ℕ → List ℕ) : Type 0 where
  pub chain : (i : ℕ) → IsChain w i (chains i)
  pub apart : (i j : ℕ) → i ≢ j → All (λ q. IsOut q (chains i)) (chains j)
  pub below : (i : ℕ) → All (λ q. q < w.fresh) (chains i)

-- What holds of all addresses holds of them in another order.
All-middle :
    (P : ℕ → Type 0) (done : List ℕ) (p : ℕ) (rest : List ℕ)
    → All P (done ++ p ∷ rest)
    → P p × All P (done ++ rest)
All-middle P [] p rest h = h
All-middle P (d ∷ done) p rest (x, h) = let (y, k) = All-middle P done p rest h in (y, (x, k))

All-Bumped :
    (P : ℕ → Type 0) (ps ps' : List ℕ) (r : Option ℕ) → Bumped ps r ps' → All P ps → All P ps'
All-Bumped P ps ps' none e h = subst⁻¹ (All P) e h
All-Bumped P ps ps' (some p) (inl e) h = subst⁻¹ (All P) e h
All-Bumped P ps ps' (some p) (inr (done, rest, e, e')) h =
    subst⁻¹ (All P) e' (All-middle P done p rest (subst⁻¹ (All P) (sym e) h))

pub Links-frame :
    (store store' : ℕ → Option Metadata) (before top : Option ℕ) (ps : List ℕ)
    → All (λ q. store' q ≡ store q) ps
    → Links store before top ps
    → Links store' before top ps
Links-frame store store' before top [] same t = t
Links-frame store store' before top (p ∷ ps) (e, same) (t, (md, h, b, l)) =
    (t, (md, e ∙ h, b, Links-frame store store' (some p) md.md_next ps same l))

pub same_or_not : (i j : ℕ) → (i ≡ j) ⊎ (i ≢ j)
same_or_not i j = elim (Bool-cases (i == j)) [
  | inl e ↦ inl (ground (arith, e))
  | inr e ↦ inr (λ h. ground (arith, e, h))
]

-- The chains, with another one for the bucket `i`.
abbrev pub changed : (ℕ → List ℕ) → ℕ → List ℕ → ℕ → List ℕ
changed chains i ps j = if j == i then ps else chains j

pub changed_here : (chains : ℕ → List ℕ) (i : ℕ) (ps : List ℕ) → changed chains i ps i ≡ ps
changed_here chains i ps = ground (arith, ==_refl i)

pub changed_else :
    (chains : ℕ → List ℕ) (i j : ℕ) (ps : List ℕ) → j ≢ i → changed chains i ps j ≡ chains j
changed_else chains i j ps n = ground (arith, ==_ne j i n)

module _ (w w' : World) (chains : ℕ → List ℕ) (i : ℕ) (r : Option ℕ) (ps' : List ℕ) where
  other-IsChain :
      (j : ℕ) → IsCache w chains → Frame w w' i (chains i) → j ≢ i → IsChain w' j (chains j)
  other-IsChain j c f n =
      let (l, (d, short)) = c.chain j in
      (
        subst⁻¹ (λ top. Links w'.store none top (chains j)) (f.contents j n)
            (Links-frame w.store w'.store none (w.buckets j).b_contents (chains j)
              (All-imp (λ q. IsOut q (chains i)) (λ q. w'.store q ≡ w.store q) (λ q o. f.store q o)
                (chains j) (c.apart i j (λ e. n (sym e))))
              l),
        (d, omega (arith, short, f.fresh)),
      )

  changed-IsChain :
      (j : ℕ)
      → IsCache w chains
      → IsChain w' i ps'
      → Frame w w' i (chains i)
      → IsChain w' j (changed chains i ps' j)
  changed-IsChain j c k f = elim (same_or_not j i) [
    | inl e ↦
        subst⁻¹ (λ j. IsChain w' j (changed chains i ps' j)) e
          (subst⁻¹ (IsChain w' i) (changed_here chains i ps') k)
    | inr n ↦ subst⁻¹ (IsChain w' j) (changed_else chains i j ps' n) (other-IsChain j c f n)
  ]

  -- `a` is not the bucket of the look-up, `b` may be.
  apart_from :
      (a b : ℕ)
      → IsCache w chains
      → Bumped (chains i) r ps'
      → a ≢ i
      → a ≢ b
      → All (λ q. IsOut q (chains a)) (changed chains i ps' b)
  apart_from a b c m n ne = elim (same_or_not b i) [
    | inl e ↦
        subst⁻¹ (All (λ q. IsOut q (chains a)))
          (ap (changed chains i ps') e ∙ changed_here chains i ps')
          (All-Bumped (λ q. IsOut q (chains a)) (chains i) ps' r m (c.apart a i n))
    | inr k ↦
        subst⁻¹ (All (λ q. IsOut q (chains a))) (changed_else chains i b ps' k) (c.apart a b ne)
  ]

  changed_apart :
      (a b : ℕ)
      → IsCache w chains
      → Bumped (chains i) r ps'
      → a ≢ b
      → All (λ q. IsOut q (changed chains i ps' a)) (changed chains i ps' b)
  changed_apart a b c m ne = elim (same_or_not a i) [
    | inl e ↦
        let far : b ≢ i = λ h. ne (e ∙ sym h) in
        subst⁻¹ (λ xs. All (λ q. IsOut q xs) (changed chains i ps' b))
          (ap (changed chains i ps') e ∙ changed_here chains i ps')
          (subst⁻¹ (All (λ q. IsOut q ps')) (changed_else chains i b ps' far) (
            All-imp (λ q. IsOut q (chains i)) (λ q. IsOut q ps')
              (λ q o. All-Bumped (λ p. p ≢ q) (chains i) ps' r m o) (chains b)
              (c.apart i b (λ h. far (sym h)))))
    | inr n ↦
        subst⁻¹ (λ xs. All (λ q. IsOut q xs) (changed chains i ps' b))
          (changed_else chains i a ps' n) (apart_from a b c m n ne)
  ]

  changed_below :
      (j : ℕ)
      → IsCache w chains
      → Bumped (chains i) r ps'
      → w'.fresh ≡ w.fresh
      → All (λ q. q < w'.fresh) (changed chains i ps' j)
  changed_below j c m e =
      subst⁻¹ (λ n. All (λ q. q < n) (changed chains i ps' j)) e
        (elim (same_or_not j i) [
          | inl h ↦
              subst⁻¹ (All (λ q. q < w.fresh))
                (ap (changed chains i ps') h ∙ changed_here chains i ps')
                (All-Bumped (λ q. q < w.fresh) (chains i) ps' r m (c.below i))
          | inr n ↦ subst⁻¹ (All (λ q. q < w.fresh)) (changed_else chains i j ps' n) (c.below j)
        ])

-- In a cache whose chains end, share no structure and hold in each item the one in front of it or
-- none, a look-up comes to its end, gives the first item of its bucket with the path, or NULL, and
-- leaves such a cache.
pub cache_get_metadata-IsCache :
    (vpath : Bytes) (w : World) (chains : ℕ → List ℕ)
    → IsCache w chains
    → (r : Option ℕ) × (w' : World) × (chains' : ℕ → List ℕ) × (cache_get_metadata vpath w
        ≡ some (r, w'))
      × Found w.store vpath (chains (cache_hash vpath)) r
      × IsCache w' chains'
cache_get_metadata-IsCache vpath w chains c =
    let i = cache_hash vpath in
    let (r, w', ps', e, found, m, k, f) =
      cache_get_metadata-IsChain vpath w (chains i) (c.chain i) in
    (
      r,
      w',
      changed chains i ps',
      e,
      found,
      record {
        chain = λ j. changed-IsChain w w' chains i r ps' j c k f;
        apart = λ a b ne. changed_apart w w' chains i r ps' a b c m ne;
        below = λ j. changed_below w w' chains i r ps' j c m f.fresh;
      },
    )
