-- ===== src/Copyfs/Cache/Edits.antt =====
-- Changes of the cache that move no item: emptied buckets and fields that link no chain.
use reproduction.Base.{
  ℕ, ◌<◌, ◌≡◌, ◌≢◌, ap, ◌∙◌, subst⁻¹, ◌⊎◌, inl, inr, List, [], ◌∷◌, Option, none, some, arith, All,
  All-imp, ==_refl, ==_ne,
}
use reproduction.Base.Text.{Bytes}
use reproduction.Copyfs.Structs.{Metadata}
use reproduction.Copyfs.World.{World, modify, set_at}
use reproduction.Copyfs.Cache.{cache_drop_metadata, cache_hash}
use reproduction.Copyfs.Cache.Links.{Links, IsOut, apply}
use reproduction.Copyfs.Cache.Kept.{IsChain}
use reproduction.Copyfs.Cache.Whole.{IsCache, changed, changed_here, changed_else, same_or_not}

abbrev pub KeepsLinks : (Metadata → Metadata) → Type 0
KeepsLinks f =
    (md : Metadata) → ((f md).md_next ≡ md.md_next) × ((f md).md_previous ≡ md.md_previous)

pub same_world :
    {A : Type 0} (x : Option (A × World)) (a b : A) (w w' : World)
    → x ≡ some (a, w)
    → x ≡ some (b, w')
    → w ≡ w'
same_world x a b w w' h k = cc

-- The cache with the bucket emptied.
abbrev without : ℕ → World → World
without i w = record w { buckets = set_at w.buckets i (record (w.buckets i) { b_contents = none }) }

without_else :
    (i j : ℕ) (w : World) → j ≢ i → ((without i w).buckets j).b_contents ≡ (w.buckets j).b_contents
without_else i j w n = ground (arith, ==_ne j i n)

pub dropped-IsCache :
    (vpath : Bytes) (w w' : World) (chains : ℕ → List ℕ)
    → IsCache w chains
    → cache_drop_metadata vpath w ≡ some (tt, w')
    → IsCache w' (changed chains (cache_hash vpath) [])
unfolding cache_drop_metadata
dropped-IsCache vpath w w' chains c h =
    let i = cache_hash vpath in
    let v = without i w in
    let left = changed chains i [] in
    let e : w' ≡ v = cc in
    subst⁻¹ (λ w. IsCache w left) e
      (record {
        chain = λ j. elim (same_or_not j i) [
          | inl e ↦
              subst⁻¹ (λ j. IsChain v j (left j)) e
                (subst⁻¹ (IsChain v i) (changed_here chains i [])
                  (ground (arith, ==_refl i), (tt, omega arith)))
          | inr n ↦ subst⁻¹ (IsChain v j) (changed_else chains i j [] n) (
            subst⁻¹ (λ top. Links w.store none top (chains j)) (without_else i j w n) (c.chain j).0,
            (c.chain j).1,
          )
        ];
        apart = λ a b n. elim (same_or_not b i) [
          | inl e ↦ subst⁻¹ (All (λ q. IsOut q (left a))) (ap left e ∙ changed_here chains i []) tt
          | inr k ↦
              subst⁻¹ (All (λ q. IsOut q (left a))) (changed_else chains i b [] k)
                (elim (same_or_not a i) [
                  | inl e ↦
                      subst⁻¹ (λ xs. All (λ q. IsOut q xs) (chains b))
                        (ap left e ∙ changed_here chains i [])
                        (All-imp (λ q. IsOut q (chains a)) (λ q. IsOut q []) (λ q o. tt) (chains b)
                          (c.apart a b n))
                  | inr m ↦
                      subst⁻¹ (λ xs. All (λ q. IsOut q xs) (chains b))
                        (changed_else chains i a [] m) (c.apart a b n)
                ])
        ];
        below = λ j. elim (same_or_not j i) [
          | inl e ↦ subst⁻¹ (All (λ q. q < w.fresh)) (ap left e ∙ changed_here chains i []) tt
          | inr n ↦ subst⁻¹ (All (λ q. q < w.fresh)) (changed_else chains i j [] n) (c.below j)
        ];
      })

-- A structure whose links stay as they are changes no chain.
Links-edited :
    (store store' : ℕ → Option Metadata) (f : Metadata → Metadata) (before top : Option ℕ)
    (ps : List ℕ)
    → KeepsLinks f
    → ((q : ℕ) → (store' q ≡ store q) ⊎ (store' q ≡ apply f (store q)))
    → Links store before top ps
    → Links store' before top ps
Links-edited store store' f before top [] k s t = t
Links-edited store store' f before top (p ∷ ps) k s (t, (md, e, b, l)) =
    let behind = Links-edited store store' f (some p) md.md_next ps k s l in
    let (next, previous) = k md in
    (
      t,
      elim (s p) [
        | inl h ↦ (md, h ∙ e, b, behind)
        | inr h ↦ (
          f md,
          h ∙ ap (apply f) e,
          elim b [ inl n ↦ inl (previous ∙ n) | inr n ↦ inr (previous ∙ n) ],
          subst⁻¹ (λ top. Links store' (some p) top ps) next behind,
        )
      ],
    )

edited_store :
    (p q : ℕ) (f : Metadata → Metadata) (md : Metadata) (store : ℕ → Option Metadata)
    → store p ≡ some md
    → (set_at store p (some (f md)) q ≡ store q)
      ⊎ (set_at store p (some (f md)) q ≡ apply f (store q))
edited_store p q f md store h = elim (same_or_not q p) [
  | inl e ↦ inr (ground (arith, e, h))
  | inr n ↦ inl (ground (arith, ==_ne q p n))
]

pub edited-IsCache :
    (p : ℕ) (f : Metadata → Metadata) (w w' : World) (chains : ℕ → List ℕ) (o : Option Metadata)
    → KeepsLinks f
    → w.store p ≡ o
    → IsCache w chains
    → modify p f w ≡ some (tt, w')
    → IsCache w' chains
unfolding modify
edited-IsCache p f w w' chains none k h c m = absurd (ground (arith, h, m))
edited-IsCache p f w w' chains (some md) k h c m =
    let v = record w { store = set_at w.store p (some (f md)) } in
    let done : modify p f w ≡ some (tt, v) = ground (arith, h) in
    subst⁻¹ (λ w. IsCache w chains) (same_world (modify p f w) tt tt w' v m done)
      (record {
        chain = λ i. (
          Links-edited w.store v.store f none (w.buckets i).b_contents (chains i) k
              (λ q. edited_store p q f md w.store h) (c.chain i).0,
          (c.chain i).1,
        );
        apart = c.apart;
        below = c.below;
      })
