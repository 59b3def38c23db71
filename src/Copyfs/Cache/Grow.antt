-- ===== src/Copyfs/Cache/Grow.antt =====
-- The cache with one structure more.
use reproduction.Base.{
  ℕ, suc, ◌<◌, ◌≡◌, ◌≢◌, ap, sym, ◌∙◌, subst⁻¹, inl, inr, List, [], ◌∷◌, Option, none, some, arith,
  All, All-imp,
}
use reproduction.Base.Prog.{◌>>=◌}
use reproduction.Copyfs.Structs.{Metadata}
use reproduction.Copyfs.World.{World, malloc_metadata}
use reproduction.Copyfs.Cache.{cache_hash, cache_add_metadata}
use reproduction.Copyfs.Cache.Links.{Links, IsOut}
use reproduction.Copyfs.Cache.Insert.{
  inserted_else, Links-inserted, topped_here, topped_else, behind_add, add_lem, with_new, new_there,
  new_Links, new-IsOut,
}
use reproduction.Copyfs.Cache.Kept.{IsChain}
use reproduction.Copyfs.Cache.Whole.{
  IsCache, changed, changed_here, changed_else, same_or_not, Links-frame,
}

All-both : (P Q : ℕ → Type 0) (ps : List ℕ) → All P ps → All Q ps → All (λ q. P q × Q q) ps
All-both P Q [] h k = tt
All-both P Q (p ∷ ps) (x, h) (y, k) = ((x, y), All-both P Q ps h k)

module _ (md : Metadata) (w : World) (chains : ℕ → List ℕ) (c : IsCache w chains) where
  abbrev bucket : ℕ
  bucket = cache_hash md.md_vfile

  abbrev longer : List ℕ
  longer = w.fresh ∷ chains bucket

  abbrev behind : World
  behind = behind_add bucket w.fresh (with_new md w)

  -- The structures of another chain are neither new nor in the chain of the bucket.
  others : (j : ℕ) → j ≢ bucket → All (λ q. (q ≢ w.fresh) × IsOut q (chains bucket)) (chains j)
  others j n =
      All-both (λ q. q ≢ w.fresh) (λ q. IsOut q (chains bucket)) (chains j)
        (new-IsOut md w chains c j) (c.apart bucket j (λ e. n (sym e)))

  longer-IsChain : IsChain behind bucket longer
  longer-IsChain = (
    subst⁻¹ (λ top. Links behind.store none top longer) (topped_here bucket w.fresh w.buckets)
        (Links-inserted (with_new md w).store (w.buckets bucket).b_contents w.fresh (chains bucket)
          md (new_Links md w chains c bucket) (new-IsOut md w chains c bucket) (c.chain bucket).1.0
          (new_there md w)),
    ((new-IsOut md w chains c bucket, (c.chain bucket).1.0), omega (arith, (c.chain bucket).1.1)),
  )

  other-IsChain : (j : ℕ) → j ≢ bucket → IsChain behind j (chains j)
  other-IsChain j n = (
    subst⁻¹ (λ (top : Option ℕ). Links behind.store none top (chains j))
        (ap (λ b. b.b_contents) (topped_else bucket w.fresh j w.buckets n))
        (Links-frame (with_new md w).store behind.store none (w.buckets j).b_contents (chains j)
          (All-imp (λ q. (q ≢ w.fresh) × IsOut q (chains bucket))
            (λ q. behind.store q ≡ (with_new md w).store q)
            (λ q o.
              inserted_else (with_new md w).store none (w.buckets bucket).b_contents w.fresh q
                (chains bucket) (new_Links md w chains c bucket) o.0 o.1)
            (chains j) (others j n))
          (new_Links md w chains c j)),
    ((c.chain j).1.0, omega (arith, (c.chain j).1.1)),
  )

  grown-IsChain : (j : ℕ) → IsChain behind j (changed chains bucket longer j)
  grown-IsChain j = elim (same_or_not j bucket) [
    | inl e ↦
        subst⁻¹ (λ j. IsChain behind j (changed chains bucket longer j)) e
          (subst⁻¹ (IsChain behind bucket) (changed_here chains bucket longer) longer-IsChain)
    | inr n ↦ subst⁻¹ (IsChain behind j) (changed_else chains bucket j longer n) (other-IsChain j n)
  ]

  grown_apart :
      (a b : ℕ)
      → a ≢ b
      → All (λ q. IsOut q (changed chains bucket longer a)) (changed chains bucket longer b)
  grown_apart a b ne = elim (same_or_not a bucket) [
    | inl e ↦
        let far : b ≢ bucket = λ h. ne (e ∙ sym h) in
        subst⁻¹ (λ xs. All (λ q. IsOut q xs) (changed chains bucket longer b))
          (ap (changed chains bucket longer) e ∙ changed_here chains bucket longer)
          (subst⁻¹ (All (λ q. IsOut q longer)) (changed_else chains bucket b longer far) (
            All-imp (λ q. (q ≢ w.fresh) × IsOut q (chains bucket)) (λ q. IsOut q longer)
              (λ q o. ((λ h. o.0 (sym h)), o.1)) (chains b) (others b far)))
    | inr n ↦
        subst⁻¹ (λ xs. All (λ q. IsOut q xs) (changed chains bucket longer b))
          (changed_else chains bucket a longer n)
          (elim (same_or_not b bucket) [
            | inl e ↦
                subst⁻¹ (All (λ q. IsOut q (chains a)))
                  (ap (changed chains bucket longer) e ∙ changed_here chains bucket longer)
                  (new-IsOut md w chains c a, c.apart a bucket n)
            | inr k ↦
                subst⁻¹ (All (λ q. IsOut q (chains a))) (changed_else chains bucket b longer k)
                  (c.apart a b ne)
          ])
  ]

  grown_below : (j : ℕ) → All (λ q. q < suc w.fresh) (changed chains bucket longer j)
  grown_below j =
      let still : (k : ℕ) → All (λ q. q < suc w.fresh) (chains k) = λ k.
        All-imp (λ q. q < w.fresh) (λ q. q < suc w.fresh) (λ q h. omega (arith, h)) (chains k)
          (c.below k) in
      elim (same_or_not j bucket) [
        | inl e ↦
            subst⁻¹ (All (λ q. q < suc w.fresh))
              (ap (changed chains bucket longer) e ∙ changed_here chains bucket longer)
              (omega arith, still bucket)
        | inr n ↦
            subst⁻¹ (All (λ q. q < suc w.fresh)) (changed_else chains bucket j longer n) (still j)
      ]

new_added :
    (md : Metadata) (w w' : World)
    → cache_add_metadata w.fresh (with_new md w) ≡ some (tt, w')
    → (malloc_metadata md >>= cache_add_metadata) w ≡ some (tt, w')
unfolding malloc_metadata
new_added md w w' h = h

-- Putting a new structure into a cache whose chains end, share no structure and hold in each item the
-- one in front of it or none, as the path translation does, comes to its end, puts the structure
-- on top of the chain of its path, and leaves such a cache with the other chains as they were.
pub add_metadata-IsCache :
    (md : Metadata) (w : World) (chains : ℕ → List ℕ)
    → IsCache w chains
    → (w' : World) × ((malloc_metadata md >>= cache_add_metadata) w ≡ some (tt, w'))
      × IsCache w'
          (changed chains (cache_hash md.md_vfile) (w.fresh ∷ chains (cache_hash md.md_vfile)))
add_metadata-IsCache md w chains c = (
  behind md w chains c,
  new_added md w (behind md w chains c) (
      add_lem w.fresh md (chains (cache_hash md.md_vfile)) (with_new md w) (new_there md w)
        (new_Links md w chains c (cache_hash md.md_vfile))
        (new-IsOut md w chains c (cache_hash md.md_vfile))),
  record {
    chain = grown-IsChain md w chains c;
    apart = grown_apart md w chains c;
    below = grown_below md w chains c;
  },
)
