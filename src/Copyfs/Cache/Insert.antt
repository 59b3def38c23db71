-- ===== src/Copyfs/Cache/Insert.antt =====
-- A new structure is put into the cache.
use reproduction.Base.{
  ℕ, suc, ◌+◌, ◌%◌, ◌^◌, ◌<◌, ◌≡◌, ◌≢◌, refl, sym, ◌∙◌, subst⁻¹, inl, List, [], ◌∷◌, Option, none,
  some, arith, All-imp, ==_refl, ==_ne,
}
use reproduction.Copyfs.Structs.{Metadata}
use reproduction.Copyfs.World.{World, Bucket, load, set_at}
use reproduction.Copyfs.Cache.{cache_hash, set_previous, insert_on_top, cache_add_metadata}
use reproduction.Copyfs.Cache.Links.{
  Links, IsOut, AllDistinct, update, update_here, update_else, Links-out, Links-previous,
}
use reproduction.Copyfs.Cache.Relink.{update?}
use reproduction.Copyfs.Cache.Move.{modify_lem, modify?_lem}
use reproduction.Copyfs.Cache.Whole.{IsCache, Links-frame}

-- The structure as the top of a chain.
abbrev pub on_top : Option ℕ → Metadata → Metadata
on_top top md = record md { md_previous = none; md_next = top }

abbrev pub inserted : (ℕ → Option Metadata) → ℕ → Option ℕ → ℕ → Option Metadata
inserted store p top = update? (update store p (on_top top)) top (set_previous (some p))

pub inserted_else :
    (store : ℕ → Option Metadata) (before top : Option ℕ) (p q : ℕ) (ps : List ℕ)
    → Links store before top ps
    → q ≢ p
    → IsOut q ps
    → inserted store p top q ≡ store q
inserted_else store before top p q [] t n o =
    subst⁻¹ (λ top. inserted store p top q ≡ store q) t (update_else store p q (on_top none) n)
inserted_else store before top p q (c ∷ ps) (t, l) n o =
    subst⁻¹ (λ top. inserted store p top q ≡ store q) t
      (update_else (update store p (on_top (some c))) c q (set_previous (some p)) (λ e. o.0 (sym e))
        ∙ update_else store p q (on_top (some c)) n)

inserted_here :
    (store : ℕ → Option Metadata) (before top : Option ℕ) (p : ℕ) (ps : List ℕ) (md : Metadata)
    → Links store before top ps
    → IsOut p ps
    → store p ≡ some md
    → inserted store p top p ≡ some (on_top top md)
inserted_here store before top p [] md t o h =
    subst⁻¹ (λ top. inserted store p top p ≡ some (on_top top md)) t
      (update_here store p (on_top none) md h)
inserted_here store before top p (c ∷ ps) md (t, l) o h =
    subst⁻¹ (λ top. inserted store p top p ≡ some (on_top top md)) t
      (update_else (update store p (on_top (some c))) c p (set_previous (some p)) (λ e. o.0 (sym e))
        ∙ update_here store p (on_top (some c)) md h)

inserted-tail :
    (store : ℕ → Option Metadata) (before top : Option ℕ) (p : ℕ) (ps : List ℕ)
    → Links store before top ps
    → IsOut p ps
    → AllDistinct ps
    → Links (inserted store p top) (some p) top ps
inserted-tail store before top p [] t o d = t
inserted-tail store before top p (c ∷ ps) (t, rest) o d =
    subst⁻¹ (λ top. Links (inserted store p top) (some p) top (c ∷ ps)) t
      (Links-previous (update store p (on_top (some c))) c before (some p) (some c) ps d.0
        (Links-out store p (on_top (some c)) before (some c) (c ∷ ps) o (refl, rest)))

pub Links-inserted :
    (store : ℕ → Option Metadata) (top : Option ℕ) (p : ℕ) (ps : List ℕ) (md : Metadata)
    → Links store none top ps
    → IsOut p ps
    → AllDistinct ps
    → store p ≡ some md
    → Links (inserted store p top) none (some p) (p ∷ ps)
Links-inserted store top p ps md l o d h = (
  refl,
  (
    on_top top md,
    inserted_here store none top p ps md l o h,
    inl refl,
    inserted-tail store none top p ps l o d,
  ),
)

-- The bucket with `p` on top, counted.
abbrev pub topped : ℕ → ℕ → (ℕ → Bucket) → ℕ → Bucket
topped i p buckets =
    let there = set_at buckets i (record (buckets i) { b_contents = some p }) in
    set_at there i (record (there i) { b_count = ((there i).b_count + 1) % 2 ^ 32 })

abbrev pub behind_add : ℕ → ℕ → World → World
behind_add i p w = record w {
  store = inserted w.store p (w.buckets i).b_contents;
  item_count = (w.item_count + 1) % 2 ^ 32;
  buckets = topped i p w.buckets;
}

pub topped_here : (i p : ℕ) (buckets : ℕ → Bucket) → (topped i p buckets i).b_contents ≡ some p
topped_here i p buckets = ground (arith, ==_refl i)

pub topped_else : (i p j : ℕ) (buckets : ℕ → Bucket) → j ≢ i → topped i p buckets j ≡ buckets j
topped_else i p j buckets n = ground (arith, ==_ne j i n)

insert_lem :
    (i p : ℕ) (md : Metadata) (ps : List ℕ) (w : World)
    → w.store p ≡ some md
    → Links w.store none (w.buckets i).b_contents ps
    → IsOut p ps
    → insert_on_top i p w ≡ some (tt, behind_add i p w)
unfolding insert_on_top
insert_lem i p md ps w h l o =
    let top = (w.buckets i).b_contents in
    let s1 = update w.store p (on_top top) in
    let c1 = modify_lem p (on_top top) w md h in
    let c2 =
      modify?_lem top (set_previous (some p)) (record w { store = s1 }) none ps
        (Links-out w.store p (on_top top) none top ps o l) in
    rw (insert_on_top, c1, c2) refl

pub add_lem :
    (p : ℕ) (md : Metadata) (ps : List ℕ) (w : World)
    → w.store p ≡ some md
    → Links w.store none (w.buckets (cache_hash md.md_vfile)).b_contents ps
    → IsOut p ps
    → cache_add_metadata p w ≡ some (tt, behind_add (cache_hash md.md_vfile) p w)
unfolding cache_add_metadata load
add_lem p md ps w h l o = ground (arith, h, insert_lem (cache_hash md.md_vfile) p md ps w h l o)

-- The world with a new structure at the next address.
abbrev pub with_new : Metadata → World → World
with_new md w = record w { store = set_at w.store w.fresh (some md); fresh = suc w.fresh }

pub new_there : (md : Metadata) (w : World) → (with_new md w).store w.fresh ≡ some md
new_there md w = ground (arith, ==_refl w.fresh)

new_else : (md : Metadata) (w : World) (q : ℕ) → q < w.fresh → (with_new md w).store q ≡ w.store q
new_else md w q h = ground (arith, h)

module _ (md : Metadata) (w : World) (chains : ℕ → List ℕ) (c : IsCache w chains) where
  -- The chains before, in the world with the new structure.
  pub new_Links : (j : ℕ) → Links (with_new md w).store none (w.buckets j).b_contents (chains j)
  new_Links j =
      Links-frame w.store (with_new md w).store none (w.buckets j).b_contents (chains j)
        (All-imp (λ q. q < w.fresh) (λ q. (with_new md w).store q ≡ w.store q)
          (λ q h. new_else md w q h) (chains j) (c.below j))
        (c.chain j).0

  pub new-IsOut : (j : ℕ) → IsOut w.fresh (chains j)
  new-IsOut j =
      All-imp (λ q. q < w.fresh) (λ q. q ≢ w.fresh) (λ q h. omega (arith, h)) (chains j) (c.below j)
