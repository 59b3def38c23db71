-- ===== src/Copyfs/Cache/History.antt =====
-- The states of the cache behind its initialization.
use reproduction.Base.{ℕ, ◌≡◌, refl, subst⁻¹, List, [], ◌∷◌, Option, some, arith, length}
use reproduction.Base.Int.{ℤ}
use reproduction.Base.Prog.{◌>>=◌}
use reproduction.Base.Text.{Bytes}
use reproduction.Libc.Os.{Os}
use reproduction.Copyfs.Structs.{Metadata}
use reproduction.Copyfs.World.{World, malloc_metadata, modify}
use reproduction.Copyfs.Cache.{
  cache_initialize, cache_add_metadata, cache_get_metadata, cache_find_maximal_match,
  cache_drop_metadata, cache_hash, empty_bucket,
}
use reproduction.Copyfs.Cache.Whole.{IsCache, changed, cache_get_metadata-IsCache}
use reproduction.Copyfs.Cache.Match.{Matched, cache_find_maximal_match-IsCache}
use reproduction.Copyfs.Cache.Grow.{add_metadata-IsCache}
use reproduction.Copyfs.Cache.Edits.{KeepsLinks, same_world, dropped-IsCache, edited-IsCache}

-- From `cache_initialize` on, new structures are added, paths are looked up, buckets are emptied,
-- fields are set that link no chain, and calls go to the disk. Structures are not freed.
pub data Cached : World → Type 0 where
  initialized : {w' : World} (w : World) → cache_initialize w ≡ some (tt, w') → Cached w'
  added :
      {w w' : World} (md : Metadata)
      → Cached w
      → (malloc_metadata md >>= cache_add_metadata) w ≡ some (tt, w')
      → Cached w'
  got :
      {w w' : World} {r : Option ℕ} (vpath : Bytes)
      → Cached w
      → cache_get_metadata vpath w ≡ some (r, w')
      → Cached w'
  matched :
      {w w' : World} {out : ℤ × Option ℕ} (elements : List Bytes)
      → Cached w
      → cache_find_maximal_match elements w ≡ some (out, w')
      → Cached w'
  dropped :
      {w w' : World} (vpath : Bytes)
      → Cached w
      → cache_drop_metadata vpath w ≡ some (tt, w')
      → Cached w'
  edited :
      {w w' : World} (p : ℕ) (f : Metadata → Metadata)
      → KeepsLinks f
      → Cached w
      → modify p f w ≡ some (tt, w')
      → Cached w'
  called : {w : World} (os : Os) → Cached w → Cached (record w { os = os })

empty-IsCache : (w w' : World) → cache_initialize w ≡ some (tt, w') → IsCache w' (λ i. [])
unfolding cache_initialize
empty-IsCache w w' h =
    let v = record w { buckets = λ i. empty_bucket; item_count = 0 } in
    let e : w' ≡ v = cc in
    subst⁻¹ (λ w. IsCache w (λ i. [])) e
      (record { chain = λ i. (refl, (tt, omega arith)); apart = λ i j n. tt; below = λ i. tt })

pub Cached-IsCache : (w : World) → Cached w → (chains : ℕ → List ℕ) × IsCache w chains
Cached-IsCache w (initialized v h) = ((λ i. []), empty-IsCache v w h)
Cached-IsCache w (added {w = v} md before h) =
    let (chains, c) = Cached-IsCache v before in
    let (w', e, c') = add_metadata-IsCache md v chains c in
    let longer =
      changed chains (cache_hash md.md_vfile) (v.fresh ∷ chains (cache_hash md.md_vfile)) in
    (
      longer,
      subst⁻¹ (λ w. IsCache w longer)
          (same_world ((malloc_metadata md >>= cache_add_metadata) v) tt tt w w' h e) c',
    )
Cached-IsCache w (got {w = v} {r = r} vpath before h) =
    let (chains, c) = Cached-IsCache v before in
    let (r', w', chains', e, found, c') = cache_get_metadata-IsCache vpath v chains c in
    (
      chains',
      subst⁻¹ (λ w. IsCache w chains') (same_world (cache_get_metadata vpath v) r r' w w' h e) c',
    )
Cached-IsCache w (matched {w = v} {out = out} elements before h) =
    let (chains, c) = Cached-IsCache v before in
    let (out', w', chains', e, m, c') = cache_find_maximal_match-IsCache elements v chains c in
    (
      chains',
      subst⁻¹ (λ w. IsCache w chains')
          (same_world (cache_find_maximal_match elements v) out out' w w' h e) c',
    )
Cached-IsCache w (edited {w = v} p f k before h) =
    let (chains, c) = Cached-IsCache v before in
    (chains, edited-IsCache p f v w chains (v.store p) k refl c h)
Cached-IsCache w (called {w = v} os before) =
    let (chains, c) = Cached-IsCache v before in
    (chains, record { chain = c.chain; apart = c.apart; below = c.below })
Cached-IsCache w (dropped {w = v} vpath before h) =
    let (chains, c) = Cached-IsCache v before in
    (changed chains (cache_hash vpath) [], dropped-IsCache vpath v w chains c h)

-- In every state that new structures, look-ups, emptied buckets, other fields that are set and calls on
-- the disk lead to from `cache_initialize`, the search for the longest cached prefix of a path comes
-- to its end; it gives -1 and NULL, or a number of elements, no
-- more than there are, with a structure; and it leads to such a state again.
pub cache_find_maximal_match-Cached :
    (elements : List Bytes) (w : World)
    → Cached w
    → (out : ℤ × Option ℕ) × (w' : World) × (cache_find_maximal_match elements w ≡ some (out, w'))
      × Matched (length elements) out
      × Cached w'
cache_find_maximal_match-Cached elements w before =
    let (chains, c) = Cached-IsCache w before in
    let (out, w', chains', e, m, c') = cache_find_maximal_match-IsCache elements w chains c in
    (out, w', e, m, matched elements before e)
