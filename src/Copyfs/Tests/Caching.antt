-- ===== src/Copyfs/Tests/Caching.antt =====
-- The root and a file `/a` in an empty cache.
use reproduction.Base.{◌≡◌, refl, [], ◌∷◌, none, some, false, ◌==◌, if◌then◌else◌, arith}
use reproduction.Base.Text.{codes}
use reproduction.Copyfs.Structs.{Metadata, latest}
use reproduction.Copyfs.World.{World}
use reproduction.Copyfs.Cache.{
  empty_bucket, cache_add_metadata, cache_get_metadata, cache_hash, hash_string,
}
use reproduction.Copyfs.Cache.Recall.{get-add_metadata}
use reproduction.Base.{ℕ, List, inl, inr, Bool-cases, ◌<◌, ◌≢◌, Option, length, All}
use reproduction.Base.Int.{ℤ}
use reproduction.Copyfs.Cache.{cache_find_maximal_match}
use reproduction.Copyfs.Cache.Kept.{IsChain}
use reproduction.Copyfs.Cache.Links.{IsOut}
use reproduction.Copyfs.Cache.Whole.{IsCache}
use reproduction.Copyfs.Cache.Match.{Matched}
use reproduction.Base.Prog.{◌>>=◌}
use reproduction.Copyfs.World.{malloc_metadata, load, modify}
use reproduction.Copyfs.Cache.{cache_initialize, insert_on_top}
use reproduction.Copyfs.Cache.Insert.{behind_add, with_new}
use reproduction.Copyfs.Cache.Whole.{changed}
use reproduction.Copyfs.Cache.Grow.{add_metadata-IsCache}
use reproduction.Copyfs.Cache.History.{Cached, added, initialized, cache_find_maximal_match-Cached}

abbrev md : Metadata
md = record {
  md_vfile = codes "/a";
  md_vpath = codes "a" ∷ [];
  md_versions = [];
  md_deleted = false;
  md_dfl_vid = latest;
  md_dfl_svid = latest;
  md_timestamp = 0;
  md_next = none;
  md_previous = none;
}

-- Another file in the same bucket: the hash does not see the order of the bytes.
abbrev other : Metadata
other = record md { md_vfile = codes "a/"; md_vpath = [] }

same_hash : cache_hash (codes "/a") ≡ cache_hash (codes "a/")
unfolding cache_hash hash_string
same_hash = refl

abbrev w : World
w = record {
  os = record { disk = λ _. none; faults = []; errno = 0; now = 9 };
  store = λ p. if p == 5 then some md else if p == 4 then some other else none;
  fresh = 6;
  buckets = λ i.
      if i == cache_hash (codes "/a")
      then record { b_count = 1; b_contents = some 4 }
      else empty_bucket;
  item_count = 1;
  ignore_deleted = false;
  version_path = codes "/v";
}

get-add_metadata_example :
    (w' : World) × (cache_add_metadata 5 w ≡ some (tt, w'))
    × (cache_get_metadata (codes "/a") w' ≡ some (some 5, w'))
    × (w'.store 5 ≡ some (record md { md_previous = none; md_next = some 4 }))
unfolding cache_hash hash_string
get-add_metadata_example = get-add_metadata 5 md w refl ((omega arith), other, refl)

-- Both files in the chain of their bucket.
abbrev linked : World
linked = record w {
  store = λ p.
      if p == 5
      then some (record md { md_previous = some 4 })
      else if p == 4
      then some (record other { md_next = some 5 })
      else none;
}

abbrev chains : ℕ → List ℕ
chains i = if i == cache_hash (codes "/a") then 4 ∷ 5 ∷ [] else []

linked-IsChain : (i : ℕ) → IsChain linked i (chains i)
linked-IsChain i = elim (Bool-cases (i == cache_hash (codes "/a"))) [
  | inl e ↦ rw e (
    (refl, (_, refl, inl refl, (refl, (_, refl, inr refl, refl)))),
    (((omega arith, tt), (tt, tt)), omega arith),
  )
  | inr e ↦ rw e (refl, (tt, omega arith))
]

linked-apart : (i j : ℕ) → i ≢ j → All (λ q. IsOut q (chains i)) (chains j)
linked-apart i j n = elim (Bool-cases (j == cache_hash (codes "/a"))) [
  | inr e ↦ rw e tt
  | inl e ↦ elim (Bool-cases (i == cache_hash (codes "/a"))) [
    | inr k ↦ rw (e, k) (tt, (tt, tt))
    | inl k ↦ absurd (n (ground (arith, e, k)))
  ]
]

linked-below : (i : ℕ) → All (λ q. q < linked.fresh) (chains i)
linked-below i = elim (Bool-cases (i == cache_hash (codes "/a"))) [
  | inl e ↦ rw e (omega arith, (omega arith, tt))
  | inr e ↦ rw e tt
]

linked-IsCache : IsCache linked chains
linked-IsCache = record { chain = linked-IsChain; apart = linked-apart; below = linked-below }

add_metadata-IsCache_example :
    (w' : World) × ((malloc_metadata md >>= cache_add_metadata) linked ≡ some (tt, w'))
    × IsCache w' (changed chains (cache_hash md.md_vfile) (6 ∷ chains (cache_hash md.md_vfile)))
add_metadata-IsCache_example = add_metadata-IsCache md linked chains linked-IsCache

-- The cache behind its initialization, and with one file.
abbrev initial : World
initial = record w { buckets = λ _. empty_bucket; item_count = 0 }

abbrev filled : World
filled = behind_add (cache_hash (codes "/a")) 6 (with_new md initial)

filled-Cached : Cached filled
unfolding cache_initialize cache_add_metadata insert_on_top malloc_metadata load modify cache_hash
    hash_string
filled-Cached = added md (initialized w refl) refl

cache_find_maximal_match-Cached_example :
    (out : ℤ × Option ℕ) × (w' : World) × (cache_find_maximal_match
        (codes "a" ∷ codes "b" ∷ [])
        filled
      ≡ some (out, w'))
    × Matched (length (codes "a" ∷ codes "b" ∷ [])) out
    × Cached w'
cache_find_maximal_match-Cached_example =
    cache_find_maximal_match-Cached (codes "a" ∷ codes "b" ∷ []) filled filled-Cached
