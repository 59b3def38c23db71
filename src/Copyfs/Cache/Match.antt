-- ===== src/Copyfs/Cache/Match.antt =====
-- The search for the longest cached prefix of a path comes to an end.
use reproduction.Base.{
  ℕ, zero, suc, ◌≤◌, ◌≡◌, refl, ◌∙◌, ◌⊎◌, inl, inr, List, [], ◌∷◌, Option, none, some, arith,
  length, take,
}
use reproduction.Base.Int.{ℤ, pos, negsuc}
use reproduction.Base.Text.{Bytes}
use reproduction.Copyfs.World.{World}
use reproduction.Copyfs.Cache.{cache_get_metadata, joined, match_from, cache_find_maximal_match}
use reproduction.Copyfs.Cache.Whole.{IsCache, cache_get_metadata-IsCache}
use reproduction.Copyfs.Helper.Composite.{
  build_composite, composite_length, composite_text, array_length, array_text,
}

-- The result of the search through `count` elements.
abbrev pub Matched : ℕ → ℤ × Option ℕ → Type 0
Matched count out =
    (out ≡ (negsuc 0, none)) ⊎ ((n : ℕ) × (p : ℕ) × (out ≡ (pos n, some p)) × (n ≤ count))

-- The prefix of a path is put together for every number of elements.
joined_returns :
    (elements : List Bytes) (w : World) → (path : Bytes) × (joined elements w ≡ some (path, w))
unfolding build_composite composite_length composite_text array_length array_text
joined_returns [] w = (_, refl)
joined_returns (x ∷ xs) w = (_, refl)

match_zero :
    (elements : List Bytes) (w w₁ w₂ : World) (path : Bytes) (r : Option ℕ)
    → joined (take 0 elements) w ≡ some (path, w₁)
    → cache_get_metadata path w₁ ≡ some (r, w₂)
    → (out : ℤ × Option ℕ) × (match_from elements zero w ≡ some (out, w₂)) × Matched zero out
unfolding match_from
match_zero elements w w₁ w₂ path none h k = ((negsuc 0, none), rw (match_from, h, k) refl, inl refl)
match_zero elements w w₁ w₂ path (some p) h k =
    ((pos 0, some p), rw (match_from, h, k) refl, inr (zero, p, refl, omega arith))

match_hit :
    (elements : List Bytes) (count p : ℕ) (w w₁ w₂ : World) (path : Bytes)
    → joined (take (suc count) elements) w ≡ some (path, w₁)
    → cache_get_metadata path w₁ ≡ some (some p, w₂)
    → match_from elements (suc count) w ≡ some ((pos (suc count), some p), w₂)
unfolding match_from
match_hit elements count p w w₁ w₂ path h k = rw (match_from, h, k)

match_miss :
    (elements : List Bytes) (count : ℕ) (w w₁ w₂ : World) (path : Bytes)
    → joined (take (suc count) elements) w ≡ some (path, w₁)
    → cache_get_metadata path w₁ ≡ some (none, w₂)
    → match_from elements (suc count) w ≡ match_from elements count w₂
unfolding match_from
match_miss elements count w w₁ w₂ path h k = rw (match_from, h, k)

Matched-suc : (count : ℕ) (out : ℤ × Option ℕ) → Matched count out → Matched (suc count) out
Matched-suc count out (inl e) = inl e
Matched-suc count out (inr (n, p, e, l)) = inr (n, p, e, omega (arith, l))

step :
    (elements : List Bytes) (count : ℕ) (w w₂ : World) (chains : ℕ → List ℕ) (path : Bytes)
    (r : Option ℕ)
    → joined (take (suc count) elements) w ≡ some (path, w)
    → cache_get_metadata path w ≡ some (r, w₂)
    → IsCache w₂ chains
    → (out : ℤ × Option ℕ) × (w' : World) × (chains' : ℕ → List ℕ) × (match_from elements count w₂
        ≡ some (out, w'))
      × Matched count out
      × IsCache w' chains'
    → (out : ℤ × Option ℕ) × (w' : World) × (chains' : ℕ → List ℕ) × (match_from elements
          (suc count)
          w
        ≡ some (out, w'))
      × Matched (suc count) out
      × IsCache w' chains'
step elements count w w₂ chains path none h k c (out, w', chains', e, m, c') =
    (out, w', chains', match_miss elements count w w w₂ path h k ∙ e, Matched-suc count out m, c')
step elements count w w₂ chains path (some p) h k c rest = (
  (pos (suc count), some p),
  w₂,
  chains,
  match_hit elements count p w w w₂ path h k,
  inr (suc count, p, refl, omega arith),
  c,
)

match_from-IsCache :
    (elements : List Bytes) (count : ℕ) (w : World) (chains : ℕ → List ℕ)
    → IsCache w chains
    → (out : ℤ × Option ℕ) × (w' : World) × (chains' : ℕ → List ℕ) × (match_from elements count w
        ≡ some (out, w'))
      × Matched count out
      × IsCache w' chains'
match_from-IsCache elements zero w chains c =
    let (path, h) = joined_returns (take 0 elements) w in
    let (r, w', chains', k, found, c') = cache_get_metadata-IsCache path w chains c in
    let (out, e, m) = match_zero elements w w w' path r h k in (out, w', chains', e, m, c')
match_from-IsCache elements (suc count) w chains c =
    let (path, h) = joined_returns (take (suc count) elements) w in
    let (r, w', chains', k, found, c') = cache_get_metadata-IsCache path w chains c in
    step elements count w w' chains' path r h k c' (match_from-IsCache elements count w' chains' c')

-- In a cache whose chains end, share no structure and hold in each item the one in front of it or
-- none, the search for the longest cached prefix of a path comes to its end, gives -1 and NULL or a
-- number of elements, no more than there are, with a structure, and leaves such a cache.
pub cache_find_maximal_match-IsCache :
    (elements : List Bytes) (w : World) (chains : ℕ → List ℕ)
    → IsCache w chains
    → (out : ℤ × Option ℕ) × (w' : World) × (chains' : ℕ → List ℕ) × (cache_find_maximal_match
          elements w
        ≡ some (out, w'))
      × Matched (length elements) out
      × IsCache w' chains'
unfolding cache_find_maximal_match
cache_find_maximal_match-IsCache elements w chains c =
    match_from-IsCache elements (length elements) w chains c
