-- ===== src/Copyfs/Cache/Search.antt =====
-- The search along a chain of the cache.
use reproduction.Base.{
  ℕ, zero, suc, ◌≤◌, ◌≡◌, refl, ap, ◌∙◌, subst⁻¹, inl, inr, List, [], ◌∷◌, ◌++◌, Option, none, some,
  Bool, true, false, arith, All, Bool-cases, length,
}
use reproduction.Base.Text.{Bytes, str_eq}
use reproduction.Copyfs.Structs.{Metadata}
use reproduction.Copyfs.World.{World, load}
use reproduction.Copyfs.Cache.{find_in_chain}
use reproduction.Copyfs.Cache.Links.{Links}

-- The structure at an address has the path, or has another one.
abbrev pub Hits : (ℕ → Option Metadata) → Bytes → Bool → ℕ → Type 0
Hits store vpath hit p = (md : Metadata) × (store p ≡ some md) × (str_eq md.md_vfile vpath ≡ hit)

-- What a search for the path gives: the first address with it, or none.
abbrev pub Found : (ℕ → Option Metadata) → Bytes → List ℕ → Option ℕ → Type 0
Found store vpath ps none = All (Hits store vpath false) ps
Found store vpath ps (some p) =
    (done : List ℕ) × (rest : List ℕ) × (ps ≡ done ++ p ∷ rest)
    × All (Hits store vpath false) done
    × Hits store vpath true p

find_in_chain-none :
    (vpath : Bytes) (fuel : ℕ) (w : World) → find_in_chain vpath fuel none w ≡ some (none, w)
unfolding find_in_chain
find_in_chain-none vpath zero w = refl
find_in_chain-none vpath (suc fuel) w = refl

find_in_chain_hit :
    (vpath : Bytes) (fuel p : ℕ) (w : World) (md : Metadata)
    → w.store p ≡ some md
    → str_eq md.md_vfile vpath ≡ true
    → find_in_chain vpath (suc fuel) (some p) w ≡ some (some p, w)
unfolding find_in_chain load
find_in_chain_hit vpath fuel p w md h e = ground (arith, h, e)

find_in_chain_miss :
    (vpath : Bytes) (fuel p : ℕ) (w : World) (md : Metadata)
    → w.store p ≡ some md
    → str_eq md.md_vfile vpath ≡ false
    → find_in_chain vpath (suc fuel) (some p) w ≡ find_in_chain vpath fuel md.md_next w
unfolding find_in_chain load
find_in_chain_miss vpath fuel p w md h e = ground (arith, h, e)

Found-behind :
    (store : ℕ → Option Metadata) (vpath : Bytes) (q : ℕ) (ps : List ℕ) (r : Option ℕ)
    → Hits store vpath false q
    → Found store vpath ps r
    → Found store vpath (q ∷ ps) r
Found-behind store vpath q ps none miss h = (miss, h)
Found-behind store vpath q ps (some p) miss (done, rest, e, misses, hit) =
    (q ∷ done, rest, ap (◌∷◌ q) e, (miss, misses), hit)

pub find_in_chain_lem :
    (vpath : Bytes) (fuel : ℕ) (before top : Option ℕ) (ps : List ℕ) (w : World)
    → Links w.store before top ps
    → length ps ≤ fuel
    → (r : Option ℕ) × (find_in_chain vpath fuel top w ≡ some (r, w)) × Found w.store vpath ps r
find_in_chain_lem vpath fuel before top [] w t h = (
  none,
  subst⁻¹ (λ top. find_in_chain vpath fuel top w ≡ some (none, w)) t
      (find_in_chain-none vpath fuel w),
  tt,
)
find_in_chain_lem vpath zero before top (p ∷ ps) w l h = absurd (omega arith)
find_in_chain_lem vpath (suc fuel) before top (p ∷ ps) w (t, (md, e, b, l)) h =
    let start = ap (λ top. find_in_chain vpath (suc fuel) top w) t in
    elim (Bool-cases (str_eq md.md_vfile vpath)) [
      | inl hit ↦ (
        some p,
        start ∙ find_in_chain_hit vpath fuel p w md e hit,
        ([], ps, refl, tt, (md, e, hit)),
      )
      | inr miss ↦
          let (r, found, k) =
            find_in_chain_lem vpath fuel (some p) md.md_next ps w l (omega arith) in
          (
            r,
            start ∙ find_in_chain_miss vpath fuel p w md e miss ∙ found,
            Found-behind w.store vpath p ps r (md, e, miss) k,
          )
    ]
