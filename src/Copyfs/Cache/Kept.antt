-- ===== src/Copyfs/Cache/Kept.antt =====
-- Looking a path up in the cache comes to an end and keeps the chain of its bucket.
use mathlib.Core.List.{append_assoc}
use reproduction.Base.{
  ℕ, suc, ◌≤◌, ◌≡◌, ◌≢◌, refl, ap, sym, ◌∙◌, subst⁻¹, ◌⊎◌, inl, inr, List, [], ◌∷◌, ◌++◌, Option,
  none, some, arith, length, length-append, ==_refl, ==_ne,
}
use reproduction.Base.Prog.{Prog, pure}
use reproduction.Base.Text.{Bytes}
use reproduction.Copyfs.Structs.{Metadata}
use reproduction.Copyfs.World.{World, load}
use reproduction.Copyfs.Cache.{find_in_chain, cache_get_metadata, cache_hash, move_to_top, bump}
use reproduction.Copyfs.Cache.Links.{Links, AllDistinct, IsOut, previous_of, top_of}
use reproduction.Copyfs.Cache.Search.{Found, find_in_chain_lem}
use reproduction.Copyfs.Cache.Move.{
  Links-moved, move_to_top_lem, with_top, moved, moved_else, IsOut-middle, without_middle,
}

get_none :
    (vpath : Bytes) (w : World)
    → find_in_chain vpath (suc w.fresh) (w.buckets (cache_hash vpath)).b_contents w ≡ some (none, w)
    → cache_get_metadata vpath w ≡ some (none, w)
unfolding cache_get_metadata
get_none vpath w h = rw (cache_get_metadata, h)

get_still :
    (vpath : Bytes) (w : World) (p : ℕ) (md : Metadata)
    → find_in_chain vpath (suc w.fresh) (w.buckets (cache_hash vpath)).b_contents w
      ≡ some (some p, w)
    → w.store p ≡ some md
    → md.md_previous ≡ none
    → cache_get_metadata vpath w ≡ some (some p, w)
unfolding cache_get_metadata load
get_still vpath w p md h e n = rw (cache_get_metadata, h, load, e, n)

bump_lem :
    (i p b : ℕ) (md : Metadata) (w w' : World)
    → md.md_previous ≡ some b
    → move_to_top i p md b w ≡ some (tt, w')
    → bump i p md w ≡ some (tt, w')
bump_lem i p b md w w' n m =
    ap
      (λ (o : Option ℕ).
        (elim o as (λ _. Prog World (Unit {0})) [
          | none ↦ pure tt
          | some before ↦ move_to_top i p md before
        ])
          w)
      n
    ∙ m

get_moved :
    (vpath : Bytes) (w w' : World) (p b : ℕ) (md : Metadata)
    → find_in_chain vpath (suc w.fresh) (w.buckets (cache_hash vpath)).b_contents w
      ≡ some (some p, w)
    → w.store p ≡ some md
    → md.md_previous ≡ some b
    → move_to_top (cache_hash vpath) p md b w ≡ some (tt, w')
    → cache_get_metadata vpath w ≡ some (some p, w')
unfolding cache_get_metadata load
get_moved vpath w w' p b md h e n m =
    rw (cache_get_metadata, h, load, e, bump_lem (cache_hash vpath) p b md w w' n m)

-- The bucket's chain runs through these addresses, each once, and no more than were handed out.
abbrev pub IsChain : World → ℕ → List ℕ → Type 0
IsChain w i ps =
    Links w.store none (w.buckets i).b_contents ps × (AllDistinct ps × (length ps ≤ w.fresh))

-- A look-up leaves other structures and other buckets as they are.
pub record Frame (w w' : World) (i : ℕ) (ps : List ℕ) : Type 0 where
  pub store : (q : ℕ) → IsOut q ps → w'.store q ≡ w.store q
  pub contents : (j : ℕ) → j ≢ i → (w'.buckets j).b_contents ≡ (w.buckets j).b_contents
  pub fresh : w'.fresh ≡ w.fresh

Frame-same : (w : World) (i : ℕ) (ps : List ℕ) → Frame w w i ps
Frame-same w i ps = record { store = λ q o. refl; contents = λ j n. refl; fresh = refl }

-- The chain behind a look-up: as it was, or with the item that was found on top.
abbrev pub Bumped : List ℕ → Option ℕ → List ℕ → Type 0
Bumped ps none ps' = ps' ≡ ps
Bumped ps (some p) ps' =
    (ps' ≡ ps)
    ⊎ ((done : List ℕ) × (rest : List ℕ) × (ps ≡ done ++ p ∷ rest) × (ps' ≡ p ∷ (done ++ rest)))

got_moved :
    (vpath : Bytes) (w : World) (front : List ℕ) (b p : ℕ) (rest : List ℕ) (md : Metadata)
    → IsChain w (cache_hash vpath) (front ++ b ∷ p ∷ rest)
    → find_in_chain vpath (suc w.fresh) (w.buckets (cache_hash vpath)).b_contents w
      ≡ some (some p, w)
    → w.store p ≡ some md
    → md.md_previous ≡ some b
    → Links w.store (some p) md.md_next rest
    → (w' : World) × (cache_get_metadata vpath w ≡ some (some p, w'))
      × IsChain w' (cache_hash vpath) (p ∷ (front ++ b ∷ rest))
      × Frame w w' (cache_hash vpath) (front ++ b ∷ p ∷ rest)
got_moved vpath w front b p rest md (l, (d, short)) found e prev behind =
    let i = cache_hash vpath in
    let (top, at_top) = top_of w.store none (w.buckets i).b_contents front b (p ∷ rest) l in
    let linked = subst⁻¹ (λ t. Links w.store none t (front ++ b ∷ p ∷ rest)) (sym at_top) l in
    let w' = with_top i p (moved w.store b p md.md_next top) w in
    (
      w',
      get_moved vpath w w' p b md found e prev
          (move_to_top_lem i top front b p md rest w d e prev at_top behind linked),
      (
        subst⁻¹ (λ t. Links (moved w.store b p md.md_next top) none t (p ∷ (front ++ b ∷ rest)))
            (ground (arith, ==_refl i))
            (Links-moved w.store top front b p md rest d e behind linked),
        (
          (IsOut-middle front b p rest d, without_middle front b p rest d),
          omega (arith, short, length-append front (b ∷ p ∷ rest), length-append front (b ∷ rest)),
        ),
      ),
      record {
        store = λ q o. moved_else w.store top front b p q md.md_next rest behind linked o;
        contents = λ j n. ground (arith, ==_ne j i n);
        fresh = refl;
      },
    )

got :
    (vpath : Bytes) (w : World) (ps : List ℕ) (r : Option ℕ)
    → IsChain w (cache_hash vpath) ps
    → find_in_chain vpath (suc w.fresh) (w.buckets (cache_hash vpath)).b_contents w ≡ some (r, w)
    → Found w.store vpath ps r
    → (r : Option ℕ) × (w' : World) × (ps' : List ℕ) × (cache_get_metadata vpath w ≡ some (r, w'))
      × Found w.store vpath ps r
      × Bumped ps r ps'
      × IsChain w' (cache_hash vpath) ps'
      × Frame w w' (cache_hash vpath) ps
got vpath w ps none chain found k =
    (none, w, ps, get_none vpath w found, k, refl, chain, Frame-same w _ ps)
got vpath w ps (some p) chain found (done, rest, same, misses, hit) =
    let l =
      subst⁻¹ (Links w.store none (w.buckets (cache_hash vpath)).b_contents) (sym same) chain.0 in
    let k : Found w.store vpath ps (some p) = (done, rest, same, misses, hit) in
    let (md, e, prev, behind) =
      previous_of w.store none (w.buckets (cache_hash vpath)).b_contents done p rest l in
    elim prev [
      | inl n ↦
          (some p, w, ps, get_still vpath w p md found e n, k, inl refl, chain, Frame-same w _ ps)
      | inr (inl (nothing, n)) ↦
          (some p, w, ps, get_still vpath w p md found e n, k, inl refl, chain, Frame-same w _ ps)
      | inr (inr (front, b, split, q)) ↦
          let whole =
            same ∙ ap (λ xs. xs ++ p ∷ rest) split ∙ append_assoc front (b ∷ []) (p ∷ rest) in
          let (w', got_it, chain', frame) =
            got_moved vpath w front b p rest md
              (subst⁻¹ (IsChain w (cache_hash vpath)) (sym whole) chain) found e q behind in
          (
            some p,
            w',
            p ∷ (front ++ b ∷ rest),
            got_it,
            k,
            inr (
              done,
              rest,
              same,
              ap (◌∷◌ p)
                  (sym (append_assoc front (b ∷ []) rest) ∙ ap (λ xs. xs ++ rest) (sym split)),
            ),
            chain',
            subst⁻¹ (Frame w w' (cache_hash vpath)) whole frame,
          )
    ]

-- Looking a path up where the chain of its bucket ends and each item knows the one in front of it, or
-- none: the look-up comes to its end, gives the first item with the path, or NULL if there is none,
-- changes at most the order of the chain, by putting that item on top, and leaves a chain in which
-- again each item knows the one in front of it, or none. Other structures and buckets do not change.
pub cache_get_metadata-IsChain :
    (vpath : Bytes) (w : World) (ps : List ℕ)
    → IsChain w (cache_hash vpath) ps
    → (r : Option ℕ) × (w' : World) × (ps' : List ℕ) × (cache_get_metadata vpath w ≡ some (r, w'))
      × Found w.store vpath ps r
      × Bumped ps r ps'
      × IsChain w' (cache_hash vpath) ps'
      × Frame w w' (cache_hash vpath) ps
cache_get_metadata-IsChain vpath w ps (l, (d, short)) =
    let i = cache_hash vpath in
    let top = (w.buckets i).b_contents in
    let (r, found, k) =
      find_in_chain_lem vpath (suc w.fresh) none top ps w l (omega (arith, short)) in
    got vpath w ps r (l, (d, short)) found k
