-- ===== src/Copyfs/Cache/Relink.antt =====
-- An item is taken out of its chain and put on top.
use reproduction.Base.{
  ℕ, ◌≡◌, ◌≢◌, refl, sym, ◌∙◌, subst⁻¹, List, [], ◌∷◌, ◌++◌, Option, none, some,
}
use reproduction.Copyfs.Structs.{Metadata}
use reproduction.Copyfs.Cache.{set_next, set_previous}
use reproduction.Copyfs.Cache.Links.{
  Links, IsOut, AllDistinct, update, update_here, update_else, Links-out, Links-previous,
}

abbrev pub update? : (ℕ → Option Metadata) → Option ℕ → (Metadata → Metadata) → ℕ → Option Metadata
update? store none f = store
update? store (some p) f = update store p f

-- The item behind `b` is taken out: `n` follows `b` now.
abbrev pub relinked : (ℕ → Option Metadata) → ℕ → Option ℕ → ℕ → Option Metadata
relinked store b n = update? (update store b (set_next n)) n (set_previous (some b))

pub IsOut-append : (q : ℕ) (xs ys : List ℕ) → IsOut q (xs ++ ys) → IsOut q xs × IsOut q ys
IsOut-append q [] ys h = (tt, h)
IsOut-append q (x ∷ xs) ys (n, h) = let (a, b) = IsOut-append q xs ys h in ((n, a), b)

pub AllDistinct-append : (xs ys : List ℕ) → AllDistinct (xs ++ ys) → AllDistinct ys
AllDistinct-append [] ys h = h
AllDistinct-append (x ∷ xs) ys (n, h) = AllDistinct-append xs ys h

-- Outside of `b` and the chain behind it nothing changes.
pub relinked_else :
    (store : ℕ → Option Metadata) (b p q : ℕ) (n : Option ℕ) (ps : List ℕ)
    → Links store (some p) n ps
    → q ≢ b
    → IsOut q ps
    → relinked store b n q ≡ store q
relinked_else store b p q n [] t ne o =
    subst⁻¹ (λ n. relinked store b n q ≡ store q) t (update_else store b q (set_next none) ne)
relinked_else store b p q n (c ∷ ps) (t, rest) ne o =
    subst⁻¹ (λ n. relinked store b n q ≡ store q) t
      (update_else (update store b (set_next (some c))) c q (set_previous (some b))
          (λ e. o.0 (sym e))
        ∙ update_else store b q (set_next (some c)) ne)

relinked_here :
    (store : ℕ → Option Metadata) (b p : ℕ) (n : Option ℕ) (ps : List ℕ) (md : Metadata)
    → Links store (some p) n ps
    → IsOut b ps
    → store b ≡ some md
    → relinked store b n b ≡ some (set_next n md)
relinked_here store b p n [] md t o h =
    subst⁻¹ (λ n. relinked store b n b ≡ some (set_next n md)) t
      (update_here store b (set_next none) md h)
relinked_here store b p n (c ∷ ps) md (t, rest) o h =
    subst⁻¹ (λ n. relinked store b n b ≡ some (set_next n md)) t
      (update_else (update store b (set_next (some c))) c b (set_previous (some b))
          (λ e. o.0 (sym e))
        ∙ update_here store b (set_next (some c)) md h)

relinked-tail :
    (store : ℕ → Option Metadata) (b p : ℕ) (n : Option ℕ) (ps : List ℕ)
    → AllDistinct (b ∷ ps)
    → Links store (some p) n ps
    → Links (relinked store b n) (some b) n ps
relinked-tail store b p n [] d t = t
relinked-tail store b p n (c ∷ ps) (o, (o', d)) (t, rest) =
    subst⁻¹ (λ n. Links (relinked store b n) (some b) n (c ∷ ps)) t
      (Links-previous (update store b (set_next (some c))) c (some p) (some b) (some c) ps o'
        (Links-out store b (set_next (some c)) (some p) (some c) (c ∷ ps) o (refl, rest)))

-- The chain without `p`, the item behind `b`.
pub Links-relinked :
    (store : ℕ → Option Metadata) (before top : Option ℕ) (done : List ℕ) (b p : ℕ) (n : Option ℕ)
    (ps : List ℕ)
    → AllDistinct (done ++ b ∷ p ∷ ps)
    → Links store (some p) n ps
    → Links store before top (done ++ b ∷ p ∷ ps)
    → Links (relinked store b n) before top (done ++ b ∷ ps)
Links-relinked store before top [] b p n ps (o, (o', d)) behind (t, (md, e, h, l)) = (
  t,
  (
    set_next n md,
    relinked_here store b p n ps md behind o.1 e,
    h,
    relinked-tail store b p n ps (o.1, d) behind,
  ),
)
Links-relinked store before top (q ∷ done) b p n ps (o, d) behind (t, (md, e, h, l)) =
    let (o1, (ob, (op, o2))) = IsOut-append q done (b ∷ p ∷ ps) o in
    (
      t,
      (
        md,
        relinked_else store b p q n ps behind (λ e. ob (sym e)) o2 ∙ e,
        h,
        Links-relinked store (some q) md.md_next done b p n ps d behind l,
      ),
    )
