-- ===== src/Copyfs/Cache/Move.antt =====
-- `cache_get_metadata` moves the item it finds to the top, and the chain stays a chain.
use reproduction.Base.{
  ℕ, ◌≡◌, ◌≢◌, refl, ap, sym, ◌∙◌, subst⁻¹, inl, List, [], ◌∷◌, ◌++◌, Option, none, some,
  All-append,
}
use reproduction.Copyfs.Structs.{Metadata}
use reproduction.Copyfs.World.{World, modify, set_at}
use reproduction.Copyfs.Cache.{set_next, set_previous, modify?, move_to_top}
use reproduction.Copyfs.Cache.Links.{
  Links, IsOut, AllDistinct, apply, update, update_here, update_else, Links-out, Links-top,
  Links-next,
}
use reproduction.Copyfs.Cache.Relink.{
  update?, relinked, relinked_else, Links-relinked, IsOut-append, AllDistinct-append,
}

pub modify_lem :
    (p : ℕ) (f : Metadata → Metadata) (w : World) (md : Metadata)
    → w.store p ≡ some md
    → modify p f w ≡ some (tt, record w { store = update w.store p f })
unfolding modify
modify_lem p f w md h =
    rw (modify, h)
      (ap (λ (o : Option Metadata). some (tt, record w { store = set_at w.store p o }))
        (sym (ap (apply f) h)))

pub modify?_lem :
    (n : Option ℕ) (f : Metadata → Metadata) (w : World) (before : Option ℕ) (ps : List ℕ)
    → Links w.store before n ps
    → modify? n f w ≡ some (tt, record w { store = update? w.store n f })
modify?_lem n f w before [] t =
    subst⁻¹ (λ n. modify? n f w ≡ some (tt, record w { store = update? w.store n f })) t refl
modify?_lem n f w before (c ∷ ps) (t, (md, e, b, rest)) =
    subst⁻¹ (λ n. modify? n f w ≡ some (tt, record w { store = update? w.store n f })) t
      (modify_lem c f w md e)

-- The store behind the relinking.
abbrev pub moved : (ℕ → Option Metadata) → ℕ → ℕ → Option ℕ → ℕ → ℕ → Option Metadata
moved store b p n top =
    update (update (update (relinked store b n) p (set_previous none)) p (set_next (some top))) top
      (set_previous none)

pub IsOut-middle :
    (done : List ℕ) (b p : ℕ) (ps : List ℕ)
    → AllDistinct (done ++ b ∷ p ∷ ps)
    → IsOut p (done ++ b ∷ ps)
IsOut-middle [] b p ps (o, (o', d)) = (λ e. o.0 (sym e), o')
IsOut-middle (q ∷ done) b p ps (o, d) =
    let (o1, (ob, (op, o2))) = IsOut-append q done (b ∷ p ∷ ps) o in
    (λ e. op (sym e), IsOut-middle done b p ps d)

pub without_middle :
    (done : List ℕ) (b p : ℕ) (ps : List ℕ)
    → AllDistinct (done ++ b ∷ p ∷ ps)
    → AllDistinct (done ++ b ∷ ps)
without_middle [] b p ps (o, (o', d)) = (o.1, d)
without_middle (q ∷ done) b p ps (o, d) =
    let (o1, (ob, (op, o2))) = IsOut-append q done (b ∷ p ∷ ps) o in
    (All-append (λ r. r ≢ q) done (b ∷ ps) o1 (ob, o2), without_middle done b p ps d)

Links-topped :
    (store : ℕ → Option Metadata) (top : ℕ) (before before' : Option ℕ) (ps : List ℕ)
    → AllDistinct ps
    → Links store before (some top) ps
    → Links (update store top (set_previous none)) before' (some top) ps
Links-topped store top before before' [] d t = cc
Links-topped store top before before' (q ∷ ps) d (t, rest) =
    let e : top ≡ q = cc in
    subst⁻¹ (λ top. Links (update store top (set_previous none)) before' (some top) (q ∷ ps)) e
      (Links-top store q before before' (some q) ps d.0 (refl, rest))

top_out :
    (store : ℕ → Option Metadata) (top p : ℕ) (before : Option ℕ) (ps : List ℕ)
    → IsOut p ps
    → Links store before (some top) ps
    → top ≢ p
top_out store top p before [] o t = cc
top_out store top p before (q ∷ ps) o (t, rest) = λ e. o.0 (let same : top ≡ q = cc in sym same ∙ e)

first_there :
    (store : ℕ → Option Metadata) (top : ℕ) (before : Option ℕ) (ps : List ℕ)
    → Links store before (some top) ps
    → (md : Metadata) × (store top ≡ some md)
first_there store top before [] t = cc
first_there store top before (q ∷ ps) (t, (md, e, b, l)) =
    (md, (let same : top ≡ q = cc in ap store same ∙ e))

behind-IsOut :
    (done : List ℕ) (b p : ℕ) (ps : List ℕ) → AllDistinct (done ++ b ∷ p ∷ ps) → IsOut b ps
behind-IsOut done b p ps d = (AllDistinct-append done (b ∷ p ∷ ps) d).0.1

-- The chain with the item on top of it.
pub Links-moved :
    (store : ℕ → Option Metadata) (top : ℕ) (done : List ℕ) (b p : ℕ) (md : Metadata) (ps : List ℕ)
    → AllDistinct (done ++ b ∷ p ∷ ps)
    → store p ≡ some md
    → Links store (some p) md.md_next ps
    → Links store none (some top) (done ++ b ∷ p ∷ ps)
    → Links (moved store b p md.md_next top) none (some p) (p ∷ (done ++ b ∷ ps))
Links-moved store top done b p md ps d e behind l =
    let n = md.md_next in
    let s2 = relinked store b n in
    let s3 = update s2 p (set_previous none) in
    let s4 = update s3 p (set_next (some top)) in
    let out = IsOut-middle done b p ps d in
    let l2 = Links-relinked store none (some top) done b p n ps d behind l in
    let l3 = Links-out s2 p (set_previous none) none (some top) (done ++ b ∷ ps) out l2 in
    let l4 = Links-out s3 p (set_next (some top)) none (some top) (done ++ b ∷ ps) out l3 in
    let (ob, op) = IsOut-append p done (b ∷ ps) out in
    let e2 : s2 p ≡ some md = relinked_else store b p p n ps behind (λ e. op.0 (sym e)) op.1 ∙ e in
    let e3 = update_here s2 p (set_previous none) md e2 in
    let e4 = update_here s3 p (set_next (some top)) (set_previous none md) e3 in
    (
      refl,
      (
        set_next (some top) (set_previous none md),
        update_else s4 top p (set_previous none)
              (λ e. top_out s2 top p none (done ++ b ∷ ps) out l2 (sym e))
            ∙ e4,
        inl refl,
        Links-topped s4 top none (some p) (done ++ b ∷ ps) (without_middle done b p ps d) l4,
      ),
    )

-- Outside of the chain nothing changes.
pub moved_else :
    (store : ℕ → Option Metadata) (top : ℕ) (done : List ℕ) (b p q : ℕ) (n : Option ℕ) (ps : List ℕ)
    → Links store (some p) n ps
    → Links store none (some top) (done ++ b ∷ p ∷ ps)
    → IsOut q (done ++ b ∷ p ∷ ps)
    → moved store b p n top q ≡ store q
moved_else store top done b p q n ps behind l o =
    let (o1, (ob, (op, o2))) = IsOut-append q done (b ∷ p ∷ ps) o in
    let s2 = relinked store b n in
    let s3 = update s2 p (set_previous none) in
    let far = top_out store top q none (done ++ b ∷ p ∷ ps) o l in
    update_else (update s3 p (set_next (some top))) top q (set_previous none) (λ e. far (sym e))
    ∙ update_else s3 p q (set_next (some top)) (λ e. op (sym e))
    ∙ update_else s2 p q (set_previous none) (λ e. op (sym e))
    ∙ relinked_else store b p q n ps behind (λ e. ob (sym e)) o2

abbrev pub with_top : ℕ → ℕ → (ℕ → Option Metadata) → World → World
with_top i p store w = record w {
  store = store;
  buckets = set_at w.buckets i (record (w.buckets i) { b_contents = some p });
}

-- The relinking of an item that knows the one in front of it comes to its end.
pub move_to_top_lem :
    (i top : ℕ) (done : List ℕ) (b p : ℕ) (md : Metadata) (ps : List ℕ) (w : World)
    → AllDistinct (done ++ b ∷ p ∷ ps)
    → w.store p ≡ some md
    → md.md_previous ≡ some b
    → (w.buckets i).b_contents ≡ some top
    → Links w.store (some p) md.md_next ps
    → Links w.store none (some top) (done ++ b ∷ p ∷ ps)
    → move_to_top i p md b w ≡ some (tt, with_top i p (moved w.store b p md.md_next top) w)
unfolding move_to_top
move_to_top_lem i top done b p md ps w d e prev at_top behind l =
    let n = md.md_next in
    let (mb, eb, rest) = Links-next w.store none (some top) done b (p ∷ ps) l in
    let s1 = update w.store b (set_next n) in
    let s2 = relinked w.store b n in
    let s3 = update s2 p (set_previous none) in
    let s4 = update s3 p (set_next (some top)) in
    let out = IsOut-middle done b p ps d in
    let (ob, op) = IsOut-append p done (b ∷ ps) out in
    let e2 : s2 p ≡ some md =
      relinked_else w.store b p p n ps behind (λ e. op.0 (sym e)) op.1 ∙ e in
    let e3 = update_here s2 p (set_previous none) md e2 in
    let l2 = Links-relinked w.store none (some top) done b p n ps d behind l in
    let (mt, et) = first_there s2 top none (done ++ b ∷ ps) l2 in
    let far = top_out s2 top p none (done ++ b ∷ ps) out l2 in
    let et4 : s4 top ≡ some mt =
      update_else s3 p top (set_next (some top)) far
      ∙ update_else s2 p top (set_previous none) far
      ∙ et in
    let c1 = modify_lem b (set_next n) w mb eb in
    let c2 =
      modify?_lem n (set_previous (some b)) (record w { store = s1 }) (some p) ps
        (Links-out w.store b (set_next n) (some p) n ps (behind-IsOut done b p ps d) behind) in
    let c3 = modify_lem p (set_previous none) (record w { store = s2 }) md e2 in
    let c4 =
      modify_lem p (set_next (some top)) (record w { store = s3 }) (set_previous none md) e3 in
    let c5 = modify_lem top (set_previous none) (record w { store = s4 }) mt et4 in
    rw (c1, prev, c2, c3, at_top, c4, c5) refl
