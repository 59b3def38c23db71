-- ===== src/Copyfs/Cache/Recall.antt =====
-- What was added to the cache is found.
use reproduction.Base.{
  ℕ, ◌+◌, ◌%◌, ◌^◌, ◌≡◌, ◌≢◌, refl, sym, subst⁻¹, inl, inr, Option, none, some, arith, Option-cases,
  ==_refl, ==_ne,
}
use reproduction.Base.Text.{Bytes, str_eq_refl}
use reproduction.Copyfs.Structs.{Metadata}
use reproduction.Copyfs.World.{World, load, modify, set_at}
use reproduction.Copyfs.Cache.{
  cache_hash, set_previous, find_in_chain, insert_on_top, cache_add_metadata, cache_get_metadata,
}

-- The chain of the bucket begins with a structure at another address, or is empty.
abbrev pub IsAddable : World → ℕ → Option ℕ → Type 0
IsAddable w p none = Unit
IsAddable w p (some top) = (top ≢ p) × (md : Metadata) × (w.store top ≡ some md)

abbrev on_top : Metadata → Option ℕ → Metadata
on_top md top = record md { md_previous = none; md_next = top }

-- The top of the chain is found at once, and nothing is moved.
found_at_top :
    (vpath : Bytes) (w : World) (p : ℕ) (md : Metadata)
    → md.md_vfile ≡ vpath
    → md.md_previous ≡ none
    → w.store p ≡ some md
    → (w.buckets (cache_hash vpath)).b_contents ≡ some p
    → cache_get_metadata vpath w ≡ some (some p, w)
unfolding cache_get_metadata find_in_chain load
found_at_top vpath w p md e f h k = ground (arith, e, f, h, k, str_eq_refl vpath)

abbrev counted : ℕ → World → World
counted i w = record w {
  item_count = (w.item_count + 1) % 2 ^ 32;
  buckets =
      set_at w.buckets i (record (w.buckets i) { b_count = ((w.buckets i).b_count + 1) % 2 ^ 32 });
}

-- The world with the structure on top of the bucket, and with this store.
abbrev added : ℕ → ℕ → (ℕ → Option Metadata) → World → World
added i p store w = counted i (record w {
  store = store;
  buckets = set_at w.buckets i (record (w.buckets i) { b_contents = some p });
})

added-b_contents :
    (i p : ℕ) (store : ℕ → Option Metadata) (w : World)
    → ((added i p store w).buckets i).b_contents ≡ some p
added-b_contents i p store w = ground (arith, ==_refl i)

add_empty :
    (p : ℕ) (md : Metadata) (w : World)
    → w.store p ≡ some md
    → (w.buckets (cache_hash md.md_vfile)).b_contents ≡ none
    → cache_add_metadata p w
      ≡ some (tt, added (cache_hash md.md_vfile) p (set_at w.store p (some (on_top md none))) w)
unfolding cache_add_metadata insert_on_top modify load
add_empty p md w h e = ground (arith, h, e)

add_full :
    (p top : ℕ) (md below : Metadata) (w : World)
    → w.store p ≡ some md
    → (w.buckets (cache_hash md.md_vfile)).b_contents ≡ some top
    → top ≢ p
    → w.store top ≡ some below
    → cache_add_metadata p w
      ≡ some (
        tt,
        added
            (cache_hash md.md_vfile)
            p
            (set_at
              (set_at w.store p (some (on_top md (some top))))
              top
              (some (set_previous (some p) below)))
            w,
      )
unfolding cache_add_metadata insert_on_top modify load
add_full p top md below w h e d k = ground (arith, h, e, k, ==_ne top p d)

-- A structure that is added is on top of its chain, without a previous one, and is found under its
-- virtual path by the next look-up, which changes nothing. This needs the address to be new to the
-- chain.
pub get-add_metadata :
    (p : ℕ) (md : Metadata) (w : World)
    → w.store p ≡ some md
    → IsAddable w p (w.buckets (cache_hash md.md_vfile)).b_contents
    → (w' : World) × (cache_add_metadata p w ≡ some (tt, w'))
      × (cache_get_metadata md.md_vfile w' ≡ some (some p, w'))
      × (w'.store p ≡ some (on_top md (w.buckets (cache_hash md.md_vfile)).b_contents))
get-add_metadata p md w h a = elim (Option-cases (w.buckets (cache_hash md.md_vfile)).b_contents) [
  | inl e ↦
      let i = cache_hash md.md_vfile in
      let store = set_at w.store p (some (on_top md none)) in
      let at_p : store p ≡ some (on_top md none) = ground (arith, ==_refl p) in
      (
        added i p store w,
        add_empty p md w h e,
        found_at_top md.md_vfile (added i p store w) p (on_top md none) refl refl at_p
            (added-b_contents i p store w),
        ground (arith, at_p, e),
      )
  | inr (top, e) ↦
      let (d, below, k) = subst⁻¹ (IsAddable w p) (sym e) a in
      let i = cache_hash md.md_vfile in
      let store =
        set_at (set_at w.store p (some (on_top md (some top)))) top
          (some (set_previous (some p) below)) in
      let at_p : store p ≡ some (on_top md (some top)) =
        ground (arith, ==_refl p, ==_ne p top (λ z. d (sym z))) in
      (
        added i p store w,
        add_full p top md below w h e d k,
        found_at_top md.md_vfile (added i p store w) p (on_top md (some top)) refl refl at_p
            (added-b_contents i p store w),
        ground (arith, at_p, e),
      )
]
