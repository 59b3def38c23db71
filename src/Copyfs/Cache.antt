-- ===== src/Copyfs/Cache.antt =====
-- cache.c: a hash table of metadata structures, each bucket a doubly linked chain through
-- `md_next` and `md_previous`.
pub mod Recall
pub mod Links
pub mod Relink
pub mod Move
pub mod Search
pub mod Kept
pub mod Whole
pub mod Match
pub mod Insert
pub mod Grow
pub mod Edits
pub mod History
use mathlib.Core.List.{foldl}
use Prim.Native.Nat.{bit_xor}
use reproduction.Base.{
  ℕ, zero, suc, ◌+◌, ◌%◌, ◌^◌, List, [], ◌∷◌, Option, none, some, true, false, ◌==◌, if◌then◌else◌,
  length, take,
}
use reproduction.Base.Int.{ℤ, pos, negsuc}
use reproduction.Base.Prog.{Prog, pure, crash, ◌>>=◌, ◌>>◌}
use reproduction.Base.Text.{Bytes, codes, str_eq}
use reproduction.Copyfs.Helper.Composite.{array, build_composite}
use reproduction.Copyfs.Structs.{Metadata}
use reproduction.Copyfs.World.{World, Bucket, load, modify, free_metadata, deref, set_at}

abbrev pub cache_hash_buckets : ℕ
cache_hash_buckets = 128

abbrev pub cache_size : ℕ
cache_size = 256

-- `helper_hash_string`; the result is kept in an `unsigned char`.
unfoldable pub hash_string : Bytes → ℕ
hash_string = foldl (λ result c. bit_xor result c % 256) 0

unfoldable pub cache_hash : Bytes → ℕ
unfolding hash_string
cache_hash vpath = hash_string vpath % cache_hash_buckets

abbrev pub empty_bucket : Bucket
empty_bucket = record { b_count = 0; b_contents = none }

-- The loop over all buckets empties each.
unfoldable pub cache_initialize : Prog World (Unit {0})
cache_initialize w = some (tt, record w { buckets = λ _. empty_bucket; item_count = 0 })

abbrev pub contents_of : ℕ → Prog World (Option ℕ)
contents_of i w = some ((w.buckets i).b_contents, w)

abbrev pub set_contents : ℕ → Option ℕ → Prog World (Unit {0})
set_contents i p w =
    some (tt, record w { buckets = set_at w.buckets i (record (w.buckets i) { b_contents = p }) })

-- `while (metadata) { next = metadata->md_next; rcs_free_metadata(metadata); … }`; a round for
-- each address that was ever handed out is enough.
unfoldable pub free_chain : ℕ → Option ℕ → Prog World (Unit {0})
free_chain fuel none = pure tt
free_chain zero (some p) = crash
free_chain (suc fuel) (some p) = do md ← load p; free_metadata p; free_chain fuel md.md_next

abbrev pub empty_at : ℕ → Prog World (Unit {0})
empty_at i w = some (tt, record w { buckets = set_at w.buckets i empty_bucket })

-- `for (i = 0; i < CACHE_HASH_BUCKETS; i++)`, with the rounds that are left.
unfoldable pub finalize_from : ℕ → ℕ → Prog World (Unit {0})
unfolding free_chain
finalize_from zero i = pure tt
finalize_from (suc left) i = λ w.
    (do free_chain (suc w.fresh) (w.buckets i).b_contents; empty_at i; finalize_from left (i + 1)) w

unfoldable pub cache_finalize : Prog World (Unit {0})
unfolding finalize_from
cache_finalize = finalize_from cache_hash_buckets 0

-- `while (metadata && strcmp(metadata->md_vfile, vpath)) metadata = metadata->md_next;`
unfoldable pub find_in_chain : Bytes → ℕ → Option ℕ → Prog World (Option ℕ)
find_in_chain vpath fuel none = pure none
find_in_chain vpath zero (some p) = crash
find_in_chain vpath (suc fuel) (some p) = do
  md ← load p
  elim (str_eq md.md_vfile vpath) [
    | true ↦ pure (some p)
    | false ↦ find_in_chain vpath fuel md.md_next
  ]

abbrev pub set_next : Option ℕ → Metadata → Metadata
set_next p md = record md { md_next = p }

abbrev pub set_previous : Option ℕ → Metadata → Metadata
set_previous p md = record md { md_previous = p }

abbrev pub modify? : Option ℕ → (Metadata → Metadata) → Prog World (Unit {0})
modify? none f = pure tt
modify? (some p) f = modify p f

-- The relinking of an item that has a previous one: out of its place, and on top. The old top gets
-- no previous item (the code writes NULL there).
unfoldable pub move_to_top : ℕ → ℕ → Metadata → ℕ → Prog World (Unit {0})
move_to_top i p md before = do
  modify before (set_next md.md_next)
  modify? md.md_next (set_previous md.md_previous)
  modify p (set_previous none)
  top ← contents_of i
  modify p (set_next top)
  top' ← deref top
  modify top' (set_previous none)
  set_contents i (some p)

abbrev pub bump : ℕ → ℕ → Metadata → Prog World (Unit {0})
bump i p md = elim md.md_previous [ none ↦ pure tt | some before ↦ move_to_top i p md before ]

unfoldable pub cache_get_metadata : Bytes → Prog World (Option ℕ)
unfolding find_in_chain move_to_top
cache_get_metadata vpath w =
    (do
      found ← find_in_chain vpath (suc w.fresh) (w.buckets (cache_hash vpath)).b_contents
      elim found [
        | none ↦ pure none
        | some p ↦ do md ← load p; bump (cache_hash vpath) p md; pure (some p)
      ])
      w

-- `cache_cleanup_old_items` is empty in the code.
abbrev pub cache_cleanup_old_items : Prog World (Unit {0})
cache_cleanup_old_items = pure tt

-- `cache_item_count++; bucket->b_count++;`
abbrev pub count_item : ℕ → Prog World (Unit {0})
count_item i w = some (
  tt,
  record w {
    item_count = (w.item_count + 1) % 2 ^ 32;
    buckets =
        set_at w.buckets i
          (record (w.buckets i) { b_count = ((w.buckets i).b_count + 1) % 2 ^ 32 });
  },
)

-- The insertion on top, and the two counters.
unfoldable pub insert_on_top : ℕ → ℕ → Prog World (Unit {0})
insert_on_top i p w =
    (do
      modify p (λ md. record md { md_previous = none; md_next = (w.buckets i).b_contents })
      modify? (w.buckets i).b_contents (set_previous (some p))
      set_contents i (some p)
      count_item i)
      w

unfoldable pub cache_add_metadata : ℕ → Prog World (Unit {0})
unfolding insert_on_top
cache_add_metadata p w =
    (do
      (if w.item_count == cache_size then cache_cleanup_old_items else pure tt)
      md ← load p
      insert_on_top (cache_hash md.md_vfile) p)
      w

-- "Null out the bucket": all of it, also the other files in it.
unfoldable pub cache_drop_metadata : Bytes → Prog World (Unit {0})
cache_drop_metadata vpath = set_contents (cache_hash vpath) none

-- `helper_build_composite("-A", "/", array)`, of an array cut to `count` elements.
abbrev pub joined : List Bytes → Prog World Bytes
joined elements = do
  (path, n) ← deref (build_composite (codes "-A") (codes "/") (array elements ∷ []))
  pure path

-- The search from `count` downwards: the count (-1 for no hit) and the metadata.
unfoldable pub match_from : List Bytes → ℕ → Prog World (ℤ × Option ℕ)
match_from elements zero = do
  path ← joined (take 0 elements)
  found ← cache_get_metadata path
  pure (elim found [ none ↦ (negsuc 0, none) | some p ↦ (pos 0, some p) ])
match_from elements (suc count) = do
  path ← joined (take (suc count) elements)
  found ← cache_get_metadata path
  elim found [ none ↦ match_from elements count | some p ↦ pure (pos (suc count), some p) ]

unfoldable pub cache_find_maximal_match : List Bytes → Prog World (ℤ × Option ℕ)
unfolding match_from
cache_find_maximal_match elements = match_from elements (length elements)
