-- ===== src/Copyfs/World.antt =====
-- The state of the daemon: the real file system, the metadata structures on the heap, the cache's
-- hash table, and the globals `rcs_ignore_deleted` and `rcs_version_path`.
use reproduction.Base.{ℕ, suc, Option, none, some, Bool, ◌==◌, if◌then◌else◌}
use reproduction.Base.Prog.{Prog, pure, crash}
use reproduction.Base.Text.{Bytes}
use reproduction.Libc.Os.{Os}
use reproduction.Copyfs.Structs.{Metadata}

-- `bucket_t`.
pub record Bucket : Type 0 where
  pub b_count : ℕ
  pub b_contents : Option ℕ

-- `store` gives the structure at an address; `fresh` is the next address that `malloc` returns.
pub record World : Type 0 where
  pub os : Os
  pub store : ℕ → Option Metadata
  pub fresh : ℕ
  pub buckets : ℕ → Bucket
  pub item_count : ℕ
  pub ignore_deleted : Bool
  pub version_path : Bytes

-- A call on the real file system.
abbrev pub system : {A : Type 0} → (Os → A × Os) → Prog World A
system f w = let (a, os) = f w.os in some (a, record w { os = os })

abbrev pub settle : {A : Type 0} → World → Option (A × Os) → Option (A × World)
settle w none = none
settle w (some (a, os)) = some (a, record w { os = os })

-- A part of the program that touches the real file system only, and may end the process.
abbrev pub on_os : {A : Type 0} → Prog Os A → Prog World A
on_os m w = settle w (m w.os)

-- A value that the code uses without a test for NULL, or after an `assert`.
abbrev pub deref : {S A : Type 0} → Option A → Prog S A
deref none = crash
deref (some a) = pure a

abbrev pub set_at {ℓ} : {A : Type ℓ} → (ℕ → A) → ℕ → A → ℕ → A
set_at f p v q = if q == p then v else f q

-- `*p`.
unfoldable pub load : ℕ → Prog World Metadata
load p w = elim (w.store p) [ none ↦ none | some md ↦ some (md, w) ]

-- An assignment to fields of `*p`.
unfoldable pub modify : ℕ → (Metadata → Metadata) → Prog World (Unit {0})
modify p f w = elim (w.store p) [
  | none ↦ none
  | some md ↦ some (tt, record w { store = set_at w.store p (some (f md)) })
]

unfoldable pub malloc_metadata : Metadata → Prog World ℕ
malloc_metadata md w =
    some (w.fresh, record w { store = set_at w.store w.fresh (some md); fresh = suc w.fresh })

-- `rcs_free_metadata` of main.c, `free_metadata` of ea.c: the structure and all it points to.
unfoldable pub free_metadata : ℕ → Prog World (Unit {0})
free_metadata p w = elim (w.store p) [
  | none ↦ none
  | some md ↦ some (tt, record w { store = set_at w.store p none })
]

abbrev pub set_ignore_deleted : Bool → Prog World (Unit {0})
set_ignore_deleted b w = some (tt, record w { ignore_deleted = b })
