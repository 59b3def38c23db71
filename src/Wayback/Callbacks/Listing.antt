-- ===== src/Wayback/Callbacks/Listing.antt =====
-- What `ver_getdir` lists.
use mathlib.Core.List.{append_assoc, append-nil}
use reproduction.Base.{
  ◌<◌, ◌≡◌, ap, sym, inl, inr, List, [], ◌∷◌, ◌++◌, some, if◌then◌else◌, length, arith, Bool-cases,
}
use reproduction.Base.Int.{ℤ, pos}
use reproduction.Base.Text.{Bytes}
use reproduction.Libc.Os.{Os, Node, Kind}
use reproduction.Libc.Os.Access.{opendir}
use reproduction.Wayback.Globals.{Globals, Host}
use reproduction.Wayback.Names.Hidden.{hidden, hides-hidden}
use reproduction.Wayback.Callbacks.{list_names, ver_getdir}

-- The names that are listed, in their order.
unfoldable pub shown : Globals → List Bytes → List Bytes
unfolding hidden
shown globals [] = []
shown globals (name ∷ names) =
    let rest = shown globals names in if hidden globals name then rest else name ∷ rest

module _ (host : Host) (globals : Globals) (filler : List Bytes → Bytes → ℤ)
    (accepts : (l : List Bytes) (name : Bytes) → filler l name ≡ pos 0)
    (marked : 0 < length globals.deletedmodifier) where
  list_names-shown :
      (names listed : List Bytes) (os : Os)
      → list_names host globals filler names listed (pos 0) os
        ≡ some ((pos 0, some (listed ++ shown globals names)), os)
  unfolding list_names shown
  list_names-shown [] listed os = ap (λ l. some ((pos 0, some l), os)) (sym (append-nil listed))
  list_names-shown (name ∷ names) listed os =
      let seen = hides-hidden globals name marked in
      elim (Bool-cases (hidden globals name)) [
        | inl e ↦ ground (arith, seen, e, list_names-shown names listed os)
        | inr e ↦ ground (
          arith,
          seen,
          e,
          accepts listed name,
          list_names-shown names (listed ++ (name ∷ [])) os,
          append_assoc listed (name ∷ []) (shown globals names),
        )
      ]

  -- A listing of a directory that can be opened gives, in their order, the names that belong to no
  -- deleted directory and no log: for a caller whose buffer takes every name,
  -- a modifier of deleted directories that is not empty, and no failing call.
  pub ver_getdir-shown :
      (path : Bytes) (names : List Bytes) (n : Node) (os : Os)
      → os.faults ≡ []
      → os.disk (globals.redirectpath ++ path) ≡ some n
      → n.kind ≡ Kind.directory
      → ver_getdir host globals path filler names os
        ≡ some ((pos 0, some (shown globals names)), os)
  unfolding ver_getdir opendir
  ver_getdir-shown path names n os h e k = ground (arith, h, e, k, list_names-shown names [] os)
