-- ===== src/Wayback/Names/Free.antt =====
-- `ver_deletedpath` finds a name that is free, and that marks the directory as deleted.
use mathlib.Core.List.{append_assoc, append-nil, reverse}
use native.Mathlib.Nat.{mod-lt}
use reproduction.Base.{
  ℕ, zero, suc, ◌+◌, ◌/◌, ◌%◌, ◌≤◌, ◌<◌, ◌≡◌, ◌≢◌, refl, ap, sym, ◌∙◌, inl, inr, [], ◌∷◌, ◌++◌,
  Option, none, some, true, ◌==◌, arith, Option-cases, Bool-cases,
}
use reproduction.Base.Text.{Bytes}
use reproduction.Libc.Os.{Os, Node, lstat, enoent}
use reproduction.Libc.Print.{emit, print_nat}
use reproduction.Wayback.Globals.{Globals}
use reproduction.Wayback.Names.{all_digits, free_name, deletedpath, drop_slash}

ten : 0 < 10
ten = omega arith

all_digits-emit :
    (k n : ℕ) (out : Bytes) → all_digits out ≡ true → all_digits (emit 10 k n out) ≡ true
unfolding emit all_digits
all_digits-emit zero n out h = h
all_digits-emit (suc k) n out h =
    ground (arith, mod-lt n (ten), all_digits-emit k (n / 10) ((b'0' + n % 10) ∷ out), h)

pub all_digits-print_nat : (n : ℕ) → all_digits (print_nat 10 n) ≡ true
unfolding print_nat all_digits
all_digits-print_nat n = elim (Bool-cases (n == 0)) [
  | inl e ↦ ground (arith, e)
  | inr e ↦ ground (arith, e, all_digits-emit n n [] refl)
]

lstat_absent :
    (path : Bytes) (os : Os)
    → os.faults ≡ []
    → os.disk path ≡ none
    → lstat path os ≡ (none, record os { errno = enoent })
unfolding lstat
lstat_absent path os h e = ground (arith, h, e)

pub lstat_there :
    (path : Bytes) (n : Node) (os : Os)
    → os.faults ≡ []
    → os.disk path ≡ some n
    → lstat path os ≡ (some n, os)
unfolding lstat
lstat_there path n os h e = ground (arith, h, e)

free_name_absent :
    (fuel a : ℕ) (deleted : Bytes) (os : Os)
    → os.faults ≡ []
    → os.disk (deleted ++ print_nat 10 a) ≡ none
    → free_name (suc fuel) deleted a os
      ≡ some (some (deleted ++ print_nat 10 a), record os { errno = enoent })
unfolding free_name
free_name_absent fuel a deleted os h e = rw (lstat_absent (deleted ++ print_nat 10 a) os h e)

free_name_there :
    (fuel a : ℕ) (deleted : Bytes) (n : Node) (os : Os)
    → os.faults ≡ []
    → os.disk (deleted ++ print_nat 10 a) ≡ some n
    → free_name (suc fuel) deleted a os ≡ free_name fuel deleted (a + 1) os
unfolding free_name
free_name_there fuel a deleted n os h e = rw (lstat_there (deleted ++ print_nat 10 a) n os h e)

free_name-free :
    (fuel k a : ℕ) (deleted : Bytes) (os : Os)
    → os.faults ≡ []
    → a ≤ k
    → k < a + fuel
    → os.disk (deleted ++ print_nat 10 k) ≡ none
    → (n e : ℕ) × (free_name fuel deleted a os
        ≡ some (some (deleted ++ print_nat 10 n), record os { errno = e }))
      × (os.disk (deleted ++ print_nat 10 n) ≡ none)
free_name-free zero k a deleted os h l f free = absurd (omega arith)
free_name-free (suc fuel) k a deleted os h l f free =
    elim (Option-cases (os.disk (deleted ++ print_nat 10 a))) [
      | inl e ↦ (a, enoent, free_name_absent fuel a deleted os h e, e)
      | inr (m, e) ↦
          let other : a ≢ k = λ p. ground (arith, e, free, p) in
          let (n, errno, done, at) =
            free_name-free fuel k (a + 1) deleted os h (omega (arith, other, l)) (omega (arith, f))
              free in
          (n, errno, free_name_there fuel a deleted m os h e ∙ done, at)
    ]

-- The path less a final slash.
abbrev pub trimmed : Bytes → Bytes
trimmed path = reverse (drop_slash (reverse path))

digits_nil : all_digits [] ≡ true
unfolding all_digits
digits_nil = refl

deletedpath_absent :
    (globals : Globals) (fuel c : ℕ) (path : Bytes) (os : Os)
    → os.faults ≡ []
    → os.disk (trimmed (c ∷ path) ++ globals.deletedmodifier) ≡ none
    → deletedpath fuel globals (c ∷ path) os
      ≡ some (
        (trimmed (c ∷ path), some (trimmed (c ∷ path) ++ globals.deletedmodifier)),
        record os { errno = enoent },
      )
unfolding deletedpath
deletedpath_absent globals fuel c path os h e =
    rw (lstat_absent (trimmed (c ∷ path) ++ globals.deletedmodifier) os h e)

deletedpath_there :
    (globals : Globals) (fuel c : ℕ) (path : Bytes) (m : Node) (found : Option Bytes) (os : Os)
    (errno : ℕ)
    → os.faults ≡ []
    → os.disk (trimmed (c ∷ path) ++ globals.deletedmodifier) ≡ some m
    → free_name fuel (trimmed (c ∷ path) ++ globals.deletedmodifier) 1 os
      ≡ some (found, record os { errno = errno })
    → deletedpath fuel globals (c ∷ path) os
      ≡ some ((trimmed (c ∷ path), found), record os { errno = errno })
unfolding deletedpath
deletedpath_there globals fuel c path m found os errno h e done =
    rw (lstat_there (trimmed (c ∷ path) ++ globals.deletedmodifier) m os h e, done)

-- If one of the numbers up to the fuel gives a free name, `ver_deletedpath` returns a free name,
-- when no call fails: the path less a final slash, the modifier, and nothing or digits. It changes
-- nothing but `errno`.
pub deletedpath-free :
    (globals : Globals) (fuel k c : ℕ) (path : Bytes) (os : Os)
    → os.faults ≡ []
    → 1 ≤ k
    → k ≤ fuel
    → os.disk ((trimmed (c ∷ path) ++ globals.deletedmodifier) ++ print_nat 10 k) ≡ none
    → (digits : Bytes) × (e : ℕ) × (deletedpath fuel globals (c ∷ path) os
        ≡ some (
          (trimmed (c ∷ path), some (trimmed (c ∷ path) ++ (globals.deletedmodifier ++ digits))),
          record os { errno = e },
        ))
      × (os.disk (trimmed (c ∷ path) ++ (globals.deletedmodifier ++ digits)) ≡ none)
      × (all_digits digits ≡ true)
deletedpath-free globals fuel k c path os h l f free =
    let p = trimmed (c ∷ path) in
    let deleted = p ++ globals.deletedmodifier in
    elim (Option-cases (os.disk deleted)) [
      | inl e ↦
          let name : p ++ (globals.deletedmodifier ++ []) ≡ deleted =
            ap (λ s. p ++ s) (append-nil globals.deletedmodifier) in
          (
            [],
            enoent,
            deletedpath_absent globals fuel c path os h e
                ∙ ap (λ s. some ((p, some s), record os { errno = enoent })) (sym name),
            ap os.disk name ∙ e,
            digits_nil,
          )
      | inr (m, e) ↦
          let (n, errno, done, at) =
            free_name-free fuel k 1 deleted os h l (omega (arith, f)) free in
          let name : p ++ (globals.deletedmodifier ++ print_nat 10 n) ≡ deleted ++ print_nat 10 n =
            sym (append_assoc p globals.deletedmodifier (print_nat 10 n)) in
          (
            print_nat 10 n,
            errno,
            deletedpath_there globals fuel c path m (some (deleted ++ print_nat 10 n)) os errno h e
                  done
                ∙ ap (λ s. some ((p, some s), record os { errno = errno })) (sym name),
            ap os.disk name ∙ at,
            all_digits-print_nat n,
          )
    ]
