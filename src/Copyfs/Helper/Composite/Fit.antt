-- ===== src/Copyfs/Helper/Composite/Fit.antt =====
-- The two passes of `helper_build_composite` agree, and the paths that it builds are split again.
use mathlib.Core.List.{append-nil, append_assoc}
use reproduction.Base.{
  ◌%◌, ◌^◌, ℕ, ◌+◌, ◌≡◌, refl, ◌≢◌, ap, List, [], ◌∷◌, ◌++◌, Option, none, some, Bool, true, false,
  ◌==◌, if◌then◌else◌, length, arith, All, Bool-cases, Option-cases, ◌⊎◌, inl, inr, length-append,
}
use reproduction.Base.Text.{Bytes, Lacks, codes}
use reproduction.Copyfs.Helper.Split.{split_to_array}
use reproduction.Copyfs.Helper.Split.Words.{spelled, split_to_array-spelled}
use reproduction.Copyfs.Helper.Composite.{
  Arg, string, array, array_length, array_text, take_arg, arg_length, arg_text, composite_length,
  composite_text, build_composite, separates,
}

array_length-text :
    (separator : Bytes) (xs : List Bytes)
    → length (array_text separator xs) ≡ array_length separator xs
unfolding array_text array_length
array_length-text separator [] = refl
array_length-text separator (x ∷ []) = refl
array_length-text separator (x ∷ y ∷ xs) = omega (
  arith,
  length-append x (separator ++ array_text separator (y ∷ xs)),
  length-append separator (array_text separator (y ∷ xs)),
  array_length-text separator (y ∷ xs),
)

arg_length-text :
    (separator : Bytes) (a : Arg) → length (arg_text separator a) ≡ arg_length separator a
arg_length-text separator (string s) = refl
arg_length-text separator (array a) = array_length-text separator a

-- Both passes refuse, or the second writes behind `k` bytes as many as the first counted.
abbrev pub Fits : ℕ → Option ℕ → Option Bytes → Type 0
Fits k none none = Unit {0}
Fits k none (some s) = ⊥
Fits k (some n) none = ⊥
Fits k (some n) (some s) = length s ≡ k + n

Fits-shift :
    (j k m : ℕ) (n : Option ℕ) (s : Option Bytes)
    → j ≡ k + m
    → Fits j n s
    → Fits k (elim n [ none ↦ none | some i ↦ some (m + i) ]) s
Fits-shift j k m none none e h = tt
Fits-shift j k m none (some s) e h = h
Fits-shift j k m (some n) none e h = h
Fits-shift j k m (some n) (some s) e h = omega arith

written :
    (separator result : Bytes) (a : Arg) (more : Bool)
    → length (
        if more
        then (result ++ arg_text separator a) ++ separator
        else result ++ arg_text separator a)
      ≡ length result + (arg_length separator a + (if more then length separator else 0))
written separator result a true = omega (
  arith,
  length-append (result ++ arg_text separator a) separator,
  length-append result (arg_text separator a),
  arg_length-text separator a,
)
written separator result a false =
    omega (arith, length-append result (arg_text separator a), arg_length-text separator a)

composite-Fits :
    (format separator : Bytes) (args : List Arg) (result : Bytes)
    → Fits
        (length result)
        (composite_length format separator args)
        (composite_text format separator args result)
unfolding composite_length composite_text
composite-Fits [] separator args result = omega arith
composite-Fits (f ∷ format) separator args result = elim (Bool-cases (f == b'-')) [
  | inl dash ↦
      rw (dash, composite_length, composite_text)
        (Fits-shift (length (result ++ separator)) (length result) (length separator) _ _
          (length-append result separator)
          (composite-Fits format separator args (result ++ separator)))
  | inr letter ↦ elim (Option-cases (take_arg f args)) [
    | inl e ↦ rw (letter, e, composite_length, composite_text) tt
    | inr ((a, rest), e) ↦
        rw (letter, e, composite_length, composite_text)
          (Fits-shift _ (length result) _ (composite_length format separator rest)
            (composite_text format separator rest (
              if separates format
              then (result ++ arg_text separator a) ++ separator
              else result ++ arg_text separator a))
            (written separator result a (separates format))
            (composite-Fits format separator rest _))
  ]
]

-- For every format and every list of arguments the buffer is allocated for the bytes of the string and
-- its NUL, in 32 bits: exactly for them if they are fewer than 2 ^ 32, and too small from there on. The
-- function is undefined on a call only if its first pass is.
pub build_composite_fits :
    (format separator : Bytes) (args : List Arg)
    → ((build_composite format separator args ≡ none)
        × (composite_length format separator args ≡ none))
      ⊎ ((s : Bytes) × (build_composite format separator args ≡ some (s, (length s + 1) % 2 ^ 32))
          × (composite_text format separator args [] ≡ some s))
unfolding build_composite
build_composite_fits format separator args =
    fits (composite_length format separator args) (composite_text format separator args []) refl
      refl (composite-Fits format separator args [])
  where
    fits :
        (n : Option ℕ) (s : Option Bytes)
        → composite_length format separator args ≡ n
        → composite_text format separator args [] ≡ s
        → Fits 0 n s
        → ((build_composite format separator args ≡ none)
            × (composite_length format separator args ≡ none))
          ⊎ ((s : Bytes) × (build_composite format separator args
                ≡ some (s, (length s + 1) % 2 ^ 32))
              × (composite_text format separator args [] ≡ some s))
    fits none none e p h = inl (rw (e, build_composite), e)
    fits none (some s) e p h = absurd h
    fits (some n) none e p h = absurd h
    fits (some n) (some s) e p h = inr (s, rw (e, p, build_composite) (ground arith), p)

pub array_text-spelled :
    (c : ℕ) (x : Bytes) (xs : List Bytes) → c ∷ array_text (c ∷ []) (x ∷ xs) ≡ spelled c (x ∷ xs)
unfolding array_text
array_text-spelled c x [] = ground (arith, append-nil x)
array_text-spelled c x (y ∷ xs) = ground (arith, array_text-spelled c y xs)

-- What the calls of the daemon build: `a/b` from two strings, and from an array the path that the
-- elements spell, each behind a slash.
pub build_composite_forms :
    (a b x : Bytes) (xs : List Bytes)
    → (build_composite (codes "SS") (codes "/") (string a ∷ string b ∷ [])
        ≡ some (a ++ b'/' ∷ b, (length (a ++ b'/' ∷ b) + 1) % 2 ^ 32))
      × (build_composite (codes "-A") (codes "/") (array (x ∷ xs) ∷ [])
          ≡ some (spelled b'/' (x ∷ xs), (length (spelled b'/' (x ∷ xs)) + 1) % 2 ^ 32))
unfolding build_composite composite_length composite_text
build_composite_forms a b x xs = (
  ground (arith, append_assoc a (codes "/") b, length-append a (b'/' ∷ b)),
  ground (
    arith,
    array_text-spelled b'/' x xs,
    array_length-text (codes "/") (x ∷ xs),
    ap (length {A = ℕ}) (array_text-spelled b'/' x xs),
  ),
)

-- The path that `helper_build_composite("-A", "/", elements)` builds is split into the same
-- elements, if none is empty or holds a slash.
pub split-build_composite :
    (x : Bytes) (xs : List Bytes)
    → All (λ w. Lacks b'/' w × (w ≢ [])) (x ∷ xs)
    → (path : Bytes) × (n : ℕ) × (build_composite (codes "-A") (codes "/") (array (x ∷ xs) ∷ [])
        ≡ some (path, n))
      × (split_to_array path b'/' ≡ x ∷ xs)
split-build_composite x xs h = (
  spelled b'/' (x ∷ xs),
  _,
  (build_composite_forms [] [] x xs).1,
  split_to_array-spelled b'/' (x ∷ xs) h,
)
