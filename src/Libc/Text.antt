-- ===== src/Libc/Text.antt =====
-- string.h: C strings are lists of bytes without their NUL.
use reproduction.Base.{
  ℕ, zero, suc, ◌≡◌, refl, [], ◌∷◌, ◌++◌, Option, none, some, ◌==◌, if◌then◌else◌, take, drop,
  length, arith, Option-cases, inl, inr,
}
use reproduction.Base.Text.{Bytes, Lacks}

-- The string that starts at a buffer: it ends at the first NUL.
unfoldable pub c_string : Bytes → Bytes
c_string [] = []
c_string (c ∷ s) = let rest = c ∷ c_string s in if c == 0 then [] else rest

pub c_string-Lacks : (s : Bytes) → Lacks 0 s → c_string s ≡ s
unfolding c_string
c_string-Lacks [] h = refl
c_string-Lacks (c ∷ s) h = ground (arith, c_string-Lacks s h.1)

-- `rindex`: where the last occurrence of the byte stands.
unfoldable pub rindex : Bytes → ℕ → Option ℕ
rindex [] c = none
rindex (x ∷ s) c = elim (rindex s c) [
  | none ↦ if x == c then some 0 else none
  | some i ↦ some (suc i)
]

pub rindex-Lacks : (s : Bytes) (c : ℕ) → Lacks c s → rindex s c ≡ none
unfolding rindex
rindex-Lacks [] c h = refl
rindex-Lacks (x ∷ s) c h = ground (arith, rindex-Lacks s c h.1)

-- The last occurrence is the one behind which there is no other.
pub rindex-append : (a b : Bytes) (c : ℕ) → Lacks c b → rindex (a ++ c ∷ b) c ≡ some (length a)
unfolding rindex
rindex-append [] b c h = ground (arith, rindex-Lacks b c h)
rindex-append (x ∷ a) b c h = ground (arith, rindex-append a b c h)

pub rindex-none : (s : Bytes) (c : ℕ) → rindex s c ≡ none → Lacks c s
unfolding rindex
rindex-none [] c h = tt
rindex-none (x ∷ s) c h = ground (arith, rindex-none s c)

-- An occurrence that `rindex` reports cuts the string in two around the byte.
pub rindex-cut :
    (s : Bytes) (c i : ℕ)
    → rindex s c ≡ some i
    → (s ≡ take i s ++ c ∷ drop (suc i) s) × Lacks c (drop (suc i) s)
unfolding rindex
rindex-cut [] c i h = cc
rindex-cut (x ∷ s) c zero h = elim (Option-cases (rindex s c)) [
  | inl e ↦ ground (arith, rindex-none s c e)
  | inr (j, e) ↦ ground (arith, e)
]
rindex-cut (x ∷ s) c (suc i) h = elim (Option-cases (rindex s c)) [
  | inl e ↦ ground (arith, e)
  | inr (j, e) ↦ ground (arith, e, rindex-cut s c i)
]

-- `strncmp(s, prefix, strlen(prefix)) == 0`, with what stands behind the prefix.
unfoldable pub strip_prefix : Bytes → Bytes → Option Bytes
strip_prefix [] s = some s
strip_prefix (p ∷ prefix) [] = none
strip_prefix (p ∷ prefix) (c ∷ s) = if c == p then strip_prefix prefix s else none

pub strip_prefix-append : (needle s : Bytes) → strip_prefix needle (needle ++ s) ≡ some s
unfolding strip_prefix
strip_prefix-append [] s = refl
strip_prefix-append (d ∷ needle) s = ground (arith, strip_prefix-append needle s)
