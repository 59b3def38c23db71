-- ===== src/Wayback/Words.antt =====
-- Numbers in memory: a fixed number of bytes, the low one first.
use reproduction.Base.{
  ℕ, zero, suc, ◌+◌, ◌*◌, ◌/◌, ◌%◌, ◌≡◌, refl, [], ◌∷◌, ◌++◌, Option, none, some, arith, length,
}
use reproduction.Base.Text.{Bytes}

-- `memcpy` of a number into a buffer.
unfoldable pub word : ℕ → ℕ → Bytes
word zero n = []
word (suc w) n = (n % 256) ∷ word w (n / 256)

-- The number in the first bytes, and the rest.
unfoldable pub read_word : ℕ → Bytes → Option (ℕ × Bytes)
read_word zero s = some (0, s)
read_word (suc w) [] = none
read_word (suc w) (b ∷ s) = elim (read_word w s) [
  | none ↦ none
  | some (n, rest) ↦ some (b + 256 * n, rest)
]

-- The number has so many bytes.
abbrev pub Fits : ℕ → ℕ → Type 0
Fits zero n = n ≡ 0
Fits (suc w) n = Fits w (n / 256)

-- A number in so many bytes: what does not fit is cut off.
unfoldable pub narrow : ℕ → ℕ → ℕ
narrow zero n = 0
narrow (suc w) n = n % 256 + 256 * narrow w (n / 256)

pub read-word :
    (w n : ℕ) (rest : Bytes) → Fits w n → read_word w (word w n ++ rest) ≡ some (n, rest)
unfolding word read_word
read-word zero n rest h = ground (arith, h)
read-word (suc w) n rest h = ground (arith, read-word w (n / 256) rest h)

pub read-word-narrow :
    (w n : ℕ) (rest : Bytes) → read_word w (word w n ++ rest) ≡ some (narrow w n, rest)
unfolding word read_word narrow
read-word-narrow zero n rest = refl
read-word-narrow (suc w) n rest = rw (read-word-narrow w (n / 256) rest) refl

pub length-word : (w n : ℕ) → length (word w n) ≡ w
unfolding word
length-word zero n = refl
length-word (suc w) n = omega (arith, length-word w (n / 256))

pub narrow-Fits : (w n : ℕ) → Fits w n → narrow w n ≡ n
unfolding narrow
narrow-Fits zero n h = ground (arith, h)
narrow-Fits (suc w) n h = omega (arith, narrow-Fits w (n / 256) h)
