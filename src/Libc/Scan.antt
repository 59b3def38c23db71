-- ===== src/Libc/Scan.antt =====
-- sscanf: the conversions `%u` and `%o` into 32 bits, as glibc does them: `strtoul` on 64 bits,
-- which skips white space, takes a sign and stops at the largest value, and then a truncation.
use reproduction.Base.{
  ℕ, ◌+◌, ◌-◌, ◌*◌, ◌%◌, ◌^◌, [], ◌∷◌, Option, none, some, Bool, true, false, ltb, leb, ◌==◌,
  if◌then◌else◌, ◌&&◌, ◌||◌,
}
use reproduction.Base.Text.{Bytes}

abbrev pub is_digit : ℕ → ℕ → Bool
is_digit b c = leb b'0' c && ltb c (b'0' + b)

-- `isspace`: blank, and the bytes from tab to carriage return.
abbrev pub is_space : ℕ → Bool
is_space c = c == b' ' || (leb 9 c && leb c 13)

unfoldable pub skip_space : Bytes → Bytes
skip_space [] = []
skip_space (c ∷ s) = if is_space c then skip_space s else c ∷ s

-- The longest run of digits, added to the value so far, and what follows it.
unfoldable pub scan_digits : ℕ → Bytes → ℕ → ℕ × Bytes
scan_digits b [] v = (v, [])
scan_digits b (c ∷ s) v =
    let rest = scan_digits b s (v * b + (c - b'0')) in if is_digit b c then rest else (v, c ∷ s)

-- The 32 bits that are stored for a sign and a magnitude.
unfoldable pub truncate32 : Bool → ℕ → ℕ
truncate32 minus v =
    if leb (2 ^ 64) v then 2 ^ 32 - 1 else if minus then (2 ^ 64 - v) % 2 ^ 32 else v % 2 ^ 32

unfoldable pub scan_magnitude : ℕ → Bool → Bytes → Option (ℕ × Bytes)
unfolding scan_digits truncate32
scan_magnitude b minus [] = none
scan_magnitude b minus (c ∷ s) =
    if is_digit b c
    then (let (v, rest) = scan_digits b (c ∷ s) 0 in some (truncate32 minus v, rest))
    else none

unfoldable pub scan_signed : ℕ → Bytes → Option (ℕ × Bytes)
unfolding scan_magnitude
scan_signed b [] = none
scan_signed b (c ∷ s) =
    if c == b'-'
    then scan_magnitude b true s
    else if c == b'+'
    then scan_magnitude b false s
    else scan_magnitude b false (c ∷ s)

-- `%u` at base 10 and `%o` at base 8: the value and the unread text.
unfoldable pub scan_unsigned : ℕ → Bytes → Option (ℕ × Bytes)
unfolding skip_space scan_signed
scan_unsigned b s = scan_signed b (skip_space s)

-- A byte of the format that must be met.
unfoldable pub scan_literal : ℕ → Bytes → Option Bytes
scan_literal l [] = none
scan_literal l (c ∷ s) = if c == l then some s else none
