-- ===== src/Libc/Print.antt =====
-- printf: the conversions `%i` and `%04o` of 32-bit values, in digits of base 10 and 8.
use reproduction.Base.{
  ℕ, zero, suc, ◌+◌, ◌-◌, ◌/◌, ◌%◌, ◌^◌, [], ◌∷◌, ltb, ◌==◌, if◌then◌else◌, length,
}
use reproduction.Base.Text.{Bytes}

-- The digits of `n` in front of `out`; `n` rounds are more than enough.
unfoldable pub emit : ℕ → ℕ → ℕ → Bytes → Bytes
emit b zero n out = out
emit b (suc k) n out =
    let rest = emit b k (n / b) ((b'0' + n % b) ∷ out) in if n == 0 then out else rest

unfoldable pub print_nat : ℕ → ℕ → Bytes
unfolding emit
print_nat b n = if n == 0 then b'0' ∷ [] else emit b n n []

-- `%i` of a value that is stored in 32 unsigned bits: the upper half prints as negative.
unfoldable pub print_int : ℕ → Bytes
unfolding print_nat
print_int w = if ltb w (2 ^ 31) then print_nat 10 w else b'-' ∷ print_nat 10 (2 ^ 32 - w)

unfoldable pub pad : ℕ → Bytes → Bytes
pad zero s = s
pad (suc n) s = b'0' ∷ pad n s

-- `%04o`.
unfoldable pub print_octal4 : ℕ → Bytes
unfolding print_nat pad
print_octal4 w = let s = print_nat 8 w in pad (4 - length s) s

abbrev pub hex_digit : ℕ → ℕ
hex_digit d = if ltb d 10 then b'0' + d else b'A' + (d - 10)

unfoldable pub print_hex : ℕ → ℕ → Bytes → Bytes
print_hex zero n out = out
print_hex (suc width) n out = print_hex width (n / 16) (hex_digit (n % 16) ∷ out)

-- `%08X` of 32 bits.
abbrev pub print_hex8 : ℕ → Bytes
print_hex8 w = print_hex 8 w []
