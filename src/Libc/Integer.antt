-- ===== src/Libc/Integer.antt =====
-- sscanf's `%i` into an `int`, as glibc does it: `strtol` on 64 bits with the base read off the
-- prefix, and then a truncation to 32 bits.
pub mod Printed
use reproduction.Base.{
  ℕ, ◌+◌, ◌-◌, ◌*◌, ◌%◌, ◌^◌, [], ◌∷◌, Option, none, some, Bool, true, false, ltb, leb, ◌==◌,
  if◌then◌else◌, ◌&&◌, ◌||◌,
}
use reproduction.Base.Int.{ℤ, pos, negsuc}
use reproduction.Base.Text.{Bytes}
use reproduction.Libc.Scan.{skip_space}

-- The value of a digit; 16 for a byte that is no digit in any base.
abbrev pub digit_value : ℕ → ℕ
digit_value c =
    if leb b'0' c && leb c b'9'
    then c - b'0'
    else if leb b'a' c && leb c b'f'
    then c - b'a' + 10
    else if leb b'A' c && leb c b'F'
    then c - b'A' + 10
    else 16

unfoldable pub scan_run : ℕ → Bytes → ℕ → ℕ × Bytes
scan_run base [] v = (v, [])
scan_run base (c ∷ s) v =
    let rest = scan_run base s (v * base + digit_value c) in
    if ltb (digit_value c) base then rest else (v, c ∷ s)

-- The `int` with these 32 bits.
abbrev pub to_signed : ℕ → ℤ
to_signed w = if ltb w (2 ^ 31) then pos w else negsuc (2 ^ 32 - 1 - w)

-- `strtol` stops at the ends of 64 bits; the `int` keeps the low half.
unfoldable pub to_int : Bool → ℕ → ℤ
to_int true v = if ltb (2 ^ 63) v then pos 0 else to_signed ((2 ^ 64 - v) % 2 ^ 32)
to_int false v = if leb (2 ^ 63) v then negsuc 0 else to_signed (v % 2 ^ 32)

-- At least one digit must be there.
unfoldable pub scan_base : ℕ → Bool → Bytes → Option (ℤ × Bytes)
unfolding scan_run to_int
scan_base base minus [] = none
scan_base base minus (c ∷ s) =
    if ltb (digit_value c) base
    then (let (v, rest) = scan_run base (c ∷ s) 0 in some (to_int minus v, rest))
    else none

-- Behind `0x` the base is 16, behind `0` it is 8.
unfoldable pub scan_prefixed : Bool → Bytes → Option (ℤ × Bytes)
unfolding scan_base
scan_prefixed minus [] = none
scan_prefixed minus (c ∷ []) = scan_base 10 minus (c ∷ [])
scan_prefixed minus (c ∷ d ∷ s) =
    if c == b'0'
    then (if d == b'x' || d == b'X' then scan_base 16 minus s else scan_base 8 minus (c ∷ d ∷ s))
    else scan_base 10 minus (c ∷ d ∷ s)

unfoldable pub scan_int_signed : Bytes → Option (ℤ × Bytes)
unfolding scan_prefixed
scan_int_signed [] = none
scan_int_signed (c ∷ s) =
    if c == b'-'
    then scan_prefixed true s
    else if c == b'+'
    then scan_prefixed false s
    else scan_prefixed false (c ∷ s)

unfoldable pub scan_int : Bytes → Option (ℤ × Bytes)
unfolding skip_space scan_int_signed
scan_int s = scan_int_signed (skip_space s)

unfoldable pub atoi_signed : Bytes → Option (ℤ × Bytes)
unfolding scan_base
atoi_signed [] = none
atoi_signed (c ∷ s) =
    if c == b'-'
    then scan_base 10 true s
    else if c == b'+'
    then scan_base 10 false s
    else scan_base 10 false (c ∷ s)

-- sscanf's `%d`.
unfoldable pub scan_decimal : Bytes → Option (ℤ × Bytes)
unfolding skip_space atoi_signed
scan_decimal s = atoi_signed (skip_space s)

-- `atoi`: `strtol` at base 10, and 0 for a text without digits.
unfoldable pub scan_atoi : Bytes → ℤ
unfolding skip_space atoi_signed
scan_atoi s = elim (atoi_signed (skip_space s)) [ none ↦ pos 0 | some (n, _) ↦ n ]
