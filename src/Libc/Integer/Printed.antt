-- ===== src/Libc/Integer/Printed.antt =====
-- An `int` that was printed is read back by `%d`.
use reproduction.Base.{
  ℕ, zero, suc, ◌+◌, ◌-◌, ◌*◌, ◌/◌, ◌%◌, ◌^◌, ◌≤◌, ◌<◌, ◌≡◌, refl, ◌∙◌, [], ◌∷◌, ◌++◌, some, Bool,
  true, false, ◌==◌, arith, length, Bool-cases, ap, All, inl, inr,
}
use reproduction.Base.Int.{ℤ, pos, negsuc, to_unsigned}
use reproduction.Base.Text.{Bytes}
use reproduction.Libc.Print.{emit, print_nat, print_int}
use reproduction.Libc.Scan.{scan_digits, skip_space}
use reproduction.Libc.Numbers.{scan_digits-emit}
use reproduction.Libc.Integer.{scan_run, to_int, scan_base, atoi_signed, scan_decimal}

abbrev pub IsDigits : Bytes → Type 0
IsDigits = All (λ c. (b'0' ≤ c) × (c ≤ b'9'))

emit-IsDigits : (k n : ℕ) (out : Bytes) → IsDigits out → IsDigits (emit 10 k n out)
unfolding emit
emit-IsDigits zero n out h = h
emit-IsDigits (suc k) n out h = elim (Bool-cases (n == 0)) [
  | inl e ↦ rw (e, emit) h
  | inr e ↦ rw (e, emit) (emit-IsDigits k (n / 10) _ ((omega arith, omega arith), h))
]

pub print_nat-IsDigits : (n : ℕ) → IsDigits (print_nat 10 n)
unfolding print_nat
print_nat-IsDigits n = elim (Bool-cases (n == 0)) [
  | inl e ↦ rw (e, print_nat) (omega arith, omega arith)
  | inr e ↦ rw (e, print_nat) (emit-IsDigits n n [] tt)
]

length-emit_pos : (k n : ℕ) (out : Bytes) → 0 < length out → 0 < length (emit 10 k n out)
unfolding emit
length-emit_pos zero n out h = h
length-emit_pos (suc k) n out h =
    ground (arith, h, length-emit_pos k (n / 10) ((b'0' + n % 10) ∷ out))

length-print_nat_pos : (n : ℕ) → 0 < length (print_nat 10 n)
unfolding print_nat emit
length-print_nat_pos zero = omega arith
length-print_nat_pos (suc n) =
    ground (arith, length-emit_pos n (suc n / 10) ((b'0' + suc n % 10) ∷ []))

-- The text ends, or goes on with a byte that is no digit in any base.
abbrev pub Stops : Bytes → Type 0
Stops [] = Unit
Stops (c ∷ s) = (c < b'0')

scan_run-Stops : (tail : Bytes) (v : ℕ) → Stops tail → scan_run 10 tail v ≡ (v, tail)
unfolding scan_run
scan_run-Stops [] v h = refl
scan_run-Stops (c ∷ s) v h = ground (arith, h)

-- The digits are read as `strtoul` reads them, and no byte more.
scan_run-digits :
    (s tail : Bytes) (v : ℕ)
    → IsDigits s
    → Stops tail
    → scan_run 10 (s ++ tail) v ≡ ((scan_digits 10 s v).0, tail)
unfolding scan_run scan_digits
scan_run-digits [] tail v h t = scan_run-Stops tail v t
scan_run-digits (c ∷ s) tail v h t =
    ground (arith, h, scan_run-digits s tail (v * 10 + (c - b'0')) h.1 t)

scan_digits-print : (n : ℕ) → (scan_digits 10 (print_nat 10 n) 0).0 ≡ n
unfolding print_nat scan_digits
scan_digits-print n = elim (Bool-cases (n == 0)) [
  | inl z ↦ ground (arith, z)
  | inr p ↦ ground (arith, p, scan_digits-emit 10 (omega arith) (omega arith) n n [] (omega arith))
]

scan_base-digits :
    (minus : Bool) (s tail : Bytes)
    → IsDigits s
    → 0 < length s
    → Stops tail
    → scan_base 10 minus (s ++ tail) ≡ some (to_int minus (scan_digits 10 s 0).0, tail)
unfolding scan_base
scan_base-digits minus [] tail h l t = absurd (omega arith)
scan_base-digits minus (c ∷ s) tail h l t = ground (arith, h, scan_run-digits (c ∷ s) tail 0 h t)

-- The values of an `int`.
abbrev pub IsInt : ℤ → Type 0
IsInt (pos n) = n < 2 ^ 31
IsInt (negsuc n) = n < 2 ^ 31

scan_base-print :
    (minus : Bool) (n : ℕ) (tail : Bytes)
    → Stops tail
    → scan_base 10 minus (print_nat 10 n ++ tail) ≡ some (to_int minus n, tail)
scan_base-print minus n tail t =
    scan_base-digits minus (print_nat 10 n) tail (print_nat-IsDigits n) (length-print_nat_pos n) t
    ∙ ap (λ v. some (to_int minus v, tail)) (scan_digits-print n)

to_int-pos : (n : ℕ) → n < 2 ^ 31 → to_int false n ≡ pos n
unfolding to_int
to_int-pos n h = ground (arith, h)

to_int-negsuc : (n : ℕ) → n < 2 ^ 31 → to_int true (n + 1) ≡ negsuc n
unfolding to_int
to_int-negsuc n h = ground (arith, h)

-- A text that starts with a digit is read from there on.
scan_decimal-digits :
    (s tail : Bytes)
    → IsDigits s
    → 0 < length s
    → scan_decimal (s ++ tail) ≡ scan_base 10 false (s ++ tail)
unfolding scan_decimal atoi_signed skip_space
scan_decimal-digits [] tail h l = absurd (omega arith)
scan_decimal-digits (c ∷ s) tail h l = ground (arith, h)

scan_decimal-minus : (s : Bytes) → scan_decimal (b'-' ∷ s) ≡ scan_base 10 true s
unfolding scan_decimal atoi_signed skip_space
scan_decimal-minus s = ground arith

print_int-pos : (n : ℕ) → n < 2 ^ 31 → print_int (to_unsigned (pos n)) ≡ print_nat 10 n
unfolding print_int
print_int-pos n h = ground (arith, h)

print_int-negsuc :
    (n : ℕ) → n < 2 ^ 31 → print_int (to_unsigned (negsuc n)) ≡ b'-' ∷ print_nat 10 (n + 1)
unfolding print_int
print_int-negsuc n h = ground (arith, h)

-- `%d` reads what `%i` printed, whatever stands behind it but a digit.
pub scan_decimal-print_int :
    (x : ℤ) (tail : Bytes)
    → IsInt x
    → Stops tail
    → scan_decimal (print_int (to_unsigned x) ++ tail) ≡ some (x, tail)
scan_decimal-print_int (pos n) tail h t =
    ap (λ s. scan_decimal (s ++ tail)) (print_int-pos n h)
    ∙ scan_decimal-digits (print_nat 10 n) tail (print_nat-IsDigits n) (length-print_nat_pos n)
    ∙ scan_base-print false n tail t
    ∙ ap (λ x. some (x, tail)) (to_int-pos n h)
scan_decimal-print_int (negsuc n) tail h t =
    ap (λ s. scan_decimal (s ++ tail)) (print_int-negsuc n h)
    ∙ scan_decimal-minus (print_nat 10 (n + 1) ++ tail)
    ∙ scan_base-print true (n + 1) tail t
    ∙ ap (λ x. some (x, tail)) (to_int-negsuc n h)
