-- ===== src/Wayback/Settings/Arguments.antt =====
-- The arguments that are handed to FUSE, and their number, which goes through a text.
use reproduction.Base.{
  ℕ, zero, suc, ◌+◌, ◌-◌, ◌*◌, ◌/◌, ◌%◌, ◌^◌, ◌≤◌, ◌<◌, ◌≡◌, refl, ap, ◌∙◌, inl, inr, List, [], ◌∷◌,
  some, true, false, not, ◌==◌, length, take, arith, take-all, Bool-cases,
}
use reproduction.Base.Int.{pos}
use reproduction.Base.Text.{Bytes, codes}
use reproduction.Libc.Integer.{scan_run, scan_base, atoi_signed, scan_atoi, to_int}
use reproduction.Libc.Numbers.{scan_digits-emit}
use reproduction.Libc.Print.{emit, print_nat, print_int}
use reproduction.Libc.Scan.{scan_digits, skip_space}
use reproduction.Wayback.Names.{all_digits}
use reproduction.Wayback.Names.Free.{all_digits-print_nat}
use reproduction.Wayback.Settings.{parseargs, filter, is_option}

-- On decimal digits `strtol` and `strtoul` read alike.
scan_run-digits : (s : Bytes) (v : ℕ) → all_digits s ≡ true → scan_run 10 s v ≡ scan_digits 10 s v
unfolding scan_run scan_digits all_digits
scan_run-digits [] v h = refl
scan_run-digits (c ∷ s) v h = ground (arith, h, scan_run-digits s (v * 10 + (c - b'0')))

scan_print : (n : ℕ) → scan_run 10 (print_nat 10 n) 0 ≡ (n, [])
unfolding print_nat scan_digits
scan_print n =
    scan_run-digits (print_nat 10 n) 0 (all_digits-print_nat n) ∙ elim (Bool-cases (n == 0)) [
      | inl z ↦ ground (arith, z)
      | inr p ↦
          ground (arith, p, scan_digits-emit 10 (omega arith) (omega arith) n n [] (omega arith))
    ]

-- A text of digits is read from its first byte on.
atoi_digits :
    (s : Bytes) (n : ℕ)
    → 0 < length s
    → all_digits s ≡ true
    → scan_run 10 s 0 ≡ (n, [])
    → scan_atoi s ≡ to_int false n
unfolding scan_atoi atoi_signed scan_base skip_space all_digits
atoi_digits [] n l h e = absurd (omega arith)
atoi_digits (c ∷ s) n l h e = ground (arith, h, e)

-- The number has so many digits at most.
abbrev Spans : ℕ → ℕ → Type 0
Spans zero n = n ≡ 0
Spans (suc d) n = Spans d (n / 10)

length-emit : (d k n : ℕ) (out : Bytes) → Spans d n → length (emit 10 k n out) ≤ d + length out
unfolding emit
length-emit d zero n out h = omega arith
length-emit zero (suc k) n out h = ground (arith, h)
length-emit (suc d) (suc k) n out h = elim (Bool-cases (n == 0)) [
  | inl e ↦ ground (arith, e)
  | inr e ↦ ground (arith, e, length-emit d k (n / 10) ((b'0' + n % 10) ∷ out) h)
]

int_digits : (n : ℕ) → n < 2 ^ 31 → Spans 14 n
int_digits n h = omega (arith, h)

length-print_nat : (n : ℕ) → n < 2 ^ 31 → length (print_nat 10 n) ≤ 14
unfolding print_nat
length-print_nat n h = elim (Bool-cases (n == 0)) [
  | inl e ↦ ground (arith, e)
  | inr e ↦ ground (arith, e, length-emit 14 n n [] (int_digits n h))
]

emit_pos : (k n : ℕ) (out : Bytes) → 0 < length out → 0 < length (emit 10 k n out)
unfolding emit
emit_pos zero n out h = h
emit_pos (suc k) n out h = ground (arith, h, emit_pos k (n / 10) ((b'0' + n % 10) ∷ out))

print_nat_pos : (n : ℕ) → 0 < length (print_nat 10 n)
unfolding print_nat emit
print_nat_pos zero = ground arith
print_nat_pos (suc n) = ground (arith, emit_pos n (suc n / 10) ((b'0' + suc n % 10) ∷ []))

-- An `int` that is printed into 15 bytes is read back.
scan_atoi-print : (n : ℕ) → n < 2 ^ 31 → scan_atoi (take 14 (print_int n)) ≡ pos n
unfolding print_int to_int
scan_atoi-print n h =
    let plain : print_int n ≡ print_nat 10 n = ground (arith, h) in
    ap (λ s. scan_atoi (take 14 s)) plain
    ∙ ap scan_atoi (take-all 14 (print_nat 10 n) (length-print_nat n h))
    ∙ atoi_digits (print_nat 10 n) n (print_nat_pos n) (all_digits-print_nat n) (scan_print n)
    ∙ ground (arith, h)

-- With a program, a source and a destination among the arguments, and options anywhere, `parseargs`
-- gives the source, the text of a number, and the arguments for FUSE: the program, the destination,
-- `-s` twice and the options in their order. `atoi` reads from the text the number of these, which is
-- less than 2^31.
pub parseargs-counted :
    (argv : List Bytes) (program source destination : Bytes)
    → filter (λ s. not (is_option s)) argv ≡ program ∷ source ∷ destination ∷ []
    → 4 + length (filter is_option argv) < 2 ^ 31
    → (count : Bytes) × (parseargs argv
        ≡ some (
            source
            ∷ count
            ∷ program
            ∷ destination
            ∷ codes "-s"
            ∷ codes "-s"
            ∷ filter is_option argv))
      × (scan_atoi count ≡ pos (4 + length (filter is_option argv)))
unfolding parseargs
parseargs-counted argv program source destination e h =
    let n = 2 + length (codes "-s" ∷ codes "-s" ∷ filter is_option argv) in
    let n_is : n ≡ 4 + length (filter is_option argv) = omega arith in
    (take 14 (print_int n), ground (arith, e), scan_atoi-print n (omega (arith, h)) ∙ ap pos n_is)
