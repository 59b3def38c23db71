-- ===== src/Libc/Numbers.antt =====
-- A number that was printed is read back.
use native.Mathlib.Nat.{mod-lt, div-add-mod, div-add-mod'}
use reproduction.Base.{
  ℕ, zero, suc, ◌+◌, ◌-◌, ◌*◌, ◌/◌, ◌%◌, ◌^◌, ◌≤◌, ◌<◌, ◌≡◌, refl, ◌≢◌, [], ◌∷◌, ◌++◌, some, Bool,
  true, false, ltb, ◌==◌, arith, length, Bool-cases, ap, All, inl, inr,
}
use reproduction.Base.Text.{Bytes}
use reproduction.Libc.Print.{emit, print_nat, print_int, pad, print_octal4}
use reproduction.Libc.Scan.{
  is_digit, scan_digits, truncate32, scan_magnitude, scan_signed, scan_unsigned,
}

-- The text begins with a digit.
abbrev Starts : ℕ → Bytes → Type 0
Starts b [] = ⊥
Starts b (c ∷ s) = is_digit b c ≡ true

module _ (b : ℕ) (big : 1 < b) (small : b ≤ 10) where
  digit_lem : (n : ℕ) → n % b < b
  digit_lem n = mod-lt n (omega arith)

  shrink : (n k : ℕ) → n ≢ 0 → n ≤ suc k → n / b ≤ k
  shrink n k h l = grind (arith, div-add-mod n b)

  -- Reading one more digit of `n` behind the others gives `n`.
  scan_last :
      (n : ℕ) (out : Bytes) → scan_digits b ((b'0' + n % b) ∷ out) (n / b) ≡ scan_digits b out n
  unfolding scan_digits
  scan_last n out =
      let v : n / b * b + (b'0' + n % b - b'0') ≡ n = omega (arith, div-add-mod' n b) in
      ground (arith, digit_lem n, v)

  pub scan_digits-emit :
      (k n : ℕ) (out : Bytes) → n ≤ k → scan_digits b (emit b k n out) 0 ≡ scan_digits b out n
  unfolding emit
  scan_digits-emit zero n out h = let e : n ≡ 0 = omega arith in rw e
  scan_digits-emit (suc k) n out h =
      ground (arith, shrink n k, scan_digits-emit k (n / b) ((b'0' + n % b) ∷ out), scan_last n out)

  Starts-emit : (k n : ℕ) (out : Bytes) → Starts b out → Starts b (emit b k n out)
  unfolding emit
  Starts-emit zero n out h = h
  Starts-emit (suc k) n out h = elim (Bool-cases (n == 0)) [
    | inl e ↦ rw e h
    | inr e ↦ rw e (Starts-emit k (n / b) _ (ground (arith, digit_lem n)))
  ]

  emit-append : (k n : ℕ) (out rest : Bytes) → emit b k n out ++ rest ≡ emit b k n (out ++ rest)
  unfolding emit
  emit-append zero n out rest = refl
  emit-append (suc k) n out rest = ground (arith, emit-append k (n / b) ((b'0' + n % b) ∷ out) rest)

  -- Behind the number stands a byte that is no digit.
  scan_digits-print :
      (n c : ℕ) (rest : Bytes)
      → is_digit b c ≡ false
      → scan_digits b (print_nat b n ++ c ∷ rest) 0 ≡ (n, c ∷ rest)
  unfolding print_nat scan_digits
  scan_digits-print n c rest e = elim (Bool-cases (n == 0)) [
    | inl z ↦ ground arith
    | inr p ↦
        rw (p, emit-append n n [] (c ∷ rest), scan_digits-emit n n (c ∷ rest) (omega arith)) (rw e)
  ]

  Starts-emit_pos : (k n : ℕ) (out : Bytes) → n ≤ k → (n == 0) ≡ false → Starts b (emit b k n out)
  unfolding emit
  Starts-emit_pos zero n out h p = absurd (ground arith)
  Starts-emit_pos (suc k) n out h p = rw p (Starts-emit k (n / b) _ (ground (arith, digit_lem n)))

  Starts-print : (n : ℕ) (rest : Bytes) → Starts b (print_nat b n ++ rest)
  unfolding print_nat
  Starts-print n rest = elim (Bool-cases (n == 0)) [
    | inl z ↦ rw z (ground arith)
    | inr p ↦ rw (p, emit-append n n [] rest) (Starts-emit_pos n n rest (omega arith) p)
  ]

  scan_magnitude-Starts :
      (minus : Bool) (s : Bytes)
      → Starts b s
      → scan_magnitude b minus s
        ≡ (let (v, rest) = scan_digits b s 0 in some (truncate32 minus v, rest))
  unfolding scan_magnitude
  scan_magnitude-Starts minus [] h = absurd h
  scan_magnitude-Starts minus (c ∷ s) h = rw h

  -- Text that begins with a digit has no blank and no sign in front.
  scan_unsigned-Starts : (s : Bytes) → Starts b s → scan_unsigned b s ≡ scan_magnitude b false s
  unfolding scan_unsigned scan_signed
  scan_unsigned-Starts [] h = absurd h
  scan_unsigned-Starts (c ∷ s) h = ground arith

  scan_unsigned-print :
      (n c : ℕ) (rest : Bytes)
      → is_digit b c ≡ false
      → n < 2 ^ 32
      → scan_unsigned b (print_nat b n ++ c ∷ rest) ≡ some (n, c ∷ rest)
  unfolding truncate32
  scan_unsigned-print n c rest e h =
      rw
        (
          scan_unsigned-Starts _ (Starts-print n (c ∷ rest)),
          scan_magnitude-Starts false _ (Starts-print n (c ∷ rest)),
          scan_digits-print n c rest e,
        )
        (ground arith)

  scan_magnitude_minus :
      (n c : ℕ) (rest : Bytes)
      → is_digit b c ≡ false
      → scan_magnitude b true (print_nat b n ++ c ∷ rest) ≡ some (truncate32 true n, c ∷ rest)
  scan_magnitude_minus n c rest e =
      rw (scan_magnitude-Starts true _ (Starts-print n (c ∷ rest)), scan_digits-print n c rest e)

-- `%i` read by `%u`: also a value whose upper bit is set comes back, through its negative print.
pub scan_unsigned-print_int :
    (w c : ℕ) (rest : Bytes)
    → is_digit 10 c ≡ false
    → w < 2 ^ 32
    → scan_unsigned 10 (print_int w ++ c ∷ rest) ≡ some (w, c ∷ rest)
unfolding print_int scan_unsigned scan_signed truncate32
scan_unsigned-print_int w c rest e h = elim (Bool-cases (ltb w (2 ^ 31))) [
  | inl low ↦ rw low (scan_unsigned-print 10 (omega arith) (omega arith) w c rest e (omega arith))
  | inr high ↦
      rw (high, scan_magnitude_minus 10 (omega arith) (omega arith) (2 ^ 32 - w) c rest e)
        (ground arith)
]

scan_digits-pad : (b k : ℕ) (s : Bytes) → 1 < b → scan_digits b (pad k s) 0 ≡ scan_digits b s 0
unfolding scan_digits pad
scan_digits-pad b zero s h = refl
scan_digits-pad b (suc k) s h = ground (arith, scan_digits-pad b k s)

pad-append : (k : ℕ) (s t : Bytes) → pad k s ++ t ≡ pad k (s ++ t)
unfolding pad
pad-append zero s t = refl
pad-append (suc k) s t = ap (◌∷◌ b'0') (pad-append k s t)

Starts-pad : (k : ℕ) (s : Bytes) → Starts 8 s → Starts 8 (pad k s)
unfolding pad
Starts-pad zero s h = h
Starts-pad (suc k) s h = ground arith

-- `%04o` read by `%o`.
pub scan_unsigned-print_octal4 :
    (w c : ℕ) (rest : Bytes)
    → is_digit 8 c ≡ false
    → w < 2 ^ 32
    → scan_unsigned 8 (print_octal4 w ++ c ∷ rest) ≡ some (w, c ∷ rest)
unfolding print_octal4 truncate32
scan_unsigned-print_octal4 w c rest e h =
    let s = print_nat 8 w in
    let k = 4 - length s in
    rw
      (
        pad-append k s (c ∷ rest),
        scan_unsigned-Starts 8 (omega arith) (omega arith) _ (Starts-pad k _ (start s refl)),
        scan_magnitude-Starts 8 (omega arith) (omega arith) false _ (Starts-pad k _ (start s refl)),
        scan_digits-pad 8 k (s ++ c ∷ rest) (omega arith),
        scan_digits-print 8 (omega arith) (omega arith) w c rest e,
      )
      (ground arith)
  where
    start : (s : Bytes) → s ≡ print_nat 8 w → Starts 8 (s ++ c ∷ rest)
    start s q = rw q (Starts-print 8 (omega arith) (omega arith) w (c ∷ rest))

-- Printed numbers hold digits and minus signs only, so no byte below the minus sign.
abbrev pub IsPrinted : Bytes → Type 0
IsPrinted = All (λ c. b'-' ≤ c)

emit-IsPrinted : (b k n : ℕ) (out : Bytes) → IsPrinted out → IsPrinted (emit b k n out)
unfolding emit
emit-IsPrinted b zero n out h = h
emit-IsPrinted b (suc k) n out h = elim (Bool-cases (n == 0)) [
  | inl e ↦ rw (e, emit) h
  | inr e ↦ rw (e, emit) (emit-IsPrinted b k (n / b) _ (omega arith, h))
]

print_nat-IsPrinted : (b n : ℕ) → IsPrinted (print_nat b n)
unfolding print_nat
print_nat-IsPrinted b n = elim (Bool-cases (n == 0)) [
  | inl e ↦ rw (e, print_nat) (omega arith)
  | inr e ↦ rw (e, print_nat) (emit-IsPrinted b n n [] tt)
]

pub print_int-IsPrinted : (w : ℕ) → IsPrinted (print_int w)
unfolding print_int
print_int-IsPrinted w = elim (Bool-cases (ltb w (2 ^ 31))) [
  | inl e ↦ rw (e, print_int) (print_nat-IsPrinted 10 w)
  | inr e ↦ rw (e, print_int) (omega arith, print_nat-IsPrinted 10 (2 ^ 32 - w))
]

pad-IsPrinted : (k : ℕ) (s : Bytes) → IsPrinted s → IsPrinted (pad k s)
unfolding pad
pad-IsPrinted zero s h = h
pad-IsPrinted (suc k) s h = (omega arith, pad-IsPrinted k s h)

pub print_octal4-IsPrinted : (w : ℕ) → IsPrinted (print_octal4 w)
unfolding print_octal4
print_octal4-IsPrinted w = pad-IsPrinted _ (print_nat 8 w) (print_nat-IsPrinted 8 w)
