-- ===== src/Copyfs/Helper/ReadLine/Progress.antt =====
-- Every line that is read takes bytes from the stream or meets its end.
use reproduction.Base.{
  ℕ, zero, suc, ◌+◌, ◌-◌, ◌≡◌, refl, ◌≤◌, ◌<◌, ◌⊎◌, inl, inr, [], ◌∷◌, ◌++◌, true, false, length,
  arith, Bool-cases, Option-cases, subst⁻¹,
}
use reproduction.Base.Text.{Bytes}
use reproduction.Libc.Stream.{Stream, read_chunk, fgets}
use reproduction.Copyfs.Helper.ReadLine.{
  read_line_loop, read_line, line_buffer_step, has_newline, stale_newline,
}

-- The end was met, or there is less to read.
abbrev pub IsFurther : Stream → Stream → Type 0
IsFurther fh fh' = (fh'.at_eof ≡ true) ⊎ (length fh'.unread < length fh.unread)

-- The end that was met stays met, and no byte comes back.
abbrev pub IsLater : Stream → Stream → Type 0
IsLater fh fh' =
    ((fh.at_eof ≡ false) ⊎ (fh'.at_eof ≡ true)) × (length fh'.unread ≤ length fh.unread)

read_chunk_le : (m : ℕ) (s : Bytes) → length (read_chunk m s).left ≤ length s
unfolding read_chunk
read_chunk_le zero s = omega arith
read_chunk_le (suc m) [] = omega arith
read_chunk_le (suc m) (c ∷ s) = ground (arith, read_chunk_le m s)

read_chunk_takes :
    (m : ℕ) (s : Bytes)
    → ((read_chunk (suc m) s).met_end ≡ true) ⊎ (length (read_chunk (suc m) s).left < length s)
unfolding read_chunk
read_chunk_takes m [] = inl refl
read_chunk_takes m (c ∷ s) = ground (arith, read_chunk_le m s)

fgets-IsLater : (n : ℕ) (fh : Stream) → IsLater fh (fgets n fh).1
unfolding fgets
fgets-IsLater n fh = ground (arith, read_chunk_le (n - 1) fh.unread)

fgets-IsFurther : (n : ℕ) (fh : Stream) → IsFurther fh (fgets (suc (suc n)) fh).1
unfolding fgets
fgets-IsFurther n fh =
    let k : suc (suc n) - 1 ≡ suc n = omega arith in ground (arith, k, read_chunk_takes n fh.unread)

IsLater-trans : (a b c : Stream) → IsLater a b → IsLater b c → IsLater a c
IsLater-trans a b c h k = ground arith

IsFurther-trans : (a b c : Stream) → IsFurther a b → IsLater b c → IsFurther a c
IsFurther-trans a b c h k = ground arith

-- A round leaves the stream where `fgets` left it, or goes on from there.
round_ends :
    (stale : ℕ → ℕ) (fuel : ℕ) (buffer : Bytes) (pos size : ℕ) (fh : Stream)
    → ((read_line_loop stale (suc fuel) buffer pos size fh).1 ≡ (fgets (size - pos) fh).1)
      ⊎ ((s : Bytes) × ((read_line_loop stale (suc fuel) buffer pos size fh).1
            ≡ (read_line_loop stale fuel
                (buffer ++ s)
                (size - 1)
                (size + line_buffer_step)
                (fgets (size - pos) fh).1).1))
unfolding read_line_loop
round_ends stale fuel buffer pos size fh = elim (Option-cases (fgets (size - pos) fh).0) [
  | inl e ↦ inl (ground (arith, e))
  | inr (s, e) ↦ elim (Bool-cases (has_newline s)) [
    | inl n ↦ inl (ground (arith, e, n))
    | inr n ↦
        let first = pos + length s + 1 in
        elim (Bool-cases (stale_newline stale first (size - first))) [
          | inl o ↦ inl (ground (arith, e, n, o))
          | inr o ↦ inr (s, ground (arith, e, n, o))
        ]
  ]
]

read_line_loop-IsLater :
    (stale : ℕ → ℕ) (fuel : ℕ) (buffer : Bytes) (pos size : ℕ) (fh : Stream)
    → IsLater fh (read_line_loop stale fuel buffer pos size fh).1
unfolding read_line_loop
read_line_loop-IsLater stale zero buffer pos size fh = ground arith
read_line_loop-IsLater stale (suc fuel) buffer pos size fh =
    let fh' = (fgets (size - pos) fh).1 in
    let later = fgets-IsLater (size - pos) fh in
    elim (round_ends stale fuel buffer pos size fh) [
      | inl e ↦ subst⁻¹ (IsLater fh) e later
      | inr (s, e) ↦ subst⁻¹ (IsLater fh) e (
          IsLater-trans fh fh'
            (read_line_loop stale fuel (buffer ++ s) (size - 1) (size + line_buffer_step) fh').1
            later
            (read_line_loop-IsLater stale fuel (buffer ++ s) (size - 1) (size + line_buffer_step)
              fh'))
    ]

-- Reading a line meets the end of the file or takes bytes, whatever the file and fresh memory hold.
pub read_line-IsFurther : (stale : ℕ → ℕ) (fh : Stream) → IsFurther fh (read_line stale fh).1
unfolding read_line
read_line-IsFurther stale fh =
    let fuel = length fh.unread in
    let fh' = (fgets 1024 fh).1 in
    let further = fgets-IsFurther 1022 fh in
    let one : (fuel + 1) ≡ suc fuel = omega arith in
    let at_start = λ (n : ℕ). IsFurther fh (read_line_loop stale n [] 0 line_buffer_step fh).1 in
    subst⁻¹ at_start one (elim (round_ends stale fuel [] 0 line_buffer_step fh) [
      | inl e ↦ subst⁻¹ (IsFurther fh) e further
      | inr (s, e) ↦ subst⁻¹ (IsFurther fh) e (
          IsFurther-trans fh fh' (read_line_loop stale fuel s 1023 2048 fh').1 further
            (read_line_loop-IsLater stale fuel s 1023 2048 fh'))
    ])
