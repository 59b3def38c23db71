-- ===== src/Wayback/Log/Saved.antt =====
-- What is appended to the version file when no call fails.
use reproduction.Base.{
  ℕ, zero, suc, ◌+◌, ◌-◌, ◌≤◌, ◌<◌, ◌≡◌, refl, ap, sym, ◌∙◌, [], ◌∷◌, some, Bool, true, false, not,
  ◌&&◌, leb, if◌then◌else◌, length, drop, take, arith, drop-drop, take-take, length-drop,
  length-take_le, drop-all, take-nil, inl, inr, length-take, List-cases,
}
use reproduction.Base.Text.{Bytes}
use reproduction.Libc.Os.{Os, append}
use reproduction.Libc.Os.Appended.{append-append, append-nil_lem}
use reproduction.Libc.Os.Stdio.{fwrite, pread_open}
use reproduction.Wayback.Log.{write_rounds, writebuffer, chunk, measure, save_bytes}

pub writebuffer_lem :
    (file s : Bytes) (failed : Bool) (os : Os)
    → os.faults ≡ []
    → writebuffer file s failed os ≡ some (failed, append file s os)
unfolding writebuffer write_rounds fwrite
writebuffer_lem file [] failed os h = ground (arith, append-nil_lem file os)
writebuffer_lem file (b ∷ s) failed os h = ground (arith, h, drop-all (length s) s)

-- How far a change reaches into what the file has behind the offset, and whether it meets the end.
abbrev reach : Bool → ℕ → Bytes → ℕ × Bool
reach true size rest = (length rest, true)
reach false size rest = if leb size (length rest) then (size, false) else (length rest, true)

-- A round at the end of the file, and a round that reads a piece.
measure_end :
    (fuel : ℕ) (original : Bytes) (truncate : Bool) (offset size left o : ℕ) (os : Os)
    → os.faults ≡ []
    → drop o original ≡ []
    → measure (suc fuel) original truncate offset size (suc left) o os
      ≡ some (some (o - offset, true), os)
unfolding measure pread_open
measure_end fuel original truncate offset size left o os h e =
    ground (arith, h, e, take-nil {A = ℕ} (chunk (suc left)))

measure_piece :
    (fuel : ℕ) (original : Bytes) (truncate : Bool) (offset size left o b : ℕ) (r : Bytes) (os : Os)
    → os.faults ≡ []
    → drop o original ≡ b ∷ r
    → (k : ℕ) × (1 ≤ k)
      × (k ≤ suc left)
      × (k ≤ length (b ∷ r))
      × (measure (suc fuel) original truncate offset size (suc left) o os
          ≡ measure fuel original truncate offset size
              (if truncate then suc left else suc left - k)
              (o + k)
              os)
unfolding measure pread_open
measure_piece fuel original truncate offset size left o b r os h e =
    let c = chunk (suc left) - 1 in
    let is_suc : chunk (suc left) ≡ suc c = ground arith in
    (
      suc (length (take c r)),
      omega arith,
      ground (arith, length-take c r),
      ground (arith, length-take c r),
      ground (arith, h, e, is_suc),
    )

-- With `n` bytes behind `o`, more than `n` rounds are enough.
pub measure_lem :
    (fuel : ℕ) (original : Bytes) (truncate : Bool) (offset size left o n : ℕ) (os : Os)
    → os.faults ≡ []
    → length (drop o original) ≡ n
    → n < fuel
    → (truncate ≡ true → 0 < left)
    → measure fuel original truncate offset size left o os
      ≡ some
          (some (if not truncate && leb left n then (size, false) else (o + n - offset, true)), os)
unfolding measure
measure_lem zero original truncate offset size left o n os h e l t = ground arith
measure_lem (suc fuel) original truncate offset size zero o n os h e l t = ground (arith, t)
measure_lem (suc fuel) original truncate offset size (suc left) o n os h e l t =
    elim (List-cases (drop o original)) [
      | inl z ↦ measure_end fuel original truncate offset size left o os h z ∙ ground (arith, e, z)
      | inr (b, r, z) ↦
          let (k, k₁, k₂, k₃, step) =
            measure_piece fuel original truncate offset size left o b r os h z in
          let rest : length (drop (o + k) original) ≡ n - k =
            ap length (sym (drop-drop o k original))
            ∙ length-drop k (drop o original)
            ∙ ap (λ m. m - k) e in
          let n_is : length (b ∷ r) ≡ n = ap length (sym z) ∙ e in
          step
          ∙ measure_lem fuel original truncate offset size
              (if truncate then suc left else suc left - k) (o + k) (n - k) os h rest (omega arith)
              (λ y. ground (arith, y))
          ∙ ground arith
    ]

save_piece :
    (fuel : ℕ) (original file buf : Bytes) (size offset c : ℕ) (os : Os)
    → os.faults ≡ []
    → chunk (suc size) ≡ c
    → take c (drop offset original) ≡ buf
    → length buf ≡ c
    → save_bytes (suc fuel) original file false (suc size) offset os
      ≡ save_bytes fuel original file false (suc size - c) (offset + c) (append file buf os)
unfolding save_bytes pread_open
save_piece fuel original file buf size offset c os h k e l =
    ground (arith, h, k, e, l, writebuffer_lem file buf false os h)

pub save_bytes-append :
    (fuel : ℕ) (original file : Bytes) (size offset : ℕ) (os : Os)
    → os.faults ≡ []
    → size ≤ length (drop offset original)
    → size < fuel
    → save_bytes fuel original file false size offset os
      ≡ some (tt, append file (take size (drop offset original)) os)
unfolding save_bytes
save_bytes-append zero original file size offset os h l f = ground arith
save_bytes-append (suc fuel) original file zero offset os h l f =
    ground (arith, append-nil_lem file os)
save_bytes-append (suc fuel) original file (suc size) offset os h l f =
    let rest = drop offset original in
    let c = chunk (suc size) in
    let buf = take c rest in
    let c_le : c ≤ suc size = ground arith in
    let c_pos : 1 ≤ c = ground arith in
    let c_is : length buf ≡ c = length-take_le c rest (omega arith) in
    let later : drop c rest ≡ drop (offset + c) original = drop-drop offset c original in
    let enough : suc size - c ≤ length (drop (offset + c) original) =
      omega (arith, ap length later, length-drop c rest) in
    save_piece fuel original file buf size offset c os h refl refl c_is
    ∙ save_bytes-append fuel original file (suc size - c) (offset + c) (append file buf os) h enough
        (omega arith)
    ∙ ap (λ s. some (tt, append file (take (suc size - c) s) (append file buf os))) (sym later)
    ∙ ap (λ a. some (tt, a)) (append-append file buf (take (suc size - c) (drop c rest)) os)
    ∙ ap (λ s. some (tt, append file s os)) (take-take c (suc size) rest c_le)
