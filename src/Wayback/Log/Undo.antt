-- ===== src/Wayback/Log/Undo.antt =====
-- Reverting an entry takes back the change that it was made for.
use reproduction.Base.{
  ℕ, zero, suc, ◌+◌, ◌-◌, ◌%◌, ◌^◌, ◌<◌, ◌≡◌, ◌⊎◌, refl, ap, sym, ◌∙◌, inl, inr, [], ◌∷◌, ◌++◌,
  Bool, true, false, leb, ltb, length, drop, take, arith, length-append, take-append, drop-append,
  take-append-drop, length-take, length-take_le, take-all, drop-all, drop-drop, Bool-cases,
}
use mathlib.Core.List.{append_assoc, append-nil}
use reproduction.Base.Text.{Bytes}
use reproduction.Libc.Os.Access.{overwritten, resized, zeros}
use reproduction.Wayback.Log.Entry.{Entry, entry_for, revert}

length-zeros : (n : ℕ) → length (zeros n) ≡ n
length-zeros zero = refl
length-zeros (suc n) = omega (arith, length-zeros n)

length-resized : (n : ℕ) (s : Bytes) → length (resized n s) ≡ n
length-resized n s = ground (
  arith,
  length-append (take n s) (zeros (n - length s)),
  length-zeros (n - length s),
  length-take n s,
)

-- What fills up to `n` bytes, and what stands behind them.
resized-drop : (n : ℕ) (s : Bytes) → resized n s ++ drop n s ≡ s ++ zeros (n - length s)
resized-drop n s = elim (Bool-cases (leb n (length s))) [
  | inl e ↦
      let z : n - length s ≡ 0 = ground (arith, e) in
      rw (z, zeros, append-nil, append-nil) (take-append-drop n s)
  | inr e ↦ rw (take-all n s (ground (arith, e)), drop-all n s (ground (arith, e)), append-nil)
]

resized-append : (n : ℕ) (p z : Bytes) → length p ≡ n → resized n (p ++ z) ≡ p
resized-append n p z h =
    let e : n - length (p ++ z) ≡ 0 = omega (arith, length-append p z) in
    rw (e, zeros, append-nil, ← h) (take-append p z)

-- A write at the end of a prefix.
overwritten-append :
    (n : ℕ) (p x a : Bytes)
    → length p ≡ n
    → overwritten n a (p ++ x) ≡ p ++ (a ++ drop (length a) x)
overwritten-append n p [] [] h = refl
overwritten-append n p (y ∷ x) [] h = refl
overwritten-append n p x (b ∷ a) h =
    let k = length (b ∷ a) in
    let behind : drop (n + k) (p ++ x) ≡ drop k x =
      sym (drop-drop n k (p ++ x))
      ∙ ap (drop k) (ap (λ m. drop m (p ++ x)) (sym h) ∙ drop-append p x) in
    ap (λ q. q ++ ((b ∷ a) ++ drop (n + k) (p ++ x))) (resized-append n p x h)
    ∙ ap (λ q. p ++ ((b ∷ a) ++ q)) behind

-- Saved bytes that are written back behind the prefix, and then the end of the file.
ended :
    (n : ℕ) (p m z : Bytes)
    → length p ≡ n
    → resized (n + length m) (overwritten n m (p ++ z)) ≡ p ++ m
ended n p m z h =
    ap (resized (n + length m))
      (overwritten-append n p z m h ∙ sym (append_assoc p m (drop (length m) z)))
    ∙ resized-append (n + length m) (p ++ m) (drop (length m) z) (omega (arith, length-append p m))

abbrev entry : ℕ → ℕ → Bytes → Bool → Entry
entry time offset saved to_end = record {
  time = time;
  offset = offset;
  saved = saved;
  to_end = to_end;
}

-- An entry that cuts the file has an offset of 32 bits.
abbrev pub Cuts : ℕ → Bool → Type 0
Cuts offset to_end = (to_end ≡ false) ⊎ (offset < 2 ^ 32)

mod-small : (n : ℕ) → n < 2 ^ 32 → n % 2 ^ 32 ≡ n
mod-small n h = omega (arith, h)

low_lem : (n : ℕ) (b : Bool) → Cuts n b → b ≡ true → n % 2 ^ 32 ≡ n
low_lem n b (inl e) t = ground (arith, e, t)
low_lem n b (inr h) t = mod-small n h

-- Reverting the entry that was made for a write of at least one byte, on the file behind the write,
-- gives the file before it, with zeros up to the offset if the write began behind its end. The write
-- does not reach behind the end of the file, or its offset is less than 2 ^ 32.
pub revert-write :
    (time offset : ℕ) (b : ℕ) (buf s : Bytes)
    → Cuts offset ((entry_for time false offset (length (b ∷ buf)) s).to_end)
    → revert (entry_for time false offset (length (b ∷ buf)) s) (overwritten offset (b ∷ buf) s)
      ≡ s ++ zeros (offset - length s)
unfolding revert
revert-write time offset b buf s low =
    let p = resized offset s in
    let m = drop offset s in
    let k = length (b ∷ buf) in
    let p_is = length-resized offset s in
    let there : overwritten offset (b ∷ buf) s ≡ p ++ ((b ∷ buf) ++ drop k m) =
      ap (λ q. p ++ ((b ∷ buf) ++ q)) (sym (drop-drop offset k s)) in
    ap (revert (entry_for time false offset k s)) there
    ∙ elim (Bool-cases (ltb (length m) k)) [
      | inl e ↦
          let all : take k m ≡ m = take-all k m (ground (arith, e)) in
          ap (λ t. revert (entry time offset (take k m) t) (p ++ ((b ∷ buf) ++ drop k m))) e
          ∙ ap (λ a. revert (entry time offset a true) (p ++ ((b ∷ buf) ++ drop k m))) all
          ∙ ap (λ o. resized (o + length m) (overwritten offset m (p ++ ((b ∷ buf) ++ drop k m))))
              (low_lem offset (ltb (length m) k) low e)
          ∙ ended offset p m ((b ∷ buf) ++ drop k m) p_is
      | inr e ↦
          let some_of : length (take k m) ≡ k = length-take_le k m (ground (arith, e)) in
          ap (λ t. revert (entry time offset (take k m) t) (p ++ ((b ∷ buf) ++ drop k m))) e
          ∙ overwritten-append offset p ((b ∷ buf) ++ drop k m) (take k m) p_is
          ∙ ap (λ j. p ++ (take k m ++ drop j ((b ∷ buf) ++ drop k m))) some_of
          ∙ ap (λ q. p ++ (take k m ++ q)) (drop-append (b ∷ buf) (drop k m))
          ∙ ap (λ q. p ++ q) (take-append-drop k m)
    ]
    ∙ resized-drop offset s

-- Reverting the entry that was made for a truncation to `offset` bytes, on the file behind it, gives
-- the file before it, with zeros up to the offset if the truncation made the file longer. The offset
-- is less than 2 ^ 32.
pub revert-truncate :
    (time offset size : ℕ) (s : Bytes)
    → offset < 2 ^ 32
    → revert (entry_for time true offset size s) (resized offset s) ≡ s ++ zeros (offset - length s)
unfolding revert
revert-truncate time offset size s low =
    let p = resized offset s in
    let m = drop offset s in
    ap (revert (entry time offset m true)) (sym (append-nil p))
    ∙ ap (λ o. resized (o + length m) (overwritten offset m (p ++ []))) (mod-small offset low)
    ∙ ended offset p m [] (length-resized offset s)
    ∙ resized-drop offset s
