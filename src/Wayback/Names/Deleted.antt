-- ===== src/Wayback/Names/Deleted.antt =====
-- `matchesdeleted`, which looks at the last place of the needle alone, against a search over all
-- places.
use reproduction.Base.{
  ℕ, zero, suc, ◌+◌, ◌<◌, ◌≡◌, refl, ap, sym, ◌∙◌, inl, inr, [], ◌∷◌, ◌++◌, Option, none, some,
  Bool, true, false, ◌||◌, length, drop, arith, drop-drop, Option-cases,
}
use reproduction.Base.Text.{Bytes}
use reproduction.Libc.Text.{strip_prefix, strip_prefix-append}
use reproduction.Wayback.Names.{strstr, last_place, all_digits, matchesdeleted}

-- The text begins with the needle, and digits only stand behind it.
unfoldable pub digits_behind : Bytes → Bytes → Bool
unfolding strip_prefix all_digits
digits_behind needle s = elim (strip_prefix needle s) [
  | none ↦ false
  | some behind ↦ all_digits behind
]

-- The same at some place of the text.
unfoldable pub anywhere : Bytes → Bytes → Bool
unfolding digits_behind
anywhere needle [] = false
anywhere needle (c ∷ s) = digits_behind needle (c ∷ s) || anywhere needle s

abbrev verdict : Option Bytes → Bool
verdict none = false
verdict (some behind) = all_digits behind

strip_prefix-drop :
    (needle s behind : Bytes)
    → strip_prefix needle s ≡ some behind
    → behind ≡ drop (length needle) s
unfolding strip_prefix
strip_prefix-drop [] s behind h = ground (arith, h)
strip_prefix-drop (p ∷ needle) [] behind h = cc
strip_prefix-drop (p ∷ needle) (c ∷ s) behind h =
    ground (arith, h, strip_prefix-drop needle s behind)

strstr-none : (needle s : Bytes) → strstr needle s ≡ none → anywhere needle s ≡ false
unfolding strstr anywhere digits_behind
strstr-none needle [] h = refl
strstr-none needle (c ∷ s) h = elim (Option-cases (strip_prefix needle (c ∷ s))) [
  | inl e ↦ ground (arith, e, h, strstr-none needle s)
  | inr (b, e) ↦ ground (arith, e, h)
]

-- The first place: how far in it is, and that no place in front of it is left out.
strstr-some :
    (needle s behind next : Bytes)
    → strstr needle s ≡ some (behind, next)
    → (p : ℕ) × (next ≡ drop (suc p) s)
      × (behind ≡ drop (p + length needle) s)
      × (length next < length s)
      × (anywhere needle s ≡ (all_digits behind || anywhere needle next))
unfolding strstr anywhere digits_behind
strstr-some needle [] behind next h = cc
strstr-some needle (c ∷ s) behind next h = elim (Option-cases (strip_prefix needle (c ∷ s))) [
  | inl e ↦
      let (p, n, b, l, a) = strstr-some needle s behind next (ground (arith, e, h)) in
      let k : suc (p + length needle) ≡ suc p + length needle = omega arith in
      (suc p, n, b ∙ ap (λ j. drop j (c ∷ s)) k, omega (arith, l), ground (arith, e, a))
  | inr (b, e) ↦
      let z : length needle ≡ 0 + length needle = omega arith in
      let first : (b ≡ behind) × (s ≡ next) = ground (arith, e, h) in
      (
        0,
        sym (first.1),
        sym (first.0) ∙ strip_prefix-drop needle (c ∷ s) b e ∙ ap (λ j. drop j (c ∷ s)) z,
        ground (arith, first),
        ground (arith, e, first),
      )
]

all_digits-drop : (n : ℕ) (s : Bytes) → all_digits s ≡ true → all_digits (drop n s) ≡ true
unfolding all_digits
all_digits-drop zero s h = h
all_digits-drop (suc n) [] h = refl
all_digits-drop (suc n) (c ∷ s) h = all_digits-drop n s (ground (arith, h))

-- What the loop has found so far: nothing, or what stands behind a place one byte back.
abbrev Found : ℕ → Bytes → Option Bytes → Type 0
Found m s none = Unit
Found m s (some behind) = behind ≡ drop m s

module _ (d : ℕ) (needle : Bytes) where
  abbrev whole : Bytes
  whole = d ∷ needle

  -- A later place has digits behind it if an earlier one has.
  later_digits :
      (s : Bytes) (cursubstr : Option Bytes) (behind : Bytes) (p : ℕ)
      → Found (length needle) s cursubstr
      → behind ≡ drop (p + length whole) s
      → verdict cursubstr ≡ true
      → all_digits behind ≡ true
  later_digits s none behind p f b v = cc
  later_digits s (some found) behind p f b v =
      let k : p + length whole ≡ length needle + suc p = omega arith in
      let at : drop (suc p) found ≡ behind =
        ap (drop (suc p)) f
        ∙ drop-drop (length needle) (suc p) s
        ∙ ap (λ j. drop j s) (sym k)
        ∙ sym b in
      ap all_digits (sym at) ∙ all_digits-drop (suc p) found v

  last_place-anywhere :
      (fuel : ℕ) (s : Bytes) (cursubstr : Option Bytes)
      → length s < fuel
      → Found (length needle) s cursubstr
      → (r : Option Bytes) × (last_place fuel whole s cursubstr ≡ some r)
        × (verdict r ≡ (anywhere whole s || verdict cursubstr))
  unfolding last_place
  last_place-anywhere zero s cursubstr l f = absurd (omega arith)
  last_place-anywhere (suc fuel) s cursubstr l f = elim (Option-cases (strstr whole s)) [
    | inl e ↦ (cursubstr, ground (arith, e), ground (arith, strstr-none whole s e))
    | inr ((behind, next), e) ↦
        let (p, n, b, shorter, a) = strstr-some whole s behind next e in
        let k : p + length whole ≡ suc p + length needle = omega arith in
        let found : behind ≡ drop (length needle) next =
          b
          ∙ ap (λ j. drop j s) k
          ∙ sym (drop-drop (suc p) (length needle) s)
          ∙ ap (drop (length needle)) (sym n) in
        let (r, done, v) =
          last_place-anywhere fuel next (some behind) (omega (arith, shorter, l)) found in
        (r, ground (arith, e, done), ground (arith, v, a, later_digits s cursubstr behind p f b))
  ]

-- `matchesdeleted` returns on every text, and says whether at some place of it the needle stands
-- with digits only behind it, for a needle that is not empty.
pub matchesdeleted-anywhere :
    (d : ℕ) (needle s : Bytes) → matchesdeleted s (d ∷ needle) ≡ some (anywhere (d ∷ needle) s)
unfolding matchesdeleted
matchesdeleted-anywhere d needle s =
    let (r, done, v) = last_place-anywhere d needle (length s + 1) s none (omega arith) tt in
    elim (Option-cases r) [
      | inl e ↦ ground (arith, done, v, e)
      | inr (behind, e) ↦ ground (arith, done, v, e)
    ]

-- A name that is made of any text, the needle and digits is found.
pub anywhere-append :
    (needle base digits : Bytes)
    → 0 < length needle
    → all_digits digits ≡ true
    → anywhere needle (base ++ (needle ++ digits)) ≡ true
unfolding anywhere digits_behind strip_prefix
anywhere-append [] base digits h a = absurd (omega arith)
anywhere-append (d ∷ needle) [] digits h a = ground (arith, a, strip_prefix-append needle digits)
anywhere-append (d ∷ needle) (c ∷ base) digits h a =
    ground (arith, anywhere-append (d ∷ needle) base digits h a)
