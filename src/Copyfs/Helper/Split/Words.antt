-- ===== src/Copyfs/Helper/Split/Words.antt =====
-- `helper_split_to_array` stores the maximal runs, and as many as its first loop counted.
use mathlib.Core.List.{append-nil, append_assoc, cons-ne-nil}
use reproduction.Base.{
  ℕ, ◌+◌, ◌-◌, ◌≡◌, refl, sym, ◌≢◌, ◌∙◌, ap, List, [], ◌∷◌, ◌++◌, Option, none, some, Bool, true,
  false, ◌==◌, if◌then◌else◌, length, arith, All, All-append, Bool-cases, inl, inr, take-append,
  drop-append, length-append,
}
use reproduction.Base.Text.{Bytes, Lacks}
use reproduction.Copyfs.Helper.Split.{
  count_elements, element, store_elements, split_to_array, words_from, words,
}

abbrev is_nil : Bytes → Bool
is_nil [] = true
is_nil (c ∷ s) = false

-- `start` as the loop has it while `word` is the run so far.
abbrev start_of : Bytes → ℕ → Option ℕ
start_of [] start = none
start_of (w ∷ word) start = some start

element_lem :
    (string pre word s : Bytes)
    → string ≡ pre ++ (word ++ s)
    → element string (length pre) (length pre + length word) ≡ word
element_lem string pre word s e =
    let k : length pre + length word - length pre ≡ length word = omega arith in
    rw (e, k, drop-append pre (word ++ s)) (take-append word s)

regroup : (pre run s : Bytes) (c : ℕ) → pre ++ (run ++ c ∷ s) ≡ (pre ++ (run ++ c ∷ [])) ++ s
regroup pre run s c =
    sym (append_assoc pre (run ++ c ∷ []) s ∙ ap (◌++◌ pre) (append_assoc run (c ∷ []) s))

-- At every point of the second loop: `pre` is done, `word` is the run so far, `s` is to come.
store_elements-words :
    (separator : ℕ) (string pre word s : Bytes) (i : ℕ)
    → string ≡ pre ++ (word ++ s)
    → i ≡ length pre + length word
    → store_elements separator string i (start_of word (length pre)) s ≡ words_from separator word s
unfolding store_elements words_from
store_elements-words separator string pre [] [] i e k = refl
store_elements-words separator string pre (w ∷ word) [] i e k =
    rw k (ap (λ (x : Bytes). x ∷ []) (element_lem string pre (w ∷ word) [] e))
store_elements-words separator string pre [] (c ∷ s) i e k = ground (
  arith,
  store_elements-words separator string (pre ++ c ∷ []) [] s (i + 1)
      (e ∙ sym (append_assoc pre (c ∷ []) s)) (omega (arith, length-append pre (c ∷ []))),
  store_elements-words separator string pre (c ∷ []) s (i + 1) e (omega arith),
  k,
)
store_elements-words separator string pre (w ∷ word) (c ∷ s) i e k =
    let run = w ∷ word in
    ground (
      arith,
      store_elements-words separator string (pre ++ (run ++ c ∷ [])) [] s (i + 1)
          (e ∙ regroup pre run s c)
          (omega (arith, length-append pre (run ++ c ∷ []), length-append run (c ∷ []))),
      store_elements-words separator string pre (run ++ c ∷ []) s (i + 1)
          (e ∙ ap (◌++◌ pre) (sym (append_assoc run (c ∷ []) s)))
          (omega (arith, length-append run (c ∷ []))),
      element_lem string pre run (c ∷ s) e,
      k,
    )

-- Of a run and the text behind it the loop keeps no more than one run in hand.
count_elements-words :
    (separator p : ℕ) (word s : Bytes) (n : ℕ)
    → (p == separator) ≡ is_nil word
    → count_elements separator (some p) s n + (if is_nil word then 0 else 1)
      ≡ n + length (words_from separator word s)
unfolding count_elements words_from
count_elements-words separator p [] [] n h = omega arith
count_elements-words separator p (w ∷ word) [] n h = omega arith
count_elements-words separator p [] (c ∷ s) n h = ground (
  arith,
  count_elements-words separator c [] s n,
  count_elements-words separator c (c ∷ []) s (n + 1),
)
count_elements-words separator p (w ∷ word) (c ∷ s) n h = ground (
  arith,
  count_elements-words separator c [] s n,
  count_elements-words separator c (w ∷ (word ++ c ∷ [])) s n,
)

count_elements-none :
    (separator : ℕ) (s : Bytes) → count_elements separator none s 0 ≡ length (words separator s)
unfolding count_elements words_from
count_elements-none separator [] = refl
count_elements-none separator (c ∷ s) =
    ground (
      arith,
      count_elements-words separator c [] s 0,
      count_elements-words separator c (c ∷ []) s 1,
    )

stored_or_empty :
    (n : ℕ) (xs ys : List Bytes) → n ≡ length xs → ys ≡ xs → (if n == 0 then [] else ys) ≡ xs
stored_or_empty n [] ys h e = ground arith
stored_or_empty n (x ∷ xs) ys h e = ground arith

-- The array holds exactly the maximal runs of bytes other than the separator, in order, and the
-- first loop counts just as many, so that the stores of the second fill the array that was
-- allocated and never pass its end.
pub split_to_array-words :
    (string : Bytes) (separator : ℕ)
    → (split_to_array string separator ≡ words separator string)
      × (count_elements separator none string 0 ≡ length (split_to_array string separator))
unfolding split_to_array
split_to_array-words string separator =
    let counted = count_elements-none separator string in
    let same =
      stored_or_empty _ (words separator string) _ counted
        (store_elements-words separator string [] [] string 0 refl refl) in
    (same, counted ∙ ap length (sym same))

words_from-Lacks :
    (separator : ℕ) (word s : Bytes)
    → Lacks separator word
    → All (λ w. Lacks separator w × (w ≢ [])) (words_from separator word s)
unfolding words_from
words_from-Lacks separator [] [] h = tt
words_from-Lacks separator (w ∷ word) [] h = ((h, cons-ne-nil w word), tt)
words_from-Lacks separator [] (c ∷ s) h = ground (
  arith,
  words_from-Lacks separator [] s tt,
  λ (n : c ≢ separator). words_from-Lacks separator (c ∷ []) s (n, tt),
)
words_from-Lacks separator (w ∷ word) (c ∷ s) h = elim (Bool-cases (c == separator)) [
  | inl q ↦ rw (q, words_from) ((h, cons-ne-nil w word), words_from-Lacks separator [] s tt)
  | inr q ↦
      rw (q, words_from)
        (words_from-Lacks separator (w ∷ (word ++ c ∷ [])) s
          (h.0, All-append (λ b. b ≢ separator) word (c ∷ []) h.1 (ground arith, tt)))
]

-- No element of the array is empty or holds the separator.
pub split_to_array-Lacks :
    (string : Bytes) (separator : ℕ)
    → All (λ w. Lacks separator w × (w ≢ [])) (split_to_array string separator)
split_to_array-Lacks string separator =
    rw (split_to_array-words string separator).0 (words_from-Lacks separator [] string tt)

words_from_run :
    (separator : ℕ) (word run s : Bytes)
    → Lacks separator run
    → word ≢ []
    → words_from separator word (run ++ s) ≡ words_from separator (word ++ run) s
unfolding words_from
words_from_run separator word [] s l n = rw append-nil
words_from_run separator [] (c ∷ run) s l n = absurd (n refl)
words_from_run separator (w ∷ word) (c ∷ run) s l n = ground (
  arith,
  words_from_run separator (w ∷ (word ++ c ∷ [])) run s l.1 (cons-ne-nil w _),
  append_assoc word (c ∷ []) run,
)

-- The path that the elements spell: each behind a separator.
abbrev pub spelled : ℕ → List Bytes → Bytes
spelled separator [] = []
spelled separator (x ∷ xs) = separator ∷ (x ++ spelled separator xs)

close_run :
    (separator w : ℕ) (word : Bytes) (xs : List Bytes)
    → words_from separator (w ∷ word) (spelled separator xs)
      ≡ (w ∷ word) ∷ words separator (spelled separator xs)
unfolding words_from
close_run separator w word [] = refl
close_run separator w word (x ∷ xs) = ground arith

-- A separator in front makes no difference.
pub words-separator :
    (separator : ℕ) (s : Bytes) → words separator (separator ∷ s) ≡ words separator s
unfolding words_from
words-separator separator s = ground arith

words-spelled :
    (separator : ℕ) (xs : List Bytes)
    → All (λ w. Lacks separator w × (w ≢ [])) xs
    → words separator (spelled separator xs) ≡ xs
unfolding words_from
words-spelled separator [] h = refl
words-spelled separator ([] ∷ xs) h = absurd (h.0.1 refl)
words-spelled separator ((c ∷ x) ∷ xs) h = ground (
  arith,
  words_from_run separator (c ∷ []) x (spelled separator xs) h.0.0.1 (cons-ne-nil c []),
  close_run separator c x xs,
  words-spelled separator xs h.1,
)

-- Splitting a path that is spelled from elements, none of them empty or holding the separator,
-- gives the elements back.
pub split_to_array-spelled :
    (separator : ℕ) (xs : List Bytes)
    → All (λ w. Lacks separator w × (w ≢ [])) xs
    → split_to_array (spelled separator xs) separator ≡ xs
split_to_array-spelled separator xs h =
    (split_to_array-words (spelled separator xs) separator).0 ∙ words-spelled separator xs h
