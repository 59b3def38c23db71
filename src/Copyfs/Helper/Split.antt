-- ===== src/Copyfs/Helper/Split.antt =====
-- `helper_split_to_array` and `helper_array_has_prefix`. The first loop counts the elements to size
-- the array; the second stores them. Lengths stay below 2^31, so `i`, `start` and `count` do not
-- wrap.
pub mod Words
use reproduction.Base.{
  ℕ, zero, suc, ◌+◌, ◌-◌, ◌≡◌, refl, ◌≤◌, List, [], ◌∷◌, ◌++◌, Option, none, some, Bool, true,
  false, not, ◌&&◌, ◌==◌, if◌then◌else◌, length, take, drop, arith,
}
use reproduction.Base.Text.{Bytes, Lacks, str_eq}

-- `for (i = 0, count = 0; string[i]; i++)`; `previous` is `string[i - 1]`, `none` at `i == 0`.
unfoldable pub count_elements : ℕ → Option ℕ → Bytes → ℕ → ℕ
count_elements separator previous [] count = count
count_elements separator none (c ∷ s) count =
    count_elements separator (some c) s (if not (c == separator) then count + 1 else count)
count_elements separator (some p) (c ∷ s) count =
    count_elements separator (some c) s
      (if p == separator && not (c == separator) then count + 1 else count)

-- The element that `memcpy` copies out of `string`, from `start` up to `i`.
abbrev pub element : Bytes → ℕ → ℕ → Bytes
element string start i = take (i - start) (drop start string)

-- `for (count = 0, start = -1, i = 0; !i || string[i - 1]; i++)`; the rest of the string from `i`
-- on is the last argument, its end the NUL that the loop takes for a separator.
unfoldable pub store_elements : ℕ → Bytes → ℕ → Option ℕ → Bytes → List Bytes
store_elements separator string i none [] = []
store_elements separator string i (some start) [] = element string start i ∷ []
store_elements separator string i none (c ∷ s) =
    store_elements separator string (i + 1) (if c == separator then none else some i) s
store_elements separator string i (some start) (c ∷ s) =
    let close = element string start i ∷ store_elements separator string (i + 1) none s in
    let go_on = store_elements separator string (i + 1) (some start) s in
    if c == separator then close else go_on

unfoldable pub split_to_array : Bytes → ℕ → List Bytes
unfolding count_elements store_elements
split_to_array string separator =
    let stored = store_elements separator string 0 none string in
    if count_elements separator none string 0 == 0 then [] else stored

-- `for (i = 0; longest[i] && shortest[i]; i++) …`, and the `return` behind it.
unfoldable pub array_has_prefix : List Bytes → List Bytes → Bool
array_has_prefix longest [] = true
array_has_prefix [] (s ∷ shortest) = false
array_has_prefix (l ∷ longest) (s ∷ shortest) =
    if not (str_eq l s) then false else array_has_prefix longest shortest

-- The independent description: the maximal runs of other bytes, `word` being the run so far.
pub words_from : ℕ → Bytes → Bytes → List Bytes
words_from separator [] [] = []
words_from separator (w ∷ word) [] = (w ∷ word) ∷ []
words_from separator [] (c ∷ s) = words_from separator (if c == separator then [] else c ∷ []) s
words_from separator (w ∷ word) (c ∷ s) =
    let close = (w ∷ word) ∷ words_from separator [] s in
    let go_on = words_from separator (w ∷ (word ++ c ∷ [])) s in
    if c == separator then close else go_on

abbrev pub words : ℕ → Bytes → List Bytes
words separator = words_from separator []
