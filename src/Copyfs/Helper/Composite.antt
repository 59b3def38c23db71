-- ===== src/Copyfs/Helper/Composite.antt =====
-- `helper_build_composite`: strings and string arrays joined as a format says.
pub mod Fit
use reproduction.Base.{
  ℕ, ◌+◌, List, [], ◌∷◌, ◌++◌, Option, none, some, Bool, true, false, ◌==◌, if◌then◌else◌, length,
  not, ◌%◌, ◌^◌,
}
use reproduction.Base.Text.{Bytes}

-- A variable argument: a `char *` or a `char **`.
pub data Arg : Type 0 where
  string : Bytes → Arg
  array : List Bytes → Arg

-- Whether a separator goes behind an argument: `format[i + 1] && (format[i + 1] != '-')`.
abbrev pub separates : Bytes → Bool
separates [] = false
separates (f ∷ format) = not (f == b'-')

unfoldable pub array_length : Bytes → List Bytes → ℕ
array_length separator [] = 0
array_length separator (x ∷ []) = length x
array_length separator (x ∷ y ∷ xs) = length x + length separator + array_length separator (y ∷ xs)

-- The two `strcat` of one round of the inner loop.
unfoldable pub array_text : Bytes → List Bytes → Bytes
array_text separator [] = []
array_text separator (x ∷ []) = x
array_text separator (x ∷ y ∷ xs) = x ++ (separator ++ array_text separator (y ∷ xs))

-- What `va_arg` finds for a letter of the format. `none` is an undefined call: the argument is
-- missing or of the other type.
abbrev pub take_arg : ℕ → List Arg → Option (Arg × List Arg)
take_arg f [] = none
take_arg f (string s ∷ args) = if f == b'S' then some (string s, args) else none
take_arg f (array a ∷ args) = if f == b'A' then some (array a, args) else none

abbrev pub arg_length : Bytes → Arg → ℕ
arg_length separator (string s) = length s
arg_length separator (array a) = array_length separator a

abbrev pub arg_text : Bytes → Arg → Bytes
arg_text separator (string s) = s
arg_text separator (array a) = array_text separator a

-- The first pass, under "Count chars": the bytes without the final NUL. A letter that is none of
-- the three fails the `assert`.
unfoldable pub composite_length : Bytes → Bytes → List Arg → Option ℕ
composite_length [] separator args = some 0
composite_length (f ∷ format) separator args =
    if f == b'-'
    then (elim (composite_length format separator args) [
      | none ↦ none
      | some n ↦ some (length separator + n)
    ])
    else elim (take_arg f args) [
      | none ↦ none
      | some (a, rest) ↦ elim (composite_length format separator rest) [
        | none ↦ none
        | some n ↦
            some (arg_length separator a + (if separates format then length separator else 0) + n)
      ]
    ]

-- The second pass, under "Now do it"; `result` is what stands in the buffer.
unfoldable pub composite_text : Bytes → Bytes → List Arg → Bytes → Option Bytes
composite_text [] separator args result = some result
composite_text (f ∷ format) separator args result =
    if f == b'-'
    then composite_text format separator args (result ++ separator)
    else elim (take_arg f args) [
      | none ↦ none
      | some (a, rest) ↦ composite_text format separator rest (
          if separates format
          then (result ++ arg_text separator a) ++ separator
          else result ++ arg_text separator a)
    ]

-- The string, and the bytes that were allocated for it with its NUL. `length` and the argument of
-- `malloc` are 32 bits wide and wrap around.
unfoldable pub build_composite : Bytes → Bytes → List Arg → Option (Bytes × ℕ)
build_composite format separator args = elim (composite_length format separator args) [
  | none ↦ none
  | some n ↦ elim (composite_text format separator args []) [
    | none ↦ none
    | some s ↦ some (s, (n + 1) % 2 ^ 32)
  ]
]
