-- ===== src/Copyfs/Tests/Helper.antt =====
-- Strings, path names and lines.
use reproduction.Base.{
  ◌%◌, ◌^◌, ℕ, ◌+◌, ◌≡◌, refl, ◌⊎◌, [], ◌∷◌, ◌++◌, none, some, false, arith, length,
}
use reproduction.Base.Text.{Bytes, codes}
use reproduction.Libc.Stream.{newline}
use reproduction.Copyfs.Helper.ReadLine.{read_line, read_line_lem}
use reproduction.Copyfs.Helper.Split.{split_to_array, count_elements, words}
use reproduction.Copyfs.Helper.Split.Words.{split_to_array-words}
use reproduction.Copyfs.Helper.Composite.{string, build_composite, composite_length, composite_text}
use reproduction.Copyfs.Helper.Composite.Fit.{build_composite_fits}

split_run : split_to_array (codes "//a/bc/") b'/' ≡ codes "a" ∷ codes "bc" ∷ []
unfolding split_to_array
split_run = refl

split_to_array-words_example :
    (split_to_array (codes "//a/bc/") b'/' ≡ words b'/' (codes "//a/bc/"))
    × (count_elements b'/' none (codes "//a/bc/") 0
        ≡ length (split_to_array (codes "//a/bc/") b'/'))
split_to_array-words_example = split_to_array-words (codes "//a/bc/") b'/'

-- Fresh memory full of newlines.
abbrev newlines : ℕ → ℕ
newlines i = newline

read_line_lem_example :
    read_line newlines (record { unread = codes "ab" ++ newline ∷ codes "c"; at_eof = false })
    ≡ (some (codes "ab"), record { unread = codes "c"; at_eof = false })
read_line_lem_example =
    read_line_lem newlines (codes "ab") (codes "c") false (omega arith) (omega arith) (omega arith)

build_composite_fits_example :
    ((build_composite (codes "SS") (codes "/") (string (codes "a") ∷ string (codes "b") ∷ [])
        ≡ none)
      × (composite_length (codes "SS") (codes "/") (string (codes "a") ∷ string (codes "b") ∷ [])
          ≡ none))
    ⊎ ((s : Bytes) × (build_composite
            (codes "SS")
            (codes "/")
            (string (codes "a") ∷ string (codes "b") ∷ [])
          ≡ some (s, (length s + 1) % 2 ^ 32))
        × (composite_text (codes "SS") (codes "/") (string (codes "a") ∷ string (codes "b") ∷ []) []
            ≡ some s))
build_composite_fits_example =
    build_composite_fits (codes "SS") (codes "/") (string (codes "a") ∷ string (codes "b") ∷ [])
