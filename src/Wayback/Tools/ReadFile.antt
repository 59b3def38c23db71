-- ===== src/Wayback/Tools/ReadFile.antt =====
-- The version file that the daemon writes with 32-bit types is read back.
use mathlib.Core.List.{append_assoc}
use reproduction.Base.{
  ℕ, zero, suc, ◌+◌, ◌*◌, ◌/◌, ◌^◌, ◌≤◌, ◌<◌, ◌≡◌, refl, ap, ◌∙◌, List, [], ◌∷◌, ◌++◌, none, some,
  Bool, true, false, not, ◌==◌, length, arith, drop-append, take-append, length-append, All,
}
use reproduction.Base.Text.{Bytes}
use reproduction.Wayback.Globals.{Sizes, ilp32}
use reproduction.Wayback.Words.{
  word, read_word, read-word, read-word-narrow, narrow, narrow-Fits, Fits,
}
use reproduction.Wayback.Log.{header, flag}
use reproduction.Wayback.Log.Entry.{Entry, encode}
use reproduction.Wayback.Tools.{Header, read_header, entry_with, read_entries, readfile}

-- The numbers of the entry have room in the types.
abbrev pub FitsEntry : Sizes → Entry → Type 0
FitsEntry sizes e =
    Fits sizes.time_t e.time × Fits sizes.off_t e.offset × Fits sizes.size_t (length e.saved)

unfoldable pub encode_all : Sizes → List Entry → Bytes
unfolding encode
encode_all sizes [] = []
encode_all sizes (e ∷ es) = encode sizes e ++ encode_all sizes es

-- The high half of a number of 64 bits.
abbrev upper : ℕ → ℕ
upper n = n / 256 / 256 / 256 / 256

halves : (n : ℕ) (rest : Bytes) → word 8 n ++ rest ≡ word 4 n ++ (word 4 (upper n) ++ rest)
unfolding word
halves n rest = refl

abbrev head : ℕ → ℕ → ℕ → ℕ → Header
head time offset size trunc = record {
  time = time;
  offset = narrow 4 offset;
  moreoffset = narrow 4 (upper offset);
  size = size;
  trunc = trunc;
}

whole_lem : (n : ℕ) → Fits 8 n → narrow 4 n + 2 ^ 32 * narrow 4 (upper n) ≡ n
unfolding narrow
whole_lem n h = omega (arith, narrow-Fits 8 n h)

read_parts :
    (time offset more size trunc : ℕ) (rest : Bytes)
    → Fits 4 time
    → Fits 4 size
    → read_header
        (word 4 time ++ (word 4 offset ++ (word 4 more ++ (word 4 size ++ (trunc ∷ rest)))))
      ≡ some (
        record {
          time = time;
          offset = narrow 4 offset;
          moreoffset = narrow 4 more;
          size = size;
          trunc = trunc;
        },
        rest,
      )
unfolding read_header
read_parts time offset more size trunc rest t z = rw (
  read_header,
  read-word 4 time (word 4 offset ++ (word 4 more ++ (word 4 size ++ (trunc ∷ rest)))) t,
  read-word-narrow 4 offset (word 4 more ++ (word 4 size ++ (trunc ∷ rest))),
  read-word-narrow 4 more (word 4 size ++ (trunc ∷ rest)),
  read-word 4 size (trunc ∷ rest) z,
)

-- The fields of a header, in their order.
read_header_lem :
    (time offset size trunc : ℕ) (rest : Bytes)
    → Fits 4 time
    → Fits 4 size
    → read_header (word 4 time ++ (word 8 offset ++ (word 4 size ++ (trunc ∷ rest))))
      ≡ some (head time offset size trunc, rest)
read_header_lem time offset size trunc rest t z =
    ap (λ tail. read_header (word 4 time ++ tail)) (halves offset (word 4 size ++ (trunc ∷ rest)))
    ∙ read_parts time offset (upper offset) size trunc rest t z

encode-append :
    (e : Entry) (rest : Bytes)
    → encode ilp32 e ++ rest
      ≡ word 4 e.time
        ++ (word 8 e.offset ++ (word 4 (length e.saved) ++ (flag e.to_end ∷ (e.saved ++ rest))))
unfolding encode header
encode-append e rest = simp (append_assoc)

flag_lem : (b : Bool) → not (flag b == 0) ≡ b
flag_lem true = refl
flag_lem false = refl

-- A round of the loop behind the header.
read_entries-round :
    (fuel : ℕ) (s saved rest : Bytes) (h : Header)
    → read_header s ≡ some (h, saved ++ rest)
    → h.size ≡ length saved
    → read_entries (suc fuel) s
      ≡ elim (read_entries fuel rest) [ none ↦ none | some es ↦ some (entry_with h saved ∷ es) ]
unfolding read_entries read_header read_word
read_entries-round fuel [] saved rest h e z = ground (arith, e)
read_entries-round fuel (b ∷ s) saved rest h e z =
    ground (arith, e, z, length-append saved rest, drop-append saved rest, take-append saved rest)

entry-step :
    (fuel : ℕ) (e : Entry) (rest : Bytes)
    → FitsEntry ilp32 e
    → read_entries (suc fuel) (encode ilp32 e ++ rest)
      ≡ elim (read_entries fuel rest) [ none ↦ none | some es ↦ some (e ∷ es) ]
entry-step fuel e rest h =
    ap (read_entries (suc fuel)) (encode-append e rest)
    ∙ read_entries-round fuel
        (word 4 e.time
          ++ (word 8 e.offset ++ (word 4 (length e.saved) ++ (flag e.to_end ∷ (e.saved ++ rest)))))
        e.saved rest (head e.time e.offset (length e.saved) (flag e.to_end))
        (read_header_lem e.time e.offset (length e.saved) (flag e.to_end) (e.saved ++ rest) h.0 h.2)
        refl
    ∙ ap
        (λ b. elim (read_entries fuel rest) [
          | none ↦ none
          | some es ↦ some (
              record e {
                offset = narrow 4 e.offset + 2 ^ 32 * narrow 4 (upper e.offset);
                to_end = b;
              }
              ∷ es)
        ])
        (flag_lem e.to_end)
    ∙ ap
        (λ o. elim (read_entries fuel rest) [
          | none ↦ none
          | some es ↦ some (record e { offset = o } ∷ es)
        ])
        (whole_lem e.offset h.1)

length-encode : (e : Entry) → 1 ≤ length (encode ilp32 e)
unfolding encode header word
length-encode e = ground arith

length-encode_all : (es : List Entry) → length es ≤ length (encode_all ilp32 es)
unfolding encode_all
length-encode_all [] = ground arith
length-encode_all (e ∷ es) = omega (
  arith,
  length-append (encode ilp32 e) (encode_all ilp32 es),
  length-encode e,
  length-encode_all es,
)

read_entries_end : (fuel : ℕ) → read_entries (suc fuel) [] ≡ some []
unfolding read_entries
read_entries_end fuel = refl

read_entries-encode_all :
    (fuel : ℕ) (es : List Entry)
    → length es < fuel
    → All (FitsEntry ilp32) es
    → read_entries fuel (encode_all ilp32 es) ≡ some es
unfolding encode_all
read_entries-encode_all zero es l h = ground arith
read_entries-encode_all (suc fuel) [] l h = read_entries_end fuel
read_entries-encode_all (suc fuel) (e ∷ es) l h =
    entry-step fuel e (encode_all ilp32 es) h.0
    ∙ ap (λ r. elim r [ none ↦ none | some es' ↦ some (e ∷ es') ])
        (read_entries-encode_all fuel es (omega arith) h.1)

-- A version file that is made of entries is read back as these entries, oldest first, when their
-- numbers fit into the fields of the 32-bit format.
pub readfile-encode_all :
    (es : List Entry) → All (FitsEntry ilp32) es → readfile (encode_all ilp32 es) ≡ some es
unfolding readfile
readfile-encode_all es h =
    read_entries-encode_all (length (encode_all ilp32 es) + 1) es
      (omega (arith, length-encode_all es)) h
