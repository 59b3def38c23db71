-- ===== src/Copyfs/Helper/ReadLine.antt =====
-- `helper_read_line`: one line, read in pieces into a buffer that grows. `stale` is
-- what the fresh memory of the buffer holds at each index, which the code does not set before it
-- searches the buffer for a newline. `buffer_size` and `buffer_pos` are an `int` each: the model is that
-- of the code for lines that are shorter than 2 ^ 31 bytes by two steps of the buffer.
pub mod Progress
use reproduction.Base.{
  ℕ, zero, suc, ◌+◌, ◌-◌, ◌*◌, ◌^◌, ◌≡◌, refl, ◌<◌, [], ◌∷◌, ◌++◌, Option, none, some, Bool, true,
  false, ◌==◌, if◌then◌else◌, ◌||◌, length, take, drop, arith, length-append, take-append-drop,
  dec_lt, length-take_le, length-drop, All-take, All-drop, ◌≢◌, ◌∙◌, ap,
}
use mathlib.Core.List.{append_assoc}
use reproduction.Base.Text.{Bytes, Lacks}
use reproduction.Libc.Text.{c_string, c_string-Lacks}
use reproduction.Libc.Stream.{Stream, newline, fgets, fgets_fits, fgets_full, fgets_end}

abbrev pub line_buffer_step : ℕ
line_buffer_step = 1024

pub has_newline : Bytes → Bool
has_newline [] = false
has_newline (c ∷ s) = c == newline || has_newline s

-- The bytes in front of the first newline.
pub before_newline : Bytes → Bytes
before_newline [] = []
before_newline (c ∷ s) = let rest = c ∷ before_newline s in if c == newline then [] else rest

-- A newline among `count` indices of the fresh memory from `i` on.
pub stale_newline : (ℕ → ℕ) → ℕ → ℕ → Bool
stale_newline stale i zero = false
stale_newline stale i (suc count) = stale i == newline || stale_newline stale (i + 1) count

-- The rounds of the `do … while (!done)` loop. `buffer` holds what was read so far, `pos` is
-- `buffer_pos` and `size` is `buffer_size`; behind the bytes of a round stands their NUL.
pub read_line_loop : (ℕ → ℕ) → ℕ → Bytes → ℕ → ℕ → Stream → Option Bytes × Stream
read_line_loop stale zero buffer pos size fh = (none, fh)
read_line_loop stale (suc fuel) buffer pos size fh =
    let (got, fh') = fgets (size - pos) fh in
    elim got [
      | none ↦ (none, fh')
      | some s ↦
          let again =
            read_line_loop stale fuel (buffer ++ s) (size - 1) (size + line_buffer_step) fh' in
          let first = pos + length s + 1 in
          if has_newline s
          then (some (buffer ++ before_newline s), fh')
          else if stale_newline stale first (size - first)
          then (some (buffer ++ s), fh')
          else again
    ]

-- The line as the string that the callers see: up to the first NUL.
unfoldable pub read_line : (ℕ → ℕ) → Stream → Option Bytes × Stream
unfolding read_line_loop
read_line stale fh =
    let (line, fh') = read_line_loop stale (length fh.unread + 1) [] 0 line_buffer_step fh in
    (elim line [ none ↦ none | some s ↦ some (c_string s) ], fh')

has_newline-Lacks : (s : Bytes) → Lacks newline s → has_newline s ≡ false
unfolding has_newline
has_newline-Lacks [] h = refl
has_newline-Lacks (c ∷ s) h = ground (arith, has_newline-Lacks s h.1)

has_newline-append : (s : Bytes) → has_newline (s ++ newline ∷ []) ≡ true
unfolding has_newline
has_newline-append [] = refl
has_newline-append (c ∷ s) = ground (arith, has_newline-append s)

before_newline-append : (s : Bytes) → Lacks newline s → before_newline (s ++ newline ∷ []) ≡ s
unfolding before_newline
before_newline-append [] h = refl
before_newline-append (c ∷ s) h = ground (arith, before_newline-append s h.1)

stale_newline_none : (stale : ℕ → ℕ) (i k : ℕ) → k ≡ 0 → stale_newline stale i k ≡ false
unfolding stale_newline
stale_newline_none stale i zero h = refl
stale_newline_none stale i (suc k) h = absurd (omega arith)

read_line_loop_lem :
    (stale : ℕ → ℕ) (fuel : ℕ) (line rest buffer : Bytes) (pos size : ℕ) (e : Bool)
    → Lacks newline line
    → pos + 1 < size
    → length line < fuel
    → read_line_loop stale fuel buffer pos size
        (record { unread = line ++ newline ∷ rest; at_eof = e })
      ≡ (some (buffer ++ line), record { unread = rest; at_eof = e })
unfolding read_line_loop
read_line_loop_lem stale zero line rest buffer pos size e l p h = absurd (omega arith)
read_line_loop_lem stale (suc fuel) line rest buffer pos size e l p h =
    let m = size - pos - 1 in
    elim (dec_lt (length line) m) [
      | yes fits ↦ ground (
        arith,
        fgets_fits (size - pos) line rest e l fits,
        has_newline-append line,
        before_newline-append line l,
      )
      | no more ↦
          let whole : (buffer ++ take m line) ++ drop m line ≡ buffer ++ line =
            append_assoc buffer (take m line) (drop m line)
            ∙ ap (◌++◌ buffer) (take-append-drop m line) in
          let first = pos + length (take m line) + 1 in
          let none_stale =
            stale_newline_none stale first (size - first)
              (omega (arith, length-take_le m line (omega arith))) in
          ground (
            arith,
            fgets_full (size - pos) line rest e l (omega arith) (omega arith),
            has_newline-Lacks (take m line) (All-take (λ c. c ≢ newline) m line l),
            none_stale,
            read_line_loop_lem stale fuel (drop m line) rest (buffer ++ take m line) (size - 1)
                (size + line_buffer_step) e (All-drop (λ c. c ≢ newline) m line l) (omega arith)
                (omega (arith, length-drop m line)),
            whole,
          )
    ]

-- A line that ends in a newline and holds no NUL.
pub read_line_whole :
    (stale : ℕ → ℕ) (line rest : Bytes) (e : Bool)
    → Lacks newline line
    → Lacks 0 line
    → read_line stale (record { unread = line ++ newline ∷ rest; at_eof = e })
      ≡ (some line, record { unread = rest; at_eof = e })
unfolding read_line
read_line_whole stale line rest e l z = rw (
  read_line_loop_lem stale (length (line ++ newline ∷ rest) + 1) line rest [] 0 line_buffer_step e l
      (omega arith) (omega (arith, length-append line (newline ∷ rest))),
  c_string-Lacks line z,
)

-- A line that ends in a newline, holds no NUL and leaves room in an `int` for the buffer is returned
-- whole, whatever the fresh memory of the buffer holds, and the stream then stands behind it.
pub read_line_lem :
    (stale : ℕ → ℕ) (line rest : Bytes) (e : Bool)
    → Lacks newline line
    → Lacks 0 line
    → length line + 2 * line_buffer_step < 2 ^ 31
    → read_line stale (record { unread = line ++ newline ∷ rest; at_eof = e })
      ≡ (some line, record { unread = rest; at_eof = e })
read_line_lem stale line rest e l z h = read_line_whole stale line rest e l z

-- At the end of the file there is no line, and the end is noted.
pub read_line_end :
    (stale : ℕ → ℕ) (e : Bool)
    → read_line stale (record { unread = []; at_eof = e })
      ≡ (none, record { unread = []; at_eof = true })
unfolding read_line read_line_loop fgets
read_line_end stale e = ground (arith, fgets_end line_buffer_step e)
