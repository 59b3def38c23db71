-- ===== src/Libc/Stream.antt =====
-- A file that is open for reading, and `fgets`.
use reproduction.Base.{
  ℕ, zero, suc, ◌-◌, ◌≡◌, refl, ◌≤◌, ◌<◌, [], ◌∷◌, ◌++◌, Option, none, some, Bool, true, false,
  ◌==◌, if◌then◌else◌, ◌||◌, length, take, drop, arith, length-take_le,
}
use reproduction.Base.Text.{Bytes, Lacks}

-- `at_eof` is what `feof` reports.
pub record Stream : Type 0 where
  pub unread : Bytes
  pub at_eof : Bool

abbrev pub newline : ℕ
newline = 10

-- What one `fgets` takes: bytes up to a newline, `m` at most; what stays; whether the end was met.
pub record Chunk : Type 0 where
  pub taken : Bytes
  pub left : Bytes
  pub met_end : Bool

unfoldable pub read_chunk : ℕ → Bytes → Chunk
read_chunk zero s = record { taken = []; left = s; met_end = false }
read_chunk (suc m) [] = record { taken = []; left = []; met_end = true }
read_chunk (suc m) (c ∷ s) =
    let rest = read_chunk m s in
    if c == newline
    then record { taken = c ∷ []; left = s; met_end = false }
    else record { taken = c ∷ rest.taken; left = rest.left; met_end = rest.met_end }

-- `fgets(buffer, n, fh)`: NULL if the end stands before the first byte.
unfoldable pub fgets : ℕ → Stream → Option Bytes × Stream
unfolding read_chunk
fgets n fh =
    let k = read_chunk (n - 1) fh.unread in
    let fh' : Stream = record { unread = k.left; at_eof = fh.at_eof || k.met_end } in
    (elim k.taken [ [] ↦ if k.met_end then none else some [] | c ∷ s ↦ some (c ∷ s) ], fh')

-- A line that fits is taken with its newline.
pub read_chunk_fits :
    (m : ℕ) (line rest : Bytes)
    → Lacks newline line
    → length line < m
    → read_chunk m (line ++ newline ∷ rest)
      ≡ record { taken = line ++ newline ∷ []; left = rest; met_end = false }
unfolding read_chunk
read_chunk_fits zero line rest l h = absurd (omega arith)
read_chunk_fits (suc m) [] rest l h = refl
read_chunk_fits (suc m) (c ∷ line) rest l h = ground (arith, read_chunk_fits m line rest l.1)

-- Of a line that does not fit, a full buffer is taken.
pub read_chunk_full :
    (m : ℕ) (line rest : Bytes)
    → Lacks newline line
    → m ≤ length line
    → read_chunk m (line ++ newline ∷ rest)
      ≡ record { taken = take m line; left = drop m line ++ newline ∷ rest; met_end = false }
unfolding read_chunk
read_chunk_full zero line rest l h = refl
read_chunk_full (suc m) [] rest l h = absurd (omega arith)
read_chunk_full (suc m) (c ∷ line) rest l h = ground (arith, read_chunk_full m line rest l.1)

pub fgets_fits :
    (n : ℕ) (line rest : Bytes) (e : Bool)
    → Lacks newline line
    → length line < n - 1
    → fgets n (record { unread = line ++ newline ∷ rest; at_eof = e })
      ≡ (some (line ++ newline ∷ []), record { unread = rest; at_eof = e })
unfolding fgets
fgets_fits n [] rest e l h = ground (arith, read_chunk_fits (n - 1) [] rest l h)
fgets_fits n (c ∷ line) rest e l h = ground (arith, read_chunk_fits (n - 1) (c ∷ line) rest l h)

pub fgets_full :
    (n : ℕ) (line rest : Bytes) (e : Bool)
    → Lacks newline line
    → 0 < n - 1
    → n - 1 ≤ length line
    → fgets n (record { unread = line ++ newline ∷ rest; at_eof = e }) ≡ (
      some (take (n - 1) line),
      record { unread = drop (n - 1) line ++ newline ∷ rest; at_eof = e },
    )
unfolding fgets
fgets_full n line rest e l p h =
    ground (arith, read_chunk_full (n - 1) line rest l h, length-take_le (n - 1) line h)

-- At the end of the file there is no line, and `feof` holds from then on.
pub fgets_end :
    (n : ℕ) (e : Bool)
    → 1 < n
    → fgets n (record { unread = []; at_eof = e }) ≡ (none, record { unread = []; at_eof = true })
unfolding fgets read_chunk
fgets_end n e h = let k : n - 1 ≡ suc (n - 2) = omega arith in rw (k, fgets) (ground arith)
