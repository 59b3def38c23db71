-- ===== src/TtyRunner/Args/Lines.antt =====
-- The lines of a file of commands.
use mathlib.Core.List.{append_assoc, append-nil}
use reproduction.Base.{
  ℕ, zero, suc, ◌≡◌, refl, ap, sym, ◌∙◌, List, [], ◌∷◌, ◌++◌, some, ◌==◌, if◌then◌else◌, length,
  arith, All, ◌<◌, ◌≤◌,
}
use reproduction.Base.Text.{Bytes, Lacks}
use reproduction.Libc.Stream.{newline}
use reproduction.TtyRunner.Args.{getline, read_commands}

-- The lines, a newline between each and the next: what a file is that ends without one.
unfoldable pub joined : List Bytes → Bytes
joined [] = []
joined (line ∷ lines) = line ++ newline ∷ joined lines

length-getline : (s : Bytes) → length (getline s).1 ≤ length s
unfolding getline
length-getline [] = omega arith
length-getline (c ∷ s) = ground (arith, length-getline s)

length-getline_less : (c : ℕ) (s : Bytes) → length (getline (c ∷ s)).1 ≤ length s
unfolding getline
length-getline_less c s = ground (arith, length-getline s)

getline-Lacks : (s : Bytes) → Lacks newline (getline s).0
unfolding getline
getline-Lacks [] = tt
getline-Lacks (c ∷ s) = ground (arith, getline-Lacks s)

-- The text, with a newline at its end if it is not empty.
unfoldable pub terminated : Bytes → Bytes
terminated [] = []
terminated (c ∷ []) = if c == newline then c ∷ [] else c ∷ newline ∷ []
terminated (c ∷ d ∷ s) = c ∷ terminated (d ∷ s)

-- A line and what is left are the text.
terminated-getline :
    (c : ℕ) (s : Bytes)
    → terminated (c ∷ s) ≡ (getline (c ∷ s)).0 ++ newline ∷ terminated (getline (c ∷ s)).1
unfolding getline terminated
terminated-getline c [] = ground arith
terminated-getline c (d ∷ s) = ground (arith, terminated-getline d s)

-- The loop ends, on fuel for each byte and one round more, with the lines of the text.
pub read_commands_lem :
    (fuel : ℕ) (s : Bytes) (result : List Bytes)
    → length s < fuel
    → (lines : List Bytes) × (read_commands fuel s result ≡ some (result ++ lines))
      × All (Lacks newline) lines
      × (joined lines ≡ terminated s)
unfolding read_commands joined terminated
read_commands_lem zero s result h = absurd (omega arith)
read_commands_lem (suc fuel) [] result h = ([], ap some (sym (append-nil result)), tt, refl)
read_commands_lem (suc fuel) (c ∷ s) result h =
    let line = (getline (c ∷ s)).0 in
    let rest = (getline (c ∷ s)).1 in
    let (lines, e, l, j) =
      read_commands_lem fuel rest (result ++ (line ∷ []))
        (omega (arith, length-getline_less c s)) in
    (
      line ∷ lines,
      e ∙ ap some (append_assoc result (line ∷ []) lines),
      (getline-Lacks (c ∷ s), l),
      ap (λ t. line ++ newline ∷ t) j ∙ sym (terminated-getline c s),
    )
