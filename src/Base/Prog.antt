-- ===== src/Base/Prog.antt =====
-- Programs with a state. `none` is the death of the process: a failed `assert`, an `abort`, or a
-- read through a null pointer.
use reproduction.Base.{Option, none, some}

abbrev pub Prog : Type 0 → Type 0 → Type 0
Prog S A = S → Option (A × S)

abbrev pub pure : {S A : Type 0} → A → Prog S A
pure a s = some (a, s)

abbrev pub crash : {S A : Type 0} → Prog S A
crash s = none

module _ {S A B : Type 0} where
  abbrev pub and_then : Option (A × S) → (A → Prog S B) → Option (B × S)
  and_then none f = none
  and_then (some (a, s)) f = f a s

  infixl 5 ◌>>=◌ ◌>>◌
  abbrev pub ◌>>=◌ : Prog S A → (A → Prog S B) → Prog S B
  ◌>>=◌ m f s = and_then (m s) f

  abbrev pub ◌>>◌ : Prog S A → Prog S B → Prog S B
  m >> k = m >>= λ _. k

-- A call that cannot end the process.
abbrev pub call : {S A : Type 0} → (S → A × S) → Prog S A
call f s = some (f s)
