-- ===== src/Copyfs/Attributes/Dump/Split.antt =====
-- The dump is split at its bars into one line for each version.
use reproduction.Base.{
  ℕ, zero, suc, ◌+◌, ◌-◌, ◌/◌, ◌%◌, ◌^◌, length, ◌<◌, ◌≡◌, ◌≢◌, refl, ap, sym, subst⁻¹, ◌∙◌, inl,
  inr, List, [], ◌∷◌, ◌++◌, Option, none, some, false, ◌==◌, ltb, arith, All, All-append, All-imp,
  Bool-cases,
}
use reproduction.Base.Text.{Bytes, codes, Lacks}
use reproduction.Libc.Os.{Node}
use reproduction.Libc.Print.{emit, print_nat, print_int}
use Prim.Native.Nat.{bit_or}
use reproduction.Copyfs.Callbacks.Stat.{type_bits}
use reproduction.Copyfs.Attributes.Dump.{Unfilled, dump_line, dump_version}
use reproduction.Copyfs.Helper.Composite.{array_text}
use reproduction.Copyfs.Helper.Composite.Fit.{array_text-spelled}
use reproduction.Copyfs.Helper.Split.{split_to_array, words}
use reproduction.Copyfs.Helper.Split.Words.{
  spelled, words-separator, split_to_array-words, split_to_array-spelled,
}
use reproduction.Copyfs.Structs.{Version}

-- Digits and signs: bytes in front of the colon and the bar.
abbrev IsBelow : Bytes → Type 0
IsBelow = All (λ c. c < b':')

emit-IsBelow : (k n : ℕ) (out : Bytes) → IsBelow out → IsBelow (emit 10 k n out)
unfolding emit
emit-IsBelow zero n out h = h
emit-IsBelow (suc k) n out h = elim (Bool-cases (n == 0)) [
  | inl e ↦ rw (e, emit) h
  | inr e ↦ rw (e, emit) (emit-IsBelow k (n / 10) _ (omega arith, h))
]

print_nat-IsBelow : (n : ℕ) → IsBelow (print_nat 10 n)
unfolding print_nat
print_nat-IsBelow n = elim (Bool-cases (n == 0)) [
  | inl e ↦ rw (e, print_nat) (omega arith)
  | inr e ↦ rw (e, print_nat) (emit-IsBelow n n [] tt)
]

print_int-IsBelow : (w : ℕ) → IsBelow (print_int w)
unfolding print_int
print_int-IsBelow w = elim (Bool-cases (ltb w (2 ^ 31))) [
  | inl e ↦ rw (e, print_int) (print_nat-IsBelow w)
  | inr e ↦ rw (e, print_int) (omega arith, print_nat-IsBelow (2 ^ 32 - w))
]

-- A field of a line: digits and signs, at least one.
abbrev IsField : Bytes → Type 0
IsField s = IsBelow s × (s ≢ [])

emit-ne-nil : (k n : ℕ) (out : Bytes) → out ≢ [] → emit 10 k n out ≢ []
unfolding emit
emit-ne-nil zero n out h = h
emit-ne-nil (suc k) n out h = elim (Bool-cases (n == 0)) [
  | inl e ↦ rw (e, emit) h
  | inr e ↦ rw (e, emit) (emit-ne-nil k (n / 10) _ (λ z. cc))
]

print_nat-IsField : (n : ℕ) → IsField (print_nat 10 n)
unfolding print_nat emit
print_nat-IsField zero = (print_nat-IsBelow zero, λ z. cc)
print_nat-IsField (suc n) =
    let more : (suc n == 0) ≡ false = ground arith in
    (
      print_nat-IsBelow (suc n),
      rw (more, print_nat, emit) (emit-ne-nil n (suc n / 10) ((b'0' + suc n % 10) ∷ []) (λ z. cc)),
    )

print_int-IsField : (w : ℕ) → IsField (print_int w)
unfolding print_int
print_int-IsField w = elim (Bool-cases (ltb w (2 ^ 31))) [
  | inl e ↦ rw (e, print_int) (print_nat-IsField w)
  | inr e ↦ (print_int-IsBelow w, rw (e, print_int) (λ z. cc))
]

-- What a line says of a version: its numbers, with the type, the size and the time of its real file
-- on the disk. Of a file that is not there, the type of a regular file, the size that is there before
-- the call and the time -1.
abbrev pub described : Unfilled → Version → Option Node → List Bytes
described unfilled v none =
    print_int v.v_vid
    ∷ print_int v.v_svid
    ∷ print_int (bit_or v.v_mode 0o100000)
    ∷ print_int v.v_uid
    ∷ print_int v.v_gid
    ∷ print_nat 10 (unfilled.st_size v)
    ∷ codes "-1"
    ∷ []
described unfilled v (some n) =
    print_int v.v_vid
    ∷ print_int v.v_svid
    ∷ print_int (bit_or v.v_mode (type_bits n.kind))
    ∷ print_int v.v_uid
    ∷ print_int v.v_gid
    ∷ print_nat 10 (length n.contents)
    ∷ print_nat 10 (unfilled.st_mtime n)
    ∷ []

described-IsField :
    (unfilled : Unfilled) (v : Version) (file : Option Node)
    → All IsField (described unfilled v file)
described-IsField unfilled v none = (
  print_int-IsField _,
  (
    print_int-IsField _,
    (
      print_int-IsField _,
      (
        print_int-IsField _,
        (
          print_int-IsField _,
          (print_nat-IsField _, (((omega arith, (omega arith, tt)), λ z. cc), tt)),
        ),
      ),
    ),
  ),
)
described-IsField unfilled v (some n) = (
  print_int-IsField _,
  (
    print_int-IsField _,
    (
      print_int-IsField _,
      (
        print_int-IsField _,
        (print_int-IsField _, (print_nat-IsField _, (print_nat-IsField _, tt))),
      ),
    ),
  ),
)

-- The line is the fields with colons between them.
dump_version-described :
    (unfilled : Unfilled) (v : Version) (file : Option Node)
    → dump_version unfilled v file ≡ array_text (codes ":") (described unfilled v file)
unfolding dump_version dump_line array_text
dump_version-described unfilled v none = refl
dump_version-described unfilled v (some n) = refl

abbrev pub IsWord : ℕ → Bytes → Type 0
IsWord c line = Lacks c line × (line ≢ [])

pub split-joined :
    (c : ℕ) (x : Bytes) (xs : List Bytes)
    → All (IsWord c) (x ∷ xs)
    → split_to_array (array_text (c ∷ []) (x ∷ xs)) c ≡ x ∷ xs
split-joined c x xs h =
    (split_to_array-words (array_text (c ∷ []) (x ∷ xs)) c).0
    ∙ sym (words-separator c (array_text (c ∷ []) (x ∷ xs)))
    ∙ ap (words c) (array_text-spelled c x xs)
    ∙ sym (split_to_array-words (spelled c (x ∷ xs)) c).0
    ∙ split_to_array-spelled c (x ∷ xs) h

Field-IsWord : (xs : List Bytes) → All IsField xs → All (IsWord b':') xs
Field-IsWord =
    All-imp IsField (IsWord b':')
      (λ s h. (All-imp (λ c. c < b':') (λ c. c ≢ b':') (λ c k. omega arith) s h.0, h.1))

-- The fields of a line are read back at the colons.
pub split-described :
    (unfilled : Unfilled) (v : Version) (file : Option Node)
    → split_to_array (dump_version unfilled v file) b':' ≡ described unfilled v file
split-described unfilled v none =
    ap (λ s. split_to_array s b':') (dump_version-described unfilled v none)
    ∙ split-joined b':' _ _
        (Field-IsWord (described unfilled v none) (described-IsField unfilled v none))
split-described unfilled v (some n) =
    ap (λ s. split_to_array s b':') (dump_version-described unfilled v (some n))
    ∙ split-joined b':' _ _
        (Field-IsWord (described unfilled v (some n)) (described-IsField unfilled v (some n)))

abbrev IsLow : Bytes → Type 0
IsLow = All (λ c. c < b'|')

array_text-IsLow : (xs : List Bytes) → All IsField xs → IsLow (array_text (codes ":") xs)
unfolding array_text
array_text-IsLow [] h = tt
array_text-IsLow (x ∷ []) h = All-imp (λ c. c < b':') (λ c. c < b'|') (λ c k. omega arith) x h.0.0
array_text-IsLow (x ∷ (y ∷ xs)) h =
    All-append (λ c. c < b'|') x (b':' ∷ array_text (codes ":") (y ∷ xs))
      (All-imp (λ c. c < b':') (λ c. c < b'|') (λ c k. omega arith) x h.0.0)
      (omega arith, array_text-IsLow (y ∷ xs) h.1)

append-ne-nil : (s rest : Bytes) (c : ℕ) → s ++ c ∷ rest ≢ []
append-ne-nil [] rest c h = cc
append-ne-nil (d ∷ s) rest c h = cc

dump_version-ne-nil :
    (unfilled : Unfilled) (v : Version) (file : Option Node) → dump_version unfilled v file ≢ []
unfolding dump_version dump_line
dump_version-ne-nil unfilled v none = append-ne-nil (print_int v.v_vid) _ b':'
dump_version-ne-nil unfilled v (some n) = append-ne-nil (print_int v.v_vid) _ b':'

-- No line is empty or holds a bar.
pub dump_version-IsWord :
    (unfilled : Unfilled) (v : Version) (file : Option Node)
    → IsWord b'|' (dump_version unfilled v file)
dump_version-IsWord unfilled v file = (
  All-imp (λ c. c < b'|') (λ c. c ≢ b'|') (λ c k. omega arith) _
      (subst⁻¹ IsLow (dump_version-described unfilled v file)
        (array_text-IsLow _ (described-IsField unfilled v file))),
  dump_version-ne-nil unfilled v file,
)
