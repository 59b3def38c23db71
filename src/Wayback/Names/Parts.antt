-- ===== src/Wayback/Names/Parts.antt =====
-- A path is the directory of its catalog, and its relative name.
use mathlib.Core.List.{
  append_assoc, reverse, reverse_aux, reverse-append, reverse-cons, reverse-reverse,
}
use reproduction.Base.{
  ◌<◌, ◌≡◌, refl, ap, ◌∙◌, [], ◌∷◌, ◌++◌, some, ◌==◌, if◌then◌else◌, length, arith, length-append,
}
use reproduction.Base.Text.{Bytes, Lacks}
use reproduction.Libc.Os.{Os}
use reproduction.Wayback.Globals.{Globals}
use reproduction.Wayback.Names.{
  back_to_slash, drop_slash, getdirectorycatalog, last_part, makerelative,
}

last_part-Lacks : (needle s : Bytes) → Lacks b'/' s → last_part needle s ≡ needle
unfolding last_part
last_part-Lacks needle [] h = refl
last_part-Lacks needle (c ∷ s) h = ground (arith, h, last_part-Lacks needle s h.1)

last_part-append :
    (needle dir name : Bytes) → Lacks b'/' name → last_part needle (dir ++ b'/' ∷ name) ≡ name
unfolding last_part
last_part-append needle [] name h = ground (arith, last_part-Lacks name name h)
last_part-append needle (c ∷ dir) name h =
    last_part-append (if c == b'/' then dir ++ b'/' ∷ name else needle) dir name h

pub makerelative-append :
    (dir name : Bytes) → Lacks b'/' name → makerelative (dir ++ b'/' ∷ name) ≡ name
unfolding makerelative
makerelative-append dir name h = last_part-append (dir ++ b'/' ∷ name) dir name h

back_to_slash-append : (a r : Bytes) → Lacks b'/' a → back_to_slash (a ++ b'/' ∷ r) ≡ b'/' ∷ r
unfolding back_to_slash
back_to_slash-append [] r h = refl
back_to_slash-append (c ∷ a) r h = ground (arith, h, back_to_slash-append a r h.1)

drop_slash-append : (a r : Bytes) → 0 < length a → Lacks b'/' a → drop_slash (a ++ r) ≡ a ++ r
drop_slash-append [] r l h = absurd (omega arith)
drop_slash-append (c ∷ a) r l h = ground (arith, h)

Lacks-reverse : (s : Bytes) → Lacks b'/' s → Lacks b'/' (reverse s)
Lacks-reverse s h = go s [] h tt
  where
    go : (s r : Bytes) → Lacks b'/' s → Lacks b'/' r → Lacks b'/' (reverse_aux s r)
    go [] r h k = k
    go (c ∷ s) r h k = go s (c ∷ r) h.1 (h.0, k)

reversed : (dir name : Bytes) → reverse (dir ++ b'/' ∷ name) ≡ reverse name ++ b'/' ∷ reverse dir
reversed dir name =
    reverse-append dir (b'/' ∷ name)
    ∙ ap (λ s. s ++ reverse dir) (reverse-cons b'/' name)
    ∙ append_assoc (reverse name) (b'/' ∷ []) (reverse dir)

length_pos : (s : Bytes) → 0 < length s → 0 < length (reverse s)
length_pos [] h = h
length_pos (c ∷ s) h =
    omega (arith, ap length (reverse-cons c s), length-append (reverse s) (c ∷ []))

rejoined : (dir : Bytes) → reverse (b'/' ∷ reverse dir) ≡ dir ++ b'/' ∷ []
rejoined dir = reverse-cons b'/' (reverse dir) ∙ ap (λ s. s ++ (b'/' ∷ [])) (reverse-reverse dir)

cut :
    (dir name : Bytes)
    → 0 < length name
    → Lacks b'/' name
    → reverse (back_to_slash (drop_slash (reverse (dir ++ b'/' ∷ name)))) ≡ dir ++ b'/' ∷ []
cut dir name l h =
    ap (λ s. reverse (back_to_slash (drop_slash s))) (reversed dir name)
    ∙ ap (λ s. reverse (back_to_slash s))
        (drop_slash-append (reverse name) (b'/' ∷ reverse dir) (length_pos name l)
          (Lacks-reverse name h))
    ∙ ap reverse (back_to_slash-append (reverse name) (reverse dir) (Lacks-reverse name h))
    ∙ rejoined dir

found :
    (globals : Globals) (p dir : Bytes) (os : Os)
    → reverse (back_to_slash (drop_slash (reverse p))) ≡ dir ++ b'/' ∷ []
    → 0 < length p
    → getdirectorycatalog globals p os ≡ some (some (dir ++ (b'/' ∷ globals.versionmodifier)), os)
unfolding getdirectorycatalog
found globals [] dir os e l = absurd (omega arith)
found globals (c ∷ p) [] os e l = ground (arith, e)
found globals (c ∷ p) (d ∷ dir) os e l =
    ground (arith, e, append_assoc dir (b'/' ∷ []) globals.versionmodifier)

-- A change of a name in a directory is logged in the catalog of this directory, under this name:
-- for a name that is not empty and has no slash.
pub getdirectorycatalog-append :
    (globals : Globals) (dir name : Bytes) (os : Os)
    → 0 < length name
    → Lacks b'/' name
    → (getdirectorycatalog globals (dir ++ b'/' ∷ name) os
        ≡ some (some (dir ++ (b'/' ∷ globals.versionmodifier)), os))
      × (makerelative (dir ++ b'/' ∷ name) ≡ name)
getdirectorycatalog-append globals dir name os l h = (
  found globals (dir ++ b'/' ∷ name) dir os (cut dir name l h)
      (omega (arith, length-append dir (b'/' ∷ name))),
  makerelative-append dir name h,
)
