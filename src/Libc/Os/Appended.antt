-- ===== src/Libc/Os/Appended.antt =====
-- Appending to a file, piece by piece.
use mathlib.Core.List.{append_assoc, append-nil}
use mathlib.Core.Path.{fun_ext}
use reproduction.Base.{◌≡◌, refl, ap, arith, [], ◌++◌, Option, none, some}
use reproduction.Base.Text.{Bytes, str_eq_refl, str_eq_sound}
use reproduction.Libc.Os.{Os, Node, extended, append}

extended-extended :
    (a b : Bytes) (n : Option Node) → extended b (extended a n) ≡ extended (a ++ b) n
extended-extended a b none = refl
extended-extended a b (some n) = ground (arith, append_assoc n.contents a b)

-- Two appends to one file are one append of both texts.
pub append-append :
    (path a b : Bytes) (os : Os) → append path b (append path a os) ≡ append path (a ++ b) os
append-append path a b os = ap (λ d. record os { disk = d }) (fun_ext (λ q. at q))
  where
    at : (q : Bytes) → (append path b (append path a os)).disk q ≡ (append path (a ++ b) os).disk q
    at q = ground (arith, str_eq_refl path, extended-extended a b (os.disk path))

extended-nil : (n : Option Node) → extended [] n ≡ n
extended-nil none = refl
extended-nil (some n) = ground (arith, append-nil n.contents)

pub append-nil_lem : (path : Bytes) (os : Os) → append path [] os ≡ os
append-nil_lem path os = ap (λ d. record os { disk = d }) (fun_ext (λ q. at q))
  where
    at : (q : Bytes) → (append path [] os).disk q ≡ os.disk q
    at q = ground (arith, str_eq_sound q path, extended-nil (os.disk path), ap os.disk)
