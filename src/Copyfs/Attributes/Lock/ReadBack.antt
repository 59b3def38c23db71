-- ===== src/Copyfs/Attributes/Lock/ReadBack.antt =====
-- A pin that was set is read back as it was written.
use mathlib.Core.List.{append-nil}
use reproduction.Base.{◌≤◌, ◌≡◌, ◌≢◌, ap, sym, ◌∙◌, [], ◌∷◌, ◌++◌, some, arith, All-append, All-imp}
use reproduction.Base.Int.{ℤ, to_unsigned}
use reproduction.Base.Text.{Bytes, Lacks}
use reproduction.Libc.Integer.{scan_decimal}
use reproduction.Libc.Integer.Printed.{IsInt, scan_decimal-print_int}
use reproduction.Libc.Numbers.{print_int-IsPrinted}
use reproduction.Libc.Os.{Os}
use reproduction.Libc.Scan.{scan_literal}
use reproduction.Libc.Text.{c_string-Lacks}
use reproduction.Copyfs.World.{World}
use reproduction.Copyfs.Attributes.Lock.{scan_lock, print_signed}

-- The text of two numbers.
abbrev pub pin_text : ℤ → ℤ → Bytes
pin_text vid svid = print_signed vid ++ (b'.' ∷ print_signed svid)

print_signed-Lacks : (x : ℤ) → Lacks 0 (print_signed x)
print_signed-Lacks x =
    All-imp (λ c. b'-' ≤ c) (λ c. c ≢ 0) (λ c k. omega arith) _
      (print_int-IsPrinted (to_unsigned x))

pin_text-Lacks : (vid svid : ℤ) → Lacks 0 (pin_text vid svid)
pin_text-Lacks vid svid =
    All-append (λ c. c ≢ 0) (print_signed vid) (b'.' ∷ print_signed svid) (print_signed-Lacks vid)
      (omega arith, print_signed-Lacks svid)

scan_last : (x : ℤ) → IsInt x → scan_decimal (print_signed x) ≡ some (x, [])
scan_last x h =
    ap scan_decimal (sym (append-nil (print_signed x))) ∙ scan_decimal-print_int x [] h tt

-- The attribute reads its own text.
pub scan_lock-pin_text :
    (vid svid : ℤ) → IsInt vid → IsInt svid → scan_lock (pin_text vid svid) ≡ some (vid, svid)
unfolding scan_lock scan_literal
scan_lock-pin_text vid svid h k = ground (
  arith,
  c_string-Lacks (pin_text vid svid) (pin_text-Lacks vid svid),
  scan_decimal-print_int vid (b'.' ∷ print_signed svid) h (omega arith),
  scan_last svid k,
)
