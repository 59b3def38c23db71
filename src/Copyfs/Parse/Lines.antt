-- ===== src/Copyfs/Parse/Lines.antt =====
-- The line that write.c prints for a version is read by parse.c as that version.
use mathlib.Core.List.{append_assoc}
use reproduction.Base.{
  ℕ, ◌^◌, ◌≡◌, refl, ◌≢◌, ◌≤◌, ◌<◌, ◌∙◌, ap, [], ◌∷◌, ◌++◌, none, some, Bool, true, length, arith,
  All-append, All-imp, length-append,
}
use reproduction.Base.Text.{Bytes, Lacks}
use reproduction.Libc.Print.{print_int, print_octal4}
use reproduction.Libc.Scan.{scan_literal}
use reproduction.Libc.Numbers.{
  IsPrinted, scan_unsigned-print_int, scan_unsigned-print_octal4, print_int-IsPrinted,
  print_octal4-IsPrinted,
}
use reproduction.Libc.Stream.{newline}
use reproduction.Copyfs.Structs.{Version}
use reproduction.Copyfs.Helper.ReadLine.{read_line_whole, read_line_end}
use reproduction.Copyfs.Write.{strip_path, version_line}
use reproduction.Copyfs.Parse.{Unset, field, scan_version, parse_version_line}

-- The numbers fit 32 bits, and the file name holds no newline (and, as a C string, no NUL).
pub record IsStorable (v : Version) : Type 0 where
  pub vid : v.v_vid < 2 ^ 32
  pub svid : v.v_svid < 2 ^ 32
  pub mode : v.v_mode < 2 ^ 32
  pub uid : v.v_uid < 2 ^ 32
  pub gid : v.v_gid < 2 ^ 32
  pub no_newline : Lacks newline (strip_path v.v_rfile)
  pub no_nul : Lacks 0 (strip_path v.v_rfile)

-- What the file keeps of a version: all but the directory of the real file.
abbrev pub stored : Version → Version
stored v = record v { v_rfile = strip_path v.v_rfile }

-- A printed field and its colon in front of a text.
abbrev put_field : Bytes → Bytes → Bytes
put_field s rest = s ++ b':' ∷ rest

-- The line without its newline.
version_text : Version → Bytes
version_text v = put_field (print_int v.v_vid) (
    put_field (print_int v.v_svid) (
      put_field (print_octal4 v.v_mode)
        (put_field (print_int v.v_uid) (put_field (print_int v.v_gid) (strip_path v.v_rfile)))))

put_field-append : (s rest tail : Bytes) → put_field s rest ++ tail ≡ put_field s (rest ++ tail)
put_field-append s rest tail = append_assoc s (b':' ∷ rest) tail

version_line-text : (v : Version) → version_line v ≡ version_text v ++ newline ∷ []
unfolding version_line version_text
version_line-text v = simp put_field-append

field-int :
    (w : ℕ) (rest : Bytes) → w < 2 ^ 32 → field 10 (put_field (print_int w) rest) ≡ some (w, rest)
unfolding field scan_literal
field-int w rest h = ground (arith, scan_unsigned-print_int w b':' rest refl h)

field-octal4 :
    (w : ℕ) (rest : Bytes) → w < 2 ^ 32 → field 8 (put_field (print_octal4 w) rest) ≡ some (w, rest)
unfolding field scan_literal
field-octal4 w rest h = ground (arith, scan_unsigned-print_octal4 w b':' rest refl h)

scan_version-text :
    (u : Unset) (v : Version) → IsStorable v → scan_version u (version_text v) ≡ some (stored v)
unfolding scan_version version_text scan_literal
scan_version-text u v h =
    let gid_on = put_field (print_int v.v_gid) (strip_path v.v_rfile) in
    let uid_on = put_field (print_int v.v_uid) gid_on in
    let mode_on = put_field (print_octal4 v.v_mode) uid_on in
    ground (
      arith,
      field-int v.v_vid (put_field (print_int v.v_svid) mode_on) h.vid,
      field-int v.v_svid mode_on h.svid,
      field-octal4 v.v_mode uid_on h.mode,
      field-int v.v_uid gid_on h.uid,
      scan_unsigned-print_int v.v_gid b':' (strip_path v.v_rfile) refl h.gid,
    )

put_field-Lacks :
    (b : ℕ) (s rest : Bytes) → b < b'-' → IsPrinted s → Lacks b rest → Lacks b (put_field s rest)
put_field-Lacks b s rest l p h =
    All-append (λ c. c ≢ b) s (b':' ∷ rest)
      (All-imp (λ c. b'-' ≤ c) (λ c. c ≢ b) (λ c k. omega arith) s p) (omega arith, h)

version_text-Lacks :
    (b : ℕ) (v : Version) → b < b'-' → Lacks b (strip_path v.v_rfile) → Lacks b (version_text v)
unfolding version_text
version_text-Lacks b v l h = put_field-Lacks b _ _ l (print_int-IsPrinted v.v_vid) (
    put_field-Lacks b _ _ l (print_int-IsPrinted v.v_svid) (
      put_field-Lacks b _ _ l (print_octal4-IsPrinted v.v_mode) (
        put_field-Lacks b _ _ l (print_int-IsPrinted v.v_uid)
          (put_field-Lacks b _ _ l (print_int-IsPrinted v.v_gid) h))))

-- A stored version is read back from its line, and the stream then stands behind the line.
pub parse_version_line-line :
    (u : Unset) (v : Version) (rest : Bytes) (e : Bool)
    → IsStorable v
    → parse_version_line u (record { unread = version_line v ++ rest; at_eof = e })
      ≡ (some (stored v), record { unread = rest; at_eof = e })
unfolding parse_version_line
parse_version_line-line u v rest e h =
    let whole : version_line v ++ rest ≡ version_text v ++ newline ∷ rest =
      ap (λ (x : Bytes). x ++ rest) (version_line-text v)
      ∙ append_assoc (version_text v) (newline ∷ []) rest in
    let line =
      read_line_whole u.stale (version_text v) rest e
        (version_text-Lacks newline v (omega arith) h.no_newline)
        (version_text-Lacks 0 v (omega arith) h.no_nul) in
    rw whole (ground (arith, line, scan_version-text u v h))

-- At the end of the file there is no version, and `feof` holds.
pub parse_version_line_end :
    (u : Unset) (e : Bool)
    → parse_version_line u (record { unread = []; at_eof = e })
      ≡ (none, record { unread = []; at_eof = true })
unfolding parse_version_line
parse_version_line_end u e = ground (arith, read_line_end u.stale e)

pub length-version_line : (v : Version) → 1 ≤ length (version_line v)
length-version_line v =
    rw (version_line-text v) (omega (arith, length-append (version_text v) (newline ∷ [])))
