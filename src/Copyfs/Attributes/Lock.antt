-- ===== src/Copyfs/Attributes/Lock.antt =====
-- `rcs.locked_version` of ea.c: the pin on a version, set and read.
pub mod Pin
pub mod ReadBack
use reproduction.Base.{
  ℕ, zero, suc, ◌+◌, ◌-◌, ◌≤◌, List, [], ◌∷◌, ◌++◌, Option, none, some, Bool, true, false, not, leb,
  ltb, ◌==◌, ◌&&◌, ◌||◌, if◌then◌else◌, length,
}
use reproduction.Base.Int.{ℤ, pos, negsuc, eq_ℤ, to_unsigned}
use reproduction.Base.Prog.{Prog, pure, crash, ◌>>=◌, ◌>>◌}
use reproduction.Base.Text.{Bytes, codes}
use reproduction.Libc.Integer.{scan_decimal}
use reproduction.Libc.Os.{einval}
use reproduction.Libc.Print.{print_int}
use reproduction.Libc.Scan.{scan_literal}
use reproduction.Libc.Text.{c_string}
use reproduction.Copyfs.CopyFile.{minus}
use reproduction.Copyfs.Create.{minus_errno, create_meta_name}
use reproduction.Copyfs.Lookup.{head?}
use reproduction.Copyfs.Parse.{Unset}
use reproduction.Copyfs.Structs.{Version, Metadata, latest}
use reproduction.Copyfs.World.{World, load, modify, deref, on_os}
use reproduction.Copyfs.Write.{write_default_file}

abbrev pub eacces : ℕ
eacces = 13

-- `sscanf(local, "%d.%d%n", …) == 2` with nothing left of the `size` bytes.
unfoldable pub scan_lock : Bytes → Option (ℤ × ℤ)
scan_lock value = elim (scan_decimal (c_string value)) [
  | none ↦ none
  | some (vid, r) ↦ elim (scan_literal b'.' r) [
    | none ↦ none
    | some r' ↦ elim (scan_decimal r') [
      | none ↦ none
      | some (svid, rest) ↦
          if length (c_string value) - length rest == length value then some (vid, svid) else none
    ]
  ]
]

-- One of the three `break`s of the search.
abbrev pub fits_lock : ℤ → ℤ → Version → Bool
fits_lock vid svid v =
    eq_ℤ vid latest
    || (v.v_vid == to_unsigned vid && eq_ℤ svid latest)
    || (v.v_vid == to_unsigned vid && v.v_svid == to_unsigned svid)

unfoldable pub find_lock : ℤ → ℤ → List Version → Option Version
find_lock vid svid [] = none
find_lock vid svid (v ∷ vs) = if fits_lock vid svid v then some v else find_lock vid svid vs

-- The branch of `callback_setxattr` for `rcs.locked_version`, called by the user `uid`.
unfoldable pub lock_version : Unset → ℕ → Bytes → ℕ → Bytes → Prog World ℤ
unfolding scan_lock find_lock
lock_version u uid path p value = elim (scan_lock value) [
  | none ↦ pure (minus einval)
  | some (vid, svid) ↦ do
    md ← load p
    elim (find_lock vid svid md.md_versions) [
      | none ↦ pure (minus einval)
      | some version ↦
          if not (uid == 0) && not (uid == version.v_uid) then pure (minus eacces) else (do
            dflfile ← create_meta_name u path (codes "dfl-meta")
            written ← on_os (write_default_file dflfile vid svid)
            if not (eq_ℤ written (pos 0)) then minus_errno else do
              modify p (λ md. record md { md_dfl_vid = vid; md_dfl_svid = svid })
              pure (pos 0))
    ]
]

abbrev pub print_signed : ℤ → Bytes
print_signed n = print_int (to_unsigned n)

abbrev pub erange : ℕ
erange = 34

-- "Handle the EA protocol": the length alone if no room is offered, else the text, which `strcpy` puts
-- into the caller's buffer with its NUL.
unfoldable pub ea_reply : ℕ → Bytes → ℤ × Option Bytes
ea_reply size s =
    if size == 0
    then (pos (length s), none)
    else if ltb size (length s)
    then (minus erange, none)
    else (pos (length s), some (s ++ (0 ∷ [])))

-- The branch of `callback_getxattr`: the numbers of the pin, or of the newest version.
unfoldable pub locked_version : ℕ → ℕ → Prog World (ℤ × Option Bytes)
unfolding ea_reply
locked_version p size = do
  md ← load p
  text ←
      (if eq_ℤ md.md_dfl_vid latest
        then (do
          newest ← deref (head? md.md_versions)
          pure (print_int newest.v_vid ++ (b'.' ∷ print_int newest.v_svid)))
        else pure (print_signed md.md_dfl_vid ++ (b'.' ∷ print_signed md.md_dfl_svid)))
  pure (ea_reply size text)
