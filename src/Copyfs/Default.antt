-- ===== src/Copyfs/Default.antt =====
-- `parse_default_file` and `parse_metadata_for_file` of parse.c.
use reproduction.Base.{[], ◌∷◌, Option, none, some}
use reproduction.Base.Int.{ℤ}
use reproduction.Base.Prog.{Prog, pure, call, ◌>>=◌}
use reproduction.Base.Text.{Bytes, codes}
use reproduction.Libc.Integer.{scan_int}
use reproduction.Libc.Os.{Os, fopen_read}
use reproduction.Libc.Scan.{scan_literal}
use reproduction.Copyfs.Helper.Composite.{string, build_composite}
use reproduction.Copyfs.Helper.Names.{get_file_name}
use reproduction.Copyfs.Helper.ReadLine.{read_line}
use reproduction.Copyfs.Parse.{Unset, parse_metadata_file}
use reproduction.Copyfs.Structs.{Metadata, latest}
use reproduction.Copyfs.World.{deref}

-- `sscanf(line, "%i.%i", vid, svid) != 2`: the real latest version then.
unfoldable pub scan_default : Bytes → ℤ × ℤ
scan_default line = elim (scan_int line) [
  | none ↦ (latest, latest)
  | some (vid, r) ↦ elim (scan_literal b'.' r) [
    | none ↦ (latest, latest)
    | some r' ↦ elim (scan_int r') [ none ↦ (latest, latest) | some (svid, _) ↦ (vid, svid) ]
  ]
]

-- The numbers that the file gives. A file without a line hands NULL to `sscanf`.
unfoldable pub parse_default_file : Unset → Bytes → Prog Os (ℤ × ℤ)
unfolding scan_default
parse_default_file u dflfile = do
  opened ← call (fopen_read dflfile)
  elim opened [
    | none ↦ pure (latest, latest)
    | some fh ↦ do line ← deref (read_line u.stale fh).0; pure (scan_default line)
  ]

-- `helper_build_composite("SS", separator, a, b)`.
abbrev pub pair : {S : Type 0} → Bytes → Bytes → Bytes → Prog S Bytes
pair separator a b = do
  (s, n) ← deref (build_composite (codes "SS") separator (string a ∷ string b ∷ []))
  pure s

unfoldable pub parse_metadata_for_file : Unset → Bytes → Bytes → Prog Os (Option Metadata)
unfolding parse_default_file
parse_metadata_for_file u root filename = do
  metapath ← pair (codes "/") root (get_file_name filename (codes "metadata"))
  metadata ← parse_metadata_file u metapath
  elim metadata [
    | none ↦ pure none
    | some md ↦ do
      dflpath ← pair (codes "/") root (get_file_name filename (codes "dfl-meta"))
      (vid, svid) ← parse_default_file u dflpath
      pure (some (record md { md_dfl_vid = vid; md_dfl_svid = svid }))
  ]
