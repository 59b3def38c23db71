-- ===== src/Copyfs/Parse/RoundTrip.antt =====
-- A metadata file that write.c wrote is read back by parse.c.
use mathlib.Core.List.{append_assoc}
use reproduction.Base.{
  ℕ, suc, ◌+◌, ◌-◌, ◌≡◌, refl, ◌≢◌, ◌≤◌, ◌∙◌, List, [], ◌∷◌, ◌++◌, some, Bool, true, false, length,
  arith, All, length-append, map,
}
use reproduction.Base.Text.{Bytes}
use reproduction.Libc.Stream.{Stream}
use reproduction.Libc.Text.{rindex}
use reproduction.Libc.Print.{print_int, print_octal4}
use reproduction.Copyfs.Structs.{Version}
use reproduction.Copyfs.Write.{version_line, killer_line, strip_path}
use reproduction.Copyfs.Parse.{Unset, take_version, parse_versions}
use reproduction.Copyfs.Parse.Lines.{
  IsStorable, stored, parse_version_line-line, parse_version_line_end, length-version_line,
}

-- The lines of a chain, oldest first.
unfoldable pub chain_text : List Version → Bytes
chain_text [] = []
chain_text (v ∷ vs) = chain_text vs ++ version_line v

unfoldable pub ending : Bool → Bytes
ending true = killer_line
ending false = []

abbrev pub IsLive : Version → Type 0
IsLive v = IsStorable v × (v.v_vid ≢ 0)

abbrev unread : Bytes → Stream
unread s = record { unread = s; at_eof = false }

parse_chain :
    (u : Unset) (vs : List Version) (k : ℕ) (tail : Bytes)
    → All IsLive vs
    → parse_versions u (length vs + k) (unread (chain_text vs ++ tail)) ([], false)
      ≡ parse_versions u k (unread tail) (map stored vs, false)
unfolding chain_text
parse_chain u [] k tail h = let e : 0 + k ≡ k = omega arith in rw e
parse_chain u (v ∷ vs) k tail h =
    let e : suc (length vs) + k ≡ length vs + suc k = omega arith in
    rw
      (
        e,
        append_assoc (chain_text vs) (version_line v) tail,
        parse_chain u vs (suc k) (version_line v ++ tail) h.1,
      )
      (unfold parse_versions take_version in
        ground (arith, parse_version_line-line u v tail false h.0.0, h.0.1))

-- The killer version that the last line spells.
abbrev killer : Version
killer = record { v_vid = 0; v_svid = 0; v_mode = 0; v_uid = 0; v_gid = 0; v_rfile = [] }

killer-IsStorable : IsStorable killer
unfolding strip_path rindex
killer-IsStorable = omega arith

killer_line_lem : version_line killer ≡ killer_line ++ []
unfolding version_line print_int print_octal4 rindex
killer_line_lem = refl

parse_ending :
    (u : Unset) (deleted : Bool) (k : ℕ) (vs : List Version)
    → parse_versions u (suc (suc k)) (unread (ending deleted)) (vs, false) ≡ some (vs, deleted)
unfolding ending parse_versions take_version
parse_ending u false k vs = ground (arith, parse_version_line_end u false)
parse_ending u true k vs =
    let line =
      rw killer_line_lem at (parse_version_line-line u killer [] false killer-IsStorable) in
    ground (arith, line, parse_version_line_end u false)

length-chain_text : (vs : List Version) → length vs ≤ length (chain_text vs)
unfolding chain_text
length-chain_text [] = omega arith
length-chain_text (v ∷ vs) = omega (
  arith,
  length-append (chain_text vs) (version_line v),
  length-version_line v,
  length-chain_text vs,
)

-- The loop over a whole file, with a round for each byte and two more.
pub parse_versions-text :
    (u : Unset) (vs : List Version) (deleted : Bool)
    → All IsLive vs
    → let s = chain_text vs ++ ending deleted in
      parse_versions u (length s + 2) (unread s) ([], false) ≡ some (map stored vs, deleted)
parse_versions-text u vs deleted h =
    let s = chain_text vs ++ ending deleted in
    let n = length s - length vs in
    let e : length s + 2 ≡ length vs + suc (suc n) =
      omega (arith, length-append (chain_text vs) (ending deleted), length-chain_text vs) in
    rw e
      (parse_chain u vs (suc (suc n)) (ending deleted) h ∙ parse_ending u deleted n (map stored vs))
