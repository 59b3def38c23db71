-- ===== src/Wayback/Callbacks/Space.antt =====
-- `ver_statfs` of wayback.c.
use reproduction.Base.{ℕ, Option, none, some}
use reproduction.Base.Int.{ℤ, pos, negsuc}
use reproduction.Base.Prog.{Prog, pure, call, ◌>>=◌}
use reproduction.Base.Text.{Bytes}
use reproduction.Libc.Os.{Os}
use reproduction.Wayback.Globals.{Globals}

pub record Statfs : Type 0 where
  pub f_bsize : ℕ
  pub f_blocks : ℕ
  pub f_bfree : ℕ
  pub f_bavail : ℕ
  pub f_files : ℕ
  pub f_ffree : ℕ
  pub f_namelen : ℕ

-- The fields that the code copies.
abbrev pub copied : Statfs → Statfs → Statfs
copied st fst = record fst {
  f_bsize = st.f_bsize;
  f_blocks = st.f_blocks;
  f_bfree = st.f_bfree;
  f_files = st.f_files;
  f_ffree = st.f_ffree;
  f_namelen = st.f_namelen;
}

-- `statfs` is given. Its -1 is the result of a failure.
unfoldable pub ver_statfs :
    (Bytes → Os → Option Statfs × Os) → Globals → Bytes → Statfs → Prog Os (ℤ × Statfs)
ver_statfs statfs globals path fst = do
  rv ← call (statfs globals.redirectpath)
  elim rv [ none ↦ pure (negsuc 0, fst) | some st ↦ pure (pos 0, copied st fst) ]
