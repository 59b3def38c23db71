-- ===== src/Copyfs/Structs.antt =====
-- structs.h: the version and the metadata of a versioned file. A chain of `version_t` is a list,
-- newest first; the bucket links are addresses of other metadata, `none` for NULL.
use reproduction.Base.{ℕ, Bool, List, Option}
use reproduction.Base.Int.{ℤ, negsuc}
use reproduction.Base.Text.{Bytes}

-- `LATEST`, which is -1.
abbrev pub latest : ℤ
latest = negsuc 0

pub record Version : Type 0 where
  pub v_vid : ℕ
  pub v_svid : ℕ
  pub v_mode : ℕ
  pub v_uid : ℕ
  pub v_gid : ℕ
  pub v_rfile : Bytes

pub record Metadata : Type 0 where
  pub md_vfile : Bytes
  pub md_vpath : List Bytes
  pub md_versions : List Version
  pub md_deleted : Bool
  pub md_dfl_vid : ℤ
  pub md_dfl_svid : ℤ
  pub md_timestamp : ℕ
  pub md_next : Option ℕ
  pub md_previous : Option ℕ
