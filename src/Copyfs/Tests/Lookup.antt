-- ===== src/Copyfs/Tests/Lookup.antt =====
-- Version search on a chain of three versions.
use reproduction.Base.{◌≡◌, refl, [], ◌∷◌, some, false, arith, none}
use reproduction.Base.Int.{pos}
use reproduction.Base.Text.{codes}
use reproduction.Copyfs.Structs.{Version, Metadata, latest}
use reproduction.Copyfs.Lookup.{find_version}
use reproduction.Copyfs.Lookup.Reference.{find_version-wanted, wanted}

abbrev second_sub : Version
second_sub = record {
  v_vid = 2;
  v_svid = 1;
  v_mode = 0o600;
  v_uid = 7;
  v_gid = 7;
  v_rfile = codes "/v/00000002.a";
}

abbrev second : Version
second = record second_sub { v_svid = 0; v_mode = 0o644 }

abbrev oldest : Version
oldest = record second { v_vid = 1; v_rfile = codes "/v/00000001.a" }

-- Pinned to version 1.
abbrev pinned : Metadata
pinned = record {
  md_vfile = codes "/a";
  md_vpath = codes "a" ∷ [];
  md_versions = second_sub ∷ second ∷ oldest ∷ [];
  md_deleted = false;
  md_dfl_vid = pos 1;
  md_dfl_svid = latest;
  md_timestamp = 0;
  md_next = none;
  md_previous = none;
}

pinned_run : find_version false pinned latest latest ≡ some oldest
unfolding find_version
pinned_run = refl

numbered_run : find_version false pinned (pos 2) (pos 0) ≡ some second
unfolding find_version
numbered_run = refl

find_version-wanted_example :
    find_version false pinned (pos 2) latest ≡ wanted false pinned (pos 2) latest
find_version-wanted_example = find_version-wanted false pinned (pos 2) latest (omega arith)

-- A chain that is out of order.
abbrev disordered : Metadata
disordered = record pinned { md_versions = oldest ∷ second_sub ∷ second ∷ [] }
