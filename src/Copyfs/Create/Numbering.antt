-- ===== src/Copyfs/Create/Numbering.antt =====
-- The numbers that `create_new_version_generic` gives to a new version.
use reproduction.Base.{◌+◌, ◌^◌, ◌≡◌, ◌≤◌, ◌<◌, List, ◌∷◌, true, arith}
use reproduction.Base.Text.{Bytes}
use reproduction.Copyfs.Structs.{Version}
use reproduction.Copyfs.Lookup.Order.{Newer, IsNewestFirst, IsNewestFirst-cons}
use reproduction.Copyfs.Create.{Request, new_version}

new_version-Newer :
    (r : Request) (newest current : Version) (name : Bytes)
    → newest.v_vid + 1 < 2 ^ 32
    → current.v_svid + 1 < 2 ^ 32
    → (r.subversion ≡ true → current.v_vid ≡ newest.v_vid → newest.v_svid ≤ current.v_svid)
    → Newer (new_version r newest current name) newest
unfolding new_version
new_version-Newer r newest current name h k pin = ground (arith, pin)

-- The chain stays strictly ordered when the new version is put in front of it, if the numbers do
-- not wrap at 32 bits and, for a subversion, the visible version is not an older subversion of the
-- newest version (as it is when nothing is pinned).
pub new_version-IsNewestFirst :
    (r : Request) (newest current : Version) (vs : List Version) (name : Bytes)
    → newest.v_vid + 1 < 2 ^ 32
    → current.v_svid + 1 < 2 ^ 32
    → (r.subversion ≡ true → current.v_vid ≡ newest.v_vid → newest.v_svid ≤ current.v_svid)
    → IsNewestFirst (newest ∷ vs)
    → IsNewestFirst (new_version r newest current name ∷ newest ∷ vs)
new_version-IsNewestFirst r newest current vs name h k pin s =
    IsNewestFirst-cons (new_version r newest current name) newest vs
      (new_version-Newer r newest current name h k pin) s

-- If the visible version is an older subversion of the newest version (a pin can make it so), a
-- new subversion takes a number that is not above the newest one, and the chain is out of order:
-- the test for a pin compares the version numbers and not the subversions.
pub new_version_out_of_order :
    (r : Request) (newest current : Version) (vs : List Version) (name : Bytes)
    → r.subversion ≡ true
    → current.v_vid ≡ newest.v_vid
    → current.v_svid < newest.v_svid
    → newest.v_svid < 2 ^ 32
    → ¬ IsNewestFirst (new_version r newest current name ∷ newest ∷ vs)
unfolding new_version
new_version_out_of_order r newest current vs name e p h l (bad, _) = ground (arith, bad)
