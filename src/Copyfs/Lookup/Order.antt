-- ===== src/Copyfs/Lookup/Order.antt =====
-- The order of a version chain: strictly decreasing by version, then by subversion.
use reproduction.Base.{◌<◌, ◌≡◌, ◌⊎◌, List, [], ◌∷◌, All, All-imp, arith}
use reproduction.Copyfs.Structs.{Version}

-- `v` was made after `w`.
abbrev pub Newer : Version → Version → Type 0
Newer v w = (w.v_vid < v.v_vid) ⊎ ((w.v_vid ≡ v.v_vid) × (w.v_svid < v.v_svid))

abbrev pub IsNewestFirst : List Version → Type 0
IsNewestFirst [] = Unit {0}
IsNewestFirst (v ∷ vs) = All (Newer v) vs × IsNewestFirst vs

Newer-trans : (u v w : Version) → Newer u v → Newer v w → Newer u w
Newer-trans u v w h k = omega arith

-- A version newer than the head of an ordered chain is newer than the whole chain.
pub IsNewestFirst-cons :
    (v w : Version) (vs : List Version)
    → Newer v w
    → IsNewestFirst (w ∷ vs)
    → IsNewestFirst (v ∷ w ∷ vs)
IsNewestFirst-cons v w vs h s =
    ((h, All-imp (Newer w) (Newer v) (λ u k. Newer-trans v w u h k) vs s.0), s)
