-- ===== src/Wayback/Tests/Settings.antt =====
-- Settings files.
use reproduction.Base.{List, [], ◌∷◌}
use reproduction.Base.Text.{Bytes, codes}
use reproduction.Wayback.Settings.Lines.{Setting}

abbrev settings : List Setting
settings =
    Setting.remark (codes " names")
    ∷ Setting.versions (codes "  ") (codes " = ") b'.' (codes "v")
    ∷ []

abbrev arguments : List Bytes
arguments = codes "wayback" ∷ codes "-d" ∷ codes "/source" ∷ codes "/mnt" ∷ codes "-o" ∷ []
