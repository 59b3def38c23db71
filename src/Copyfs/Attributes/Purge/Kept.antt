-- ===== src/Copyfs/Attributes/Purge/Kept.antt =====
-- What a purge keeps and what it unlinks.
use reproduction.Base.{
  ℕ, ◌-◌, ◌≡◌, List, [], ◌∷◌, Option, none, some, Bool, false, ◌||◌, if◌then◌else◌, length, take,
  drop,
}
use reproduction.Base.Int.{ℤ, pos, negsuc}
use reproduction.Base.Prog.{◌>>◌}
use reproduction.Base.Text.{Bytes, codes, str_eq}
use reproduction.Libc.Integer.{scan_atoi}
use reproduction.Libc.Os.{Os, Node, unlink, is_directory}
use reproduction.Copyfs.Structs.{Version}
use reproduction.Copyfs.World.{World}
use reproduction.Copyfs.Attributes.Purge.{purges_all, kept}

-- The real files of the versions.
abbrev pub real_files : List Version → List Bytes
real_files [] = []
real_files (v ∷ vs) = v.v_rfile ∷ real_files vs

-- No call fails, and none of the files is a directory.
abbrev pub IsPlain : Os → Bytes → Type 0
IsPlain os path = is_directory (os.disk path) ≡ false

abbrev pub listed : Bytes → List Bytes → Bool
listed path [] = false
listed path (f ∷ files) = str_eq path f || listed path files

-- The disk without the files.
abbrev pub without : List Bytes → (Bytes → Option Node) → Bytes → Option Node
without files disk path = if listed path files then none else disk path

-- Unlinking the files of the versions, one after the other.
unlink_all : List Version → Os → Os
unlink_all [] os = os
unlink_all (v ∷ vs) os = unlink_all vs (unlink v.v_rfile os).1

-- How many of `n` versions stay.
abbrev stays : ℕ → ℤ → ℕ
stays n c = if purges_all c n then 0 else kept n c

-- What stays of a chain, and the disk behind.
purged : ℤ → List Version → World → Option (List Version × World)
purged c vs w =
    let k = stays (length vs) c in some (take k vs, record w { os = unlink_all (drop k vs) w.os })

-- How many of `n` versions a count leaves, and how many a value of the attribute does.
abbrev pub remaining : ℕ → ℤ → ℕ
remaining n (pos c) = n - c
remaining n (negsuc c) = n

abbrev pub remaining_for : Bytes → ℕ → ℕ
remaining_for value n = if str_eq value (codes "A") then 0 else remaining n (scan_atoi value)
