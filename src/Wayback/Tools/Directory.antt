-- ===== src/Wayback/Tools/Directory.antt =====
-- fs/waybackfs/box/source/vutils.pl: how the tools read the catalog of a directory.
pub mod Fields
pub mod Unpack
pub mod Items
pub mod ReadBack
use reproduction.Base.{
  ℕ, zero, suc, ◌+◌, ◌%◌, List, [], ◌∷◌, ◌++◌, Option, none, some, Bool, true, false, ◌||◌, leb,
  ◌&&◌, ◌==◌, if◌then◌else◌, length, drop, take,
}
use reproduction.Base.Text.{Bytes}
use reproduction.Wayback.Globals.{Stats}
use reproduction.Wayback.Words.{read_word}

-- An entry of `dirinfo`; no `stats` is the empty hash.
pub record DirEntry : Type 0 where
  pub time : ℕ
  pub action : ℕ
  pub stats : Option Stats
  pub file1 : Bytes
  pub file2 : Bytes

-- `unpack("Z*")`: the text in front of the first NUL, and what stands behind the NUL.
unfoldable pub unpack_string : Bytes → Bytes × Bytes
unpack_string [] = ([], [])
unpack_string (c ∷ s) =
    let (front, rest) = unpack_string s in if c == 0 then ([], s) else (c ∷ front, rest)

-- A number of 32 bits, handed on with what stands behind it.
abbrev unpack_number : {A : Type 0} → Bytes → (ℕ → Bytes → Option A) → Option A
unpack_number s f = elim (read_word 4 s) [ none ↦ none | some (n, rest) ↦ f n rest ]

-- `unpack("IIIIII")`. `none` is that there are fewer bytes, where the fields are undefined.
unfoldable pub unpack_stats : Bytes → Option (Stats × Bytes)
unfolding read_word
unpack_stats s = unpack_number s (λ mode s₁. unpack_number s₁ (λ uid s₂. unpack_number s₂ (λ gid s₃.
    unpack_number s₃ (λ atime s₄. unpack_number s₄ (λ mtime s₅. unpack_number s₅ (λ ctime rest.
      some (
        record {
          st_mode = mode;
          st_uid = uid;
          st_gid = gid;
          st_atime = atime;
          st_mtime = mtime;
          st_ctime = ctime;
        },
        rest,
      )))))))

-- The branches on the action, for the data of one entry: the stats and the two names. In
-- `$stats[0] & 0120000 == 0120000` the comparison binds first, so the lowest bit is tested.
unfoldable pub unpack_entry : ℕ → Bytes → Option (Option Stats × (Bytes × Bytes))
unfolding unpack_string unpack_stats
unpack_entry action text =
    if action == 1 || action == 4
    then some (none, ((unpack_string text).0, []))
    else if action == 2
    then elim (unpack_stats text) [
      | none ↦ none
      | some (stats, rest) ↦
          let (file1, rest') = unpack_string rest in
          some (some stats, (file1, if stats.st_mode % 2 == 1 then (unpack_string rest').0 else []))
    ]
    else if action == 5 || action == 8
    then (let (file1, rest) = unpack_string text in some (none, (file1, (unpack_string rest).0)))
    else if leb 12 action && leb action 14
    then elim (unpack_stats text) [
      | none ↦ none
      | some (stats, rest) ↦ some (some stats, ((unpack_string rest).0, []))
    ]
    else some (none, ([], []))

-- The loop of `readdirectory`, oldest entry first. `none` is a header or stats that are cut short.
unfoldable pub read_dir_entries : ℕ → Bytes → Option (List DirEntry)
unfolding unpack_entry
read_dir_entries zero s = none
read_dir_entries (suc fuel) [] = some []
read_dir_entries (suc fuel) (b ∷ s) = unpack_number (b ∷ s) (λ time s₁.
    unpack_number s₁ (λ action s₂. unpack_number s₂ (λ datasize rest. elim (take datasize rest) [
      | [] ↦ some []
      | c ∷ text ↦ elim (unpack_entry action (c ∷ text)) [
        | none ↦ none
        | some (stats, (file1, file2)) ↦ elim (read_dir_entries fuel (drop datasize rest)) [
          | none ↦ none
          | some es ↦ some (
              record { time = time; action = action; stats = stats; file1 = file1; file2 = file2 }
              ∷ es)
        ]
      ]
    ])))

unfoldable pub readdirectory : Bytes → Option (List DirEntry)
unfolding read_dir_entries
readdirectory s = read_dir_entries (length s + 1) s
