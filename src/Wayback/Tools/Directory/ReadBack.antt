-- ===== src/Wayback/Tools/Directory/ReadBack.antt =====
-- The catalog that the daemon writes with 32-bit types is read back.
use mathlib.Core.List.{append_assoc}
use reproduction.Base.{
  ℕ, zero, suc, ◌+◌, ◌≤◌, ◌<◌, ◌≡◌, refl, ap, sym, ◌∙◌, inl, inr, List, [], ◌∷◌, ◌++◌, Option, none,
  some, length, arith, length-append, drop-append, take-append, All, List-cases,
}
use reproduction.Base.Text.{Bytes}
use reproduction.Wayback.Globals.{Stats, ilp32}
use reproduction.Wayback.Words.{word, read_word, read-word, Fits, length-word}
use reproduction.Wayback.Catalog.{Action, code_of, pieces, zstring}
use reproduction.Wayback.Catalog.Appended.{join, catalog_header}
use reproduction.Wayback.Catalog.Payload.{or_empty, payload, join-pieces, length-zstring}
use reproduction.Wayback.Tools.Directory.{DirEntry, unpack_entry, read_dir_entries, readdirectory}
use reproduction.Wayback.Tools.Directory.Unpack.{kept_stats, kept_extra, unpack_entry-payload}
use reproduction.Wayback.Tools.Directory.Items.{
  Item, item_bytes, found_in, Readable, catalog_of, all_found, item_bytes_lem,
}

code_of-Fits : (action : Action) → Fits 4 (code_of action)
code_of-Fits Action.create = refl
code_of-Fits Action.rm = refl
code_of-Fits Action.mkdir = refl
code_of-Fits Action.rmdir = refl
code_of-Fits Action.rename = refl
code_of-Fits Action.chmod = refl
code_of-Fits Action.chown = refl
code_of-Fits Action.utime = refl

payload_pos :
    (action : Action) (path : Bytes) (extra : Option Bytes) (stats : Option Stats) (ps : List Bytes)
    → pieces ilp32 action path extra stats ≡ some ps
    → 0 < length (payload ilp32 action path extra stats)
unfolding payload pieces
payload_pos Action.create path extra stats ps e = omega (arith, length-zstring path)
payload_pos Action.mkdir path extra stats ps e = omega (arith, length-zstring path)
payload_pos Action.rm path extra none ps e = ground (arith, e)
payload_pos Action.rm path extra (some st) ps e = omega arith
payload_pos Action.rmdir path extra stats ps e =
    omega (arith, length-append (zstring path) (zstring (or_empty extra)), length-zstring path)
payload_pos Action.rename path extra stats ps e =
    omega (arith, length-append (zstring path) (zstring (or_empty extra)), length-zstring path)
payload_pos Action.chmod path extra none ps e = ground (arith, e)
payload_pos Action.chmod path extra (some st) ps e = omega arith
payload_pos Action.chown path extra none ps e = ground (arith, e)
payload_pos Action.chown path extra (some st) ps e = omega arith
payload_pos Action.utime path extra none ps e = ground (arith, e)
payload_pos Action.utime path extra (some st) ps e = omega arith

-- A round of the loop.
read_dir_entries-round :
    (fuel time action c : ℕ) (s s₁ s₂ text rest : Bytes) (stats : Option Stats)
    (file1 file2 : Bytes)
    → read_word 4 s ≡ some (time, s₁)
    → read_word 4 s₁ ≡ some (action, s₂)
    → read_word 4 s₂ ≡ some (length (c ∷ text), (c ∷ text) ++ rest)
    → unpack_entry action (c ∷ text) ≡ some (stats, (file1, file2))
    → read_dir_entries (suc fuel) s ≡ elim (read_dir_entries fuel rest) [
      | none ↦ none
      | some es ↦ some (
          record { time = time; action = action; stats = stats; file1 = file1; file2 = file2 } ∷ es)
    ]
unfolding read_dir_entries read_word
read_dir_entries-round fuel time action c [] s₁ s₂ text rest stats file1 file2 t a l e =
    ground (arith, t)
read_dir_entries-round fuel time action c (b ∷ s) s₁ s₂ text rest stats file1 file2 t a l e =
    ground (arith, t, a, l, take-append (c ∷ text) rest, drop-append (c ∷ text) rest, e)

reassociated :
    (a b c p rest : Bytes) → ((a ++ b) ++ (c ++ p)) ++ rest ≡ a ++ (b ++ (c ++ (p ++ rest)))
reassociated a b c p rest = simp (append_assoc)

item-split :
    (it : Item) (ps : List Bytes) (rest : Bytes)
    → pieces ilp32 it.action it.path it.extra it.stats ≡ some ps
    → item_bytes it ++ rest
      ≡ word 4 it.time
        ++ (word 4 (code_of it.action)
            ++ (word 4 (length (payload ilp32 it.action it.path it.extra it.stats))
                ++ (payload ilp32 it.action it.path it.extra it.stats ++ rest)))
unfolding catalog_header
item-split it ps rest e =
    let p = payload ilp32 it.action it.path it.extra it.stats in
    ap (λ s. s ++ rest) (item_bytes_lem it ps e)
    ∙ ap (λ s. (catalog_header ilp32 it.time it.action ++ s) ++ rest)
        (join-pieces it.action it.path it.extra it.stats ps e)
    ∙ reassociated (word 4 it.time) (word 4 (code_of it.action)) (word 4 (length p)) p rest

item-step :
    (fuel : ℕ) (it : Item) (rest : Bytes)
    → Readable it
    → read_dir_entries (suc fuel) (item_bytes it ++ rest)
      ≡ elim (read_dir_entries fuel rest) [ none ↦ none | some es ↦ some (found_in it ∷ es) ]
item-step fuel it rest h =
    let p = payload ilp32 it.action it.path it.extra it.stats in
    let ps = h.0.0 in
    let e = h.0.1 in
    let some_data = payload_pos it.action it.path it.extra it.stats ps e in
    ap (read_dir_entries (suc fuel)) (item-split it ps rest e) ∙ elim (List-cases p) [
      | inl z ↦ absurd (omega (arith, some_data, ap length z))
      | inr (c, text, z) ↦
          let s₂ = word 4 (length p) ++ (p ++ rest) in
          let s₁ = word 4 (code_of it.action) ++ s₂ in
          read_dir_entries-round fuel it.time (code_of it.action) c (word 4 it.time ++ s₁) s₁ s₂
            text rest (kept_stats it.action it.stats) it.path
            (kept_extra it.action it.extra it.stats) (read-word 4 it.time s₁ h.1)
            (read-word 4 (code_of it.action) s₂ (code_of-Fits it.action))
            (read-word 4 (length p) (p ++ rest) h.2 ∙ ap (λ q. some (length q, q ++ rest)) z)
            (ap (unpack_entry (code_of it.action)) (sym z)
              ∙ unpack_entry-payload it.action it.path it.extra it.stats ps e h.3 h.4 h.5)
    ]

read_dir_entries_end : (fuel : ℕ) → read_dir_entries (suc fuel) [] ≡ some []
unfolding read_dir_entries
read_dir_entries_end fuel = refl

length-catalog_header : (time : ℕ) (action : Action) → length (catalog_header ilp32 time action) ≡ 8
unfolding catalog_header
length-catalog_header time action = omega (
  arith,
  length-append (word 4 time) (word 4 (code_of action)),
  length-word 4 time,
  length-word 4 (code_of action),
)

length-item :
    (it : Item) (ps : List Bytes)
    → pieces ilp32 it.action it.path it.extra it.stats ≡ some ps
    → 0 < length (item_bytes it)
length-item it ps e = omega (
  arith,
  ap length (item_bytes_lem it ps e),
  length-append (catalog_header ilp32 it.time it.action) (join ps),
  length-catalog_header it.time it.action,
)

read_dir_entries-catalog_of :
    (fuel : ℕ) (items : List Item)
    → length items < fuel
    → All Readable items
    → read_dir_entries fuel (catalog_of items) ≡ some (all_found items)
unfolding catalog_of all_found
read_dir_entries-catalog_of zero items l h = absurd (omega arith)
read_dir_entries-catalog_of (suc fuel) [] l h = read_dir_entries_end fuel
read_dir_entries-catalog_of (suc fuel) (it ∷ items) l h =
    item-step fuel it (catalog_of items) h.0
    ∙ ap
        (λ (r : Option (List DirEntry)). elim r [ none ↦ none | some es ↦ some (found_in it ∷ es) ])
        (read_dir_entries-catalog_of fuel items (omega (arith, l)) h.1)

length-catalog_of :
    (items : List Item) → All Readable items → length items ≤ length (catalog_of items)
unfolding catalog_of
length-catalog_of [] h = omega arith
length-catalog_of (it ∷ items) h = omega (
  arith,
  length-append (item_bytes it) (catalog_of items),
  length-item it h.0.0.0 h.0.0.1,
  length-catalog_of items h.1,
)

-- A catalog that is made of the entries of calls of `ver_updatedirectory` with 32-bit types is read
-- back by the tools: each entry with its time, its action, its names and its stats, oldest first.
-- The calls have the arguments that their actions need, the numbers fit into their fields, the names
-- hold no NUL, and the mode of a symbolic link is odd.
pub readdirectory-catalog_of :
    (items : List Item)
    → All Readable items
    → readdirectory (catalog_of items) ≡ some (all_found items)
unfolding readdirectory
readdirectory-catalog_of items h =
    read_dir_entries-catalog_of (length (catalog_of items) + 1) items
      (omega (arith, length-catalog_of items h)) h
