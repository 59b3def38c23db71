-- ===== src/Copyfs/CopyFile/Copied.antt =====
-- What is copied: all of the file if no write is short, also when calls are interrupted.
use reproduction.Base.{
  ℕ, zero, suc, ◌+◌, ◌≤◌, ◌<◌, ◌≡◌, refl, ap, sym, ◌∙◌, List, [], ◌∷◌, Option, none, some, arith,
  All, length, take, drop, take-append-drop, length-drop,
}
use reproduction.Base.Int.{pos}
use reproduction.Base.Prog.{and_then, pure}
use reproduction.Base.Text.{Bytes, str_eq_refl}
use reproduction.Libc.Os.{
  Os, Node, Fault, pass, fail, short, regular, read, write, append, put, extended, eintr, created,
  creat, lstat, open_read,
}
use reproduction.Libc.Os.Appended.{append-append, append-nil_lem}
use reproduction.Copyfs.CopyFile.{write_loop, copy_loop, copy_regular, create_copy_file}

-- The call goes through, or is interrupted.
abbrev pub IsCalm : Fault → Type 0
IsCalm pass = Unit
IsCalm (fail e n) = e ≡ eintr
IsCalm (short n) = ⊥

-- A calm script is left, no longer than before, and the disk is that of `os`.
pub record IsLike (os before os' : Os) : Type 0 where
  pub disk : os'.disk ≡ os.disk
  pub calm : All IsCalm os'.faults
  pub fewer : length os'.faults ≤ length before.faults

abbrev pub machine : (Bytes → Option Node) → List Fault → ℕ → ℕ → Os
machine disk fs e now = record { disk = disk; faults = fs; errno = e; now = now }

write_loop-append :
    (fuel : ℕ) (target buf : Bytes) (disk : Bytes → Option Node) (fs : List Fault) (e now : ℕ)
    → All IsCalm fs
    → length fs < fuel
    → (os' : Os) × (write_loop fuel target buf (machine disk fs e now) ≡ some (pos 0, os'))
      × IsLike (append target buf (machine disk fs e now)) (machine disk fs e now) os'
unfolding write_loop write
write_loop-append zero target buf disk fs e now c l = ground arith
write_loop-append (suc fuel) target buf disk [] e now c l = (
  append target buf (machine disk [] e now),
  refl,
  record { disk = refl; calm = tt; fewer = omega arith },
)
write_loop-append (suc fuel) target buf disk (pass ∷ fs) e now c l = (
  append target buf (machine disk fs e now),
  refl,
  record { disk = refl; calm = c.1; fewer = omega arith },
)
write_loop-append (suc fuel) target buf disk (short n ∷ fs) e now c l = elim c.0 [ ]
write_loop-append (suc fuel) target buf disk (fail e' n ∷ fs) e now c l =
    let (os', run, like) =
      write_loop-append fuel target buf disk fs e' now c.1 (omega (arith, l)) in
    (
      os',
      ground (arith, c.0, run),
      record { disk = like.disk; calm = like.calm; fewer = omega (arith, like.fewer) },
    )

-- With the fuel, the rest of a file is appended to the target under every calm script.
abbrev Copies : ℕ → Bytes → Type 0
Copies fuel target =
    (unread : Bytes) (disk : Bytes → Option Node) (fs : List Fault) (e now : ℕ)
    → All IsCalm fs
    → length unread + length fs < fuel
    → (os' : Os) × (copy_loop fuel target unread (machine disk fs e now) ≡ some (pos 0, os'))
      × IsLike (append target unread (machine disk fs e now)) (machine disk fs e now) os'

abbrev extended_disk : Bytes → Bytes → (Bytes → Option Node) → Bytes → Option Node
extended_disk target s disk = put disk target (extended s (disk target))

-- A round that reads: the piece is written, and the rest of the file is copied.
copy_piece :
    (fuel : ℕ) (target : Bytes) (b : ℕ) (bs : Bytes) (disk : Bytes → Option Node) (fs : List Fault)
    → (e now : ℕ) → Copies fuel target
    → All IsCalm fs
    → suc (length bs) + length fs < suc fuel
    → (os' : Os) × (and_then
          (write_loop fuel target (b ∷ take 1023 bs) (machine disk fs e now))
          (λ written. elim written [ pos zero ↦ copy_loop fuel target (drop 1023 bs) | r ↦ pure r ])
        ≡ some (pos 0, os'))
      × IsLike (append target (b ∷ bs) (machine disk fs e now)) (machine disk fs e now) os'
copy_piece fuel target b bs disk fs e now copies c l =
    let (os₁, run₁, like₁) =
      write_loop-append fuel target (b ∷ take 1023 bs) disk fs e now c (omega (arith, l)) in
    let (os₂, run₂, like₂) =
      copies (drop 1023 bs) os₁.disk os₁.faults os₁.errno os₁.now like₁.calm
        (omega (arith, l, like₁.fewer, length-drop 1023 bs)) in
    (
      os₂,
      ground (arith, run₁, run₂),
      record {
        disk =
            like₂.disk
            ∙ ap (extended_disk target (drop 1023 bs)) like₁.disk
            ∙ (λ i.
                (append-append target (b ∷ take 1023 bs) (drop 1023 bs) (machine disk fs e now)
                  i).disk)
            ∙ ap (λ s. extended_disk target (b ∷ s) disk) (take-append-drop 1023 bs);
        calm = like₂.calm;
        fewer = omega (arith, like₁.fewer, like₂.fewer);
      },
    )

copy_loop-append : (fuel : ℕ) (target : Bytes) → Copies fuel target
unfolding copy_loop read
copy_loop-append zero target unread disk fs e now c l = ground arith
copy_loop-append (suc fuel) target [] disk [] e now c l = (
  machine disk [] e now,
  refl,
  record {
    disk = sym (ap (λ os. os.disk) (append-nil_lem target (machine disk [] e now)));
    calm = tt;
    fewer = omega arith;
  },
)
copy_loop-append (suc fuel) target [] disk (pass ∷ fs) e now c l = (
  machine disk fs e now,
  refl,
  record {
    disk = sym (ap (λ os. os.disk) (append-nil_lem target (machine disk fs e now)));
    calm = c.1;
    fewer = omega arith;
  },
)
copy_loop-append (suc fuel) target (b ∷ bs) disk [] e now c l =
    copy_piece fuel target b bs disk [] e now (copy_loop-append fuel target) c l
copy_loop-append (suc fuel) target (b ∷ bs) disk (pass ∷ fs) e now c l =
    let (os', run, like) =
      copy_piece fuel target b bs disk fs e now (copy_loop-append fuel target) c.1
        (omega (arith, l)) in
    (os', run, record { disk = like.disk; calm = like.calm; fewer = omega (arith, like.fewer) })
copy_loop-append (suc fuel) target unread disk (short n ∷ fs) e now c l = elim c.0 [ ]
copy_loop-append (suc fuel) target unread disk (fail e' n ∷ fs) e now c l =
    let (os', run, like) =
      copy_loop-append fuel target unread disk fs e' now c.1 (omega (arith, l)) in
    (
      os',
      ground (arith, c.0, run),
      record { disk = like.disk; calm = like.calm; fewer = omega (arith, like.fewer) },
    )

-- Before the loop: the two files are open, and the target is empty.
pub copy_file_opened :
    (source target : Bytes) (n : Node) (disk : Bytes → Option Node) (fs : List Fault) (e now : ℕ)
    → disk source ≡ some n
    → n.kind ≡ regular
    → disk target ≡ none
    → create_copy_file source target (machine disk (pass ∷ pass ∷ pass ∷ fs) e now)
      ≡ copy_loop
          (length n.contents + length fs + 2)
          target
          n.contents
          (machine (put disk target (some (created n.perm none))) fs e now)
unfolding create_copy_file copy_regular lstat open_read creat
copy_file_opened source target n disk fs e now at_source k d = ground (arith, at_source, k, d)

-- The copy of a regular file to a path where nothing is, when `lstat` and the two opens go
-- through and every later call goes through or is interrupted, as often as it may be: 0 is
-- returned, the target is a regular file with exactly the contents of the source, its owner's part
-- of the permissions and its set-id and sticky bits, and no other path has changed. The rounds of both loops are enough.
pub create_copy_file-contents :
    (source target : Bytes) (n : Node) (fs : List Fault) (os : Os)
    → os.faults ≡ pass ∷ pass ∷ pass ∷ fs
    → All IsCalm fs
    → os.disk source ≡ some n
    → n.kind ≡ regular
    → os.disk target ≡ none
    → (os' : Os) × (create_copy_file source target os ≡ some (pos 0, os'))
      × ((q : Bytes)
          → os'.disk q
            ≡ put os.disk target (some (record (created n.perm none) { contents = n.contents })) q)
create_copy_file-contents source target n fs os script calm at_source k d =
    let (os', run, like) =
      copy_loop-append (length n.contents + length fs + 2) target n.contents
        (put os.disk target (some (created n.perm none))) fs os.errno os.now calm (omega arith) in
    let opened = copy_file_opened source target n os.disk fs os.errno os.now at_source k d in
    (
      os',
      ap (λ f. create_copy_file source target (record os { faults = f })) script ∙ opened ∙ run,
      λ q. ap (λ f. f q) like.disk ∙ ground (arith, str_eq_refl target),
    )
