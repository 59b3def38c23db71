-- ===== src/Copyfs/CopyFile/Short.antt =====
-- What becomes of a copy when a write is short.
use reproduction.Base.{
  ℕ, suc, ◌+◌, ◌≤◌, ◌≡◌, ap, ◌∙◌, [], ◌∷◌, Option, none, some, arith, length, take, take-all,
  drop-all,
}
use reproduction.Base.Int.{pos}
use reproduction.Base.Text.{Bytes, str_eq_refl}
use reproduction.Libc.Os.{Os, Node, pass, short, regular, read, write, append, put, created}
use reproduction.Copyfs.CopyFile.{write_loop, copy_loop, create_copy_file}
use reproduction.Copyfs.CopyFile.Copied.{machine, copy_file_opened}

-- The loops on a piece that is written short.
short_run :
    (fuel : ℕ) (target : Bytes) (b : ℕ) (bs : Bytes) (k : ℕ) (disk : Bytes → Option Node)
    (e now : ℕ)
    → length bs ≤ 1023
    → copy_loop (suc (suc fuel)) target (b ∷ bs) (machine disk (pass ∷ short k ∷ []) e now)
      ≡ some (pos 0, append target (take k (b ∷ bs)) (machine disk [] e now))
unfolding copy_loop read write_loop write
short_run fuel target b bs k disk e now l = ground (arith, take-all 1023 bs l, drop-all 1023 bs l)

-- A short write is taken for a whole one: with the same calls going through, if the source is not
-- empty and is read in one piece, and the only `write` puts out `k` bytes, 0 is returned and the
-- target has the first `k` bytes alone.
pub create_copy_file_short :
    (source target : Bytes) (n : Node) (b : ℕ) (bs : Bytes) (k : ℕ) (os : Os)
    → os.faults ≡ pass ∷ pass ∷ pass ∷ pass ∷ short k ∷ []
    → os.disk source ≡ some n
    → n.kind ≡ regular
    → n.contents ≡ b ∷ bs
    → length bs ≤ 1023
    → os.disk target ≡ none
    → (os' : Os) × (create_copy_file source target os ≡ some (pos 0, os'))
      × (os'.disk target ≡ some (record (created n.perm none) { contents = take k n.contents }))
create_copy_file_short source target n b bs k os script at_source kind contents l fresh =
    let start = put os.disk target (some (created n.perm none)) in
    let fuel_is : length (b ∷ bs) + 2 + 2 ≡ suc (suc (length bs + 3)) = omega arith in
    (
      append target (take k (b ∷ bs)) (machine start [] os.errno os.now),
      ap (λ f. create_copy_file source target (record os { faults = f })) script
          ∙ copy_file_opened source target n os.disk (pass ∷ short k ∷ []) os.errno os.now at_source
              kind fresh
          ∙ ap
              (λ c.
                copy_loop (length c + 2 + 2) target c
                  (machine start (pass ∷ short k ∷ []) os.errno os.now))
              contents
          ∙ ap
              (λ fuel.
                copy_loop fuel target (b ∷ bs)
                  (machine start (pass ∷ short k ∷ []) os.errno os.now))
              fuel_is
          ∙ short_run (length bs + 3) target b bs k start os.errno os.now l,
      ground (arith, str_eq_refl target, contents),
    )
