-- ===== src/Wayback/Log/Appended.antt =====
-- `ver_updateversion` appends one entry, when no call fails.
use reproduction.Base.{
  ℕ, ◌+◌, ◌≤◌, ◌≡◌, refl, ap, sym, ◌∙◌, inl, inr, [], ◌++◌, some, Bool, true, false, leb,
  if◌then◌else◌, length, drop, take, arith, length-drop, length-take, length-take_le, take-all,
  Bool-cases,
}
use reproduction.Base.Text.{Bytes}
use reproduction.Libc.Os.{Os, Node, append, put, open_read, is_directory}
use reproduction.Libc.Os.Appended.{append-append}
use reproduction.Libc.Os.Stdio.{fopen_append, opened}
use reproduction.Wayback.Globals.{Globals, Sizes}
use reproduction.Wayback.Words.{Fits, narrow-Fits}
use reproduction.Wayback.Log.{measure, header, open_log, updateversion, buffer_size}
use reproduction.Wayback.Log.Entry.{entry_for, encode}
use reproduction.Wayback.Log.Saved.{writebuffer_lem, measure_lem, save_bytes-append}

-- The disk with an entry more in the version file.
abbrev pub logged : Bytes → Bytes → Os → Os
logged file s os =
    append file s (record os { disk = put os.disk file (some (opened (os.disk file))) })

-- What the first loop finds is the length of the entry's bytes and its flag.
measured :
    (original : Bytes) (truncate : Bool) (offset size time : ℕ) (os : Os)
    → os.faults ≡ []
    → measure
        (length original + 2)
        original
        truncate
        offset
        size
        (if truncate then buffer_size else size)
        offset
        os
      ≡ some (
        some (
          length (entry_for time truncate offset size original).saved,
          (entry_for time truncate offset size original).to_end,
        ),
        os,
      )
measured original true offset size time os h =
    measure_lem (length original + 2) original true offset size buffer_size offset
      (length (drop offset original)) os h refl (omega (arith, length-drop offset original))
      (λ _. omega arith)
    ∙ ap (λ k. some (some (k, true), os)) (omega arith)
measured original false offset size time os h =
    measure_lem (length original + 2) original false offset size size offset
      (length (drop offset original)) os h refl (omega (arith, length-drop offset original))
      (λ z. ground (arith, z))
    ∙ ground (arith, length-take size (drop offset original))

-- The bytes that the second loop is to write.
saved_lem :
    (original : Bytes) (truncate : Bool) (offset size time : ℕ)
    → take (length (entry_for time truncate offset size original).saved) (drop offset original)
      ≡ (entry_for time truncate offset size original).saved
saved_lem original true offset size time =
    take-all (length (drop offset original)) (drop offset original) (omega arith)
saved_lem original false offset size time =
    let rest = drop offset original in
    elim (Bool-cases (leb size (length rest))) [
      | inl e ↦ ap (λ k. take k rest) (length-take_le size rest (ground (arith, e)))
      | inr e ↦
          let whole = take-all size rest (ground (arith, e)) in
          ap (λ s. take (length s) rest) whole
          ∙ take-all (length rest) rest (omega arith)
          ∙ sym whole
    ]

saved-le :
    (original : Bytes) (truncate : Bool) (offset size time : ℕ)
    → length (entry_for time truncate offset size original).saved ≤ length (drop offset original)
saved-le original true offset size time = omega arith
saved-le original false offset size time = ground (arith, length-take size (drop offset original))

-- The entry for the change is appended to the version file, which is made if it is not there, and
-- nothing else happens: for a file that can be read, a version file that is no directory, no failing
-- call, and saved bytes whose number fits into a `size_t`.
pub updateversion-logged :
    (sizes : Sizes) (globals : Globals) (path : Bytes) (size offset : ℕ) (truncate : Bool)
    (n : Node)
    → (os : Os) → os.faults ≡ []
    → os.disk path ≡ some n
    → is_directory (os.disk (path ++ globals.versionmodifier)) ≡ false
    → Fits sizes.size_t (length (entry_for os.now truncate offset size n.contents).saved)
    → updateversion sizes globals path size offset truncate os
      ≡ some (
        tt,
        logged
            (path ++ globals.versionmodifier)
            (encode sizes (entry_for os.now truncate offset size n.contents))
            os,
      )
unfolding updateversion open_log open_read fopen_append encode
updateversion-logged sizes globals path size offset truncate n os h at_path d fits =
    let file = path ++ globals.versionmodifier in
    let e = entry_for os.now truncate offset size n.contents in
    let k = length e.saved in
    let os₁ = record os { disk = put os.disk file (some (opened (os.disk file))) } in
    let head = header sizes os.now offset k e.to_end in
    let os₂ = append file head os₁ in
    ground (
      arith,
      h,
      at_path,
      d,
      measured n.contents truncate offset size os.now os₁ h,
      narrow-Fits sizes.size_t k fits,
      writebuffer_lem file head false os₁ h,
      save_bytes-append (length n.contents + 1) n.contents file k offset os₂ h
          (saved-le n.contents truncate offset size os.now)
          (omega (
            arith,
            saved-le n.contents truncate offset size os.now,
            length-drop offset n.contents,
          )),
      saved_lem n.contents truncate offset size os.now,
      append-append file head e.saved os₁,
    )
