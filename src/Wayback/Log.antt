-- ===== src/Wayback/Log.antt =====
-- `writebuffer` and `ver_updateversion` of waybackfsvops.c: what undoes a change of a file is
-- appended to the version file beside it, before the change is made.
pub mod Saved
pub mod Entry
pub mod Undo
pub mod Appended
use reproduction.Base.{
  ℕ, zero, suc, ◌+◌, ◌-◌, List, [], ◌∷◌, ◌++◌, Option, none, some, Bool, true, false, ◌||◌, not,
  ltb, ◌==◌, if◌then◌else◌, length, drop,
}
use reproduction.Base.Prog.{Prog, pure, crash, call, ◌>>=◌, ◌>>◌}
use reproduction.Base.Text.{Bytes}
use reproduction.Libc.Os.{Os, open_read, fopen_write}
use reproduction.Libc.Os.Stdio.{fopen_append, fwrite, pread_open}
use reproduction.Wayback.Globals.{Globals, Sizes}
use reproduction.Wayback.Words.{word, narrow}

-- `while (len > 0) { ret = fwrite(…); if (ret <= 0) return; … }` on a stream whose `ferror` is given;
-- the new `ferror` is returned. A round that goes on has put out a byte.
unfoldable pub write_rounds : ℕ → Bytes → Bytes → Bool → Prog Os Bool
write_rounds fuel file [] failed = pure failed
write_rounds zero file (b ∷ s) failed = crash
write_rounds (suc fuel) file (b ∷ s) failed = do
  (n, bad) ← call (fwrite file (b ∷ s))
  elim n [ zero ↦ pure (failed || bad) | suc k ↦ write_rounds fuel file (drop k s) (failed || bad) ]

unfoldable pub writebuffer : Bytes → Bytes → Bool → Prog Os Bool
unfolding write_rounds
writebuffer file s failed = write_rounds (length s) file s failed

-- `sizeof(buffer)`, and what one call asks for.
abbrev pub buffer_size : ℕ
buffer_size = 16384

abbrev pub chunk : ℕ → ℕ
chunk size = if ltb buffer_size size then buffer_size else size

-- The first loop: how much of the file stands behind `offset`, up to the size of a write, and
-- whether the end of the file is met. `none` is the return on a failing `pread`.
unfoldable pub measure : ℕ → Bytes → Bool → ℕ → ℕ → ℕ → ℕ → Prog Os (Option (ℕ × Bool))
measure zero original truncate offset size tempsize tempoffset = crash
measure (suc fuel) original truncate offset size tempsize tempoffset = elim (tempsize == 0) [
  | true ↦ pure (some (size, false))
  | false ↦ do
    got ← call (pread_open original (chunk tempsize) tempoffset)
    elim got [
      | none ↦ pure none
      | some [] ↦ pure (some (tempoffset - offset, true))
      | some (b ∷ buf) ↦
          measure fuel original truncate offset size
            (if truncate then tempsize else tempsize - length (b ∷ buf))
            (tempoffset + length (b ∷ buf))
    ]
]

-- The second loop: the bytes themselves.
unfoldable pub save_bytes : ℕ → Bytes → Bytes → Bool → ℕ → ℕ → Prog Os (Unit {0})
save_bytes zero original file failed size offset = crash
save_bytes (suc fuel) original file failed size offset = elim (size == 0) [
  | true ↦ pure tt
  | false ↦ do
    got ← call (pread_open original (chunk size) offset)
    elim got [
      | none ↦ pure tt
      | some buf ↦ do
        failed' ← writebuffer file buf failed
        elim failed' [
          | true ↦ pure tt
          | false ↦ save_bytes fuel original file false (size - length buf) (offset + length buf)
        ]
    ]
]

abbrev pub flag : Bool → ℕ
flag true = 1
flag false = 0

-- The four `memcpy`s.
unfoldable pub header : Sizes → ℕ → ℕ → ℕ → Bool → Bytes
unfolding word
header sizes timestamp offset size extendseof =
    word sizes.time_t timestamp
    ++ (word sizes.off_t offset ++ (word sizes.size_t size ++ (flag extendseof ∷ [])))

abbrev pub now_of : Prog Os ℕ
now_of os = some (os.now, os)

-- `fopen(verpath, "ab")`, or else `fopen(verpath, "wb")`.
unfoldable pub open_log : Bytes → Prog Os Bool
open_log file = do
  there ← call (fopen_append file)
  if there then pure true else call (fopen_write file)

-- Rounds for each byte that `original` has behind the offset.
unfoldable pub updateversion : Sizes → Globals → Bytes → ℕ → ℕ → Bool → Prog Os (Unit {0})
unfolding open_log measure save_bytes
updateversion sizes globals path size offset truncate = do
  let verpath = path ++ globals.versionmodifier
  originalfile ← call (open_read path)
  versionfile ← open_log verpath
  if not versionfile then pure tt else elim originalfile [
    | none ↦ pure tt
    | some original ↦ do
      timestamp ← now_of
      measured ←
          measure (length original + 2) original truncate offset size
            (if truncate then buffer_size else size) offset
      elim measured [
        | none ↦ pure tt
        | some (extent, extendseof) ↦ do
          let saved = narrow sizes.size_t extent
          failed ← writebuffer verpath (header sizes timestamp offset saved extendseof) false
          save_bytes (length original + 1) original verpath failed saved offset
      ]
  ]
