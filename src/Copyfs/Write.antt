-- ===== src/Copyfs/Write.antt =====
-- write.c: the metadata file and the default-version file of a versioned file.
use reproduction.Base.{
  suc, List, [], ◌∷◌, ◌++◌, none, some, Bool, true, false, not, ◌==◌, ◌||◌, if◌then◌else◌, drop,
}
use reproduction.Base.Int.{ℤ, pos, negsuc, eq_ℤ, to_unsigned}
use reproduction.Base.Prog.{Prog, pure, crash, call, ◌>>=◌}
use reproduction.Base.Text.{Bytes, codes}
use reproduction.Libc.Os.{Os, fopen_write, fprintf, unlink, enoent}
use reproduction.Libc.Print.{print_int, print_octal4}
use reproduction.Libc.Text.{rindex}
use reproduction.Copyfs.Structs.{Version, Metadata, latest}

abbrev pub minus_one : ℤ
minus_one = negsuc 0

-- "Strip the path": what stands behind the last slash of the real file's name.
unfoldable pub strip_path : Bytes → Bytes
strip_path rfile = elim (rindex rfile b'/') [ none ↦ rfile | some i ↦ drop (suc i) rfile ]

-- `"%i:%i:%04o:%i:%i:%s\n"`.
unfoldable pub version_line : Version → Bytes
unfolding strip_path
version_line v =
    print_int v.v_vid
    ++ (b':'
        ∷ (print_int v.v_svid
            ++ (b':'
                ∷ (print_octal4 v.v_mode
                    ++ (b':'
                        ∷ (print_int v.v_uid
                            ++ (b':'
                                ∷ (print_int v.v_gid
                                    ++ (b':' ∷ (strip_path v.v_rfile ++ (10 ∷ [])))))))))))

-- The tail of the worker, which writes its own version.
unfoldable pub write_version : Bytes → Version → Prog Os ℤ
write_version fh v = do
  done ← call (fprintf fh (version_line v))
  pure (if done then pos 0 else minus_one)

-- `write_metadata_file_worker`: older versions first. It reads `version->v_next` at once, so a
-- chain without a version ends the process.
unfoldable pub write_metadata_file_worker : Bytes → List Version → Prog Os ℤ
unfolding write_version
write_metadata_file_worker fh [] = crash
write_metadata_file_worker fh (v ∷ []) = write_version fh v
write_metadata_file_worker fh (v ∷ w ∷ vs) = do
  older ← write_metadata_file_worker fh (w ∷ vs)
  if not (eq_ℤ older (pos 0)) then pure minus_one else write_version fh v

-- The line of the killer version.
abbrev pub killer_line : Bytes
killer_line = codes "0:0:0000:0:0:\n"

unfoldable pub write_killer : Bytes → Bool → Prog Os ℤ
write_killer fh true = do
  done ← call (fprintf fh killer_line)
  pure (if done then pos 0 else minus_one)
write_killer fh false = pure (pos 0)

unfoldable pub write_metadata_file : Bytes → Metadata → Prog Os ℤ
unfolding write_metadata_file_worker write_killer
write_metadata_file metafile md = do
  opened ← call (fopen_write metafile)
  if not opened then pure minus_one else do
    written ← write_metadata_file_worker metafile md.md_versions
    if not (eq_ℤ written (pos 0)) then pure minus_one else write_killer metafile md.md_deleted

-- `fprintf(fh, "%i.%i\n", vid, svid)`.
unfoldable pub default_line : ℤ → ℤ → Bytes
default_line vid svid =
    print_int (to_unsigned vid) ++ (b'.' ∷ (print_int (to_unsigned svid) ++ (10 ∷ [])))

-- `write_default_file`; a default of `latest` removes the file.
unfoldable pub write_default_file : Bytes → ℤ → ℤ → Prog Os ℤ
unfolding default_line
write_default_file dflfile vid svid =
    if eq_ℤ vid latest
    then (do
      removed ← call (unlink dflfile)
      λ os. pure (if removed || os.errno == enoent then pos 0 else minus_one) os)
    else (do
      opened ← call (fopen_write dflfile)
      if not opened then pure minus_one else do
        done ← call (fprintf dflfile (default_line vid svid))
        pure (if done then pos 0 else minus_one))
