-- ===== src/Wayback/Tools/Directory/Fields.antt =====
-- The fields in the data of an entry of a catalog are read back.
use mathlib.Core.List.{append_assoc}
use reproduction.Base.{ℕ, ◌≡◌, ap, ◌∙◌, [], ◌∷◌, ◌++◌, some, arith}
use reproduction.Base.Text.{Bytes, Lacks}
use reproduction.Wayback.Globals.{Stats, ilp32}
use reproduction.Wayback.Words.{word, read-word, Fits}
use reproduction.Wayback.Catalog.{bufferstats, zstring}
use reproduction.Wayback.Tools.Directory.{unpack_string, unpack_stats}

pub unpack_string-zstring :
    (s rest : Bytes) → Lacks 0 s → unpack_string (zstring s ++ rest) ≡ (s, rest)
unfolding unpack_string
unpack_string-zstring [] rest h = ground arith
unpack_string-zstring (c ∷ s) rest h = ground (arith, h, unpack_string-zstring s rest h.1)

abbrev pub FitsStats : Stats → Type 0
FitsStats st =
    Fits 4 st.st_mode
    × Fits 4 st.st_uid
    × Fits 4 st.st_gid
    × Fits 4 st.st_atime
    × Fits 4 st.st_mtime
    × Fits 4 st.st_ctime

bufferstats-append :
    (st : Stats) (rest : Bytes)
    → bufferstats ilp32 st ++ rest
      ≡ word 4 st.st_mode
        ++ (word 4 st.st_uid
            ++ (word 4 st.st_gid
                ++ (word 4 st.st_atime ++ (word 4 st.st_mtime ++ (word 4 st.st_ctime ++ rest)))))
unfolding bufferstats
bufferstats-append st rest = simp (append_assoc)

unpack_stats_words :
    (a b c d e f : ℕ) (rest : Bytes)
    → Fits 4 a
    → Fits 4 b
    → Fits 4 c
    → Fits 4 d
    → Fits 4 e
    → Fits 4 f
    → unpack_stats
        (word 4 a ++ (word 4 b ++ (word 4 c ++ (word 4 d ++ (word 4 e ++ (word 4 f ++ rest))))))
      ≡ some (
        record { st_mode = a; st_uid = b; st_gid = c; st_atime = d; st_mtime = e; st_ctime = f },
        rest,
      )
unfolding unpack_stats
unpack_stats_words a b c d e f rest ha hb hc hd he hf =
    let r₅ = word 4 f ++ rest in
    let r₄ = word 4 e ++ r₅ in
    let r₃ = word 4 d ++ r₄ in
    let r₂ = word 4 c ++ r₃ in
    let r₁ = word 4 b ++ r₂ in
    ground (
      arith,
      read-word 4 a r₁ ha,
      read-word 4 b r₂ hb,
      read-word 4 c r₃ hc,
      read-word 4 d r₄ hd,
      read-word 4 e r₅ he,
      read-word 4 f rest hf,
    )

pub unpack_stats-bufferstats :
    (st : Stats) (rest : Bytes)
    → FitsStats st
    → unpack_stats (bufferstats ilp32 st ++ rest) ≡ some (st, rest)
unpack_stats-bufferstats st rest h =
    ap unpack_stats (bufferstats-append st rest)
    ∙ unpack_stats_words st.st_mode st.st_uid st.st_gid st.st_atime st.st_mtime st.st_ctime rest h.0
        h.1 h.2 h.3 h.4 h.5
