-- ===== src/Wayback/Tools/Directory/Unpack.antt =====
-- What the tools find in the data of one entry of a catalog.
use mathlib.Core.List.{append-nil}
use reproduction.Base.{
  ℕ, ◌%◌, ◌≡◌, refl, ap, sym, ◌∙◌, inl, inr, List, [], ◌++◌, Option, none, some, ◌==◌,
  if◌then◌else◌, arith, Bool-cases,
}
use reproduction.Base.Text.{Bytes, Lacks}
use reproduction.Wayback.Globals.{Stats, ilp32}
use reproduction.Wayback.Catalog.{Action, code_of, bufferstats, zstring, is_link, pieces}
use reproduction.Wayback.Catalog.Payload.{or_empty, payload, payload_link, payload_file}
use reproduction.Wayback.Tools.Directory.{unpack_string, unpack_stats, unpack_entry}
use reproduction.Wayback.Tools.Directory.Fields.{
  FitsStats, unpack_string-zstring, unpack_stats-bufferstats,
}

-- What the tools are to find in an entry.
abbrev pub kept_stats : Action → Option Stats → Option Stats
kept_stats Action.rm stats = stats
kept_stats Action.chmod stats = stats
kept_stats Action.chown stats = stats
kept_stats Action.utime stats = stats
kept_stats action stats = none

abbrev pub kept_extra : Action → Option Bytes → Option Stats → Bytes
kept_extra Action.rm extra none = []
kept_extra Action.rm extra (some st) = if is_link st.st_mode then or_empty extra else []
kept_extra Action.rmdir extra stats = or_empty extra
kept_extra Action.rename extra stats = or_empty extra
kept_extra action extra stats = []

-- The numbers fit, and the mode of a symbolic link is odd, as 0777 is.
abbrev pub FitsOption : Option Stats → Type 0
FitsOption none = Unit
FitsOption (some st) = FitsStats st × ((if is_link st.st_mode then st.st_mode % 2 else 1) ≡ 1)

-- The branches of `unpack_entry`.
abbrev Unpacked : Type 0
Unpacked = Option (Option Stats × (Bytes × Bytes))

one_name : Bytes × Bytes → Unpacked
one_name (file1, rest) = some (none, (file1, []))

two_names : Bytes × Bytes → Unpacked
two_names (file1, rest) = some (none, (file1, (unpack_string rest).0))

stats_and_name : Option (Stats × Bytes) → Unpacked
stats_and_name none = none
stats_and_name (some (st, rest)) = some (some st, ((unpack_string rest).0, []))

link_names : Stats → Bytes × Bytes → Unpacked
link_names st (file1, rest) =
    some (some st, (file1, if st.st_mode % 2 == 1 then (unpack_string rest).0 else []))

stats_and_names : Option (Stats × Bytes) → Unpacked
stats_and_names none = none
stats_and_names (some (st, rest)) = link_names st (unpack_string rest)

unpack_entry-branches :
    (text : Bytes)
    → (unpack_entry 1 text ≡ one_name (unpack_string text))
      × (unpack_entry 4 text ≡ one_name (unpack_string text))
      × (unpack_entry 5 text ≡ two_names (unpack_string text))
      × (unpack_entry 8 text ≡ two_names (unpack_string text))
      × (unpack_entry 12 text ≡ stats_and_name (unpack_stats text))
      × (unpack_entry 13 text ≡ stats_and_name (unpack_stats text))
      × (unpack_entry 14 text ≡ stats_and_name (unpack_stats text))
      × (unpack_entry 2 text ≡ stats_and_names (unpack_stats text))
unfolding unpack_entry one_name two_names stats_and_name stats_and_names link_names
unpack_entry-branches text = (refl, refl, refl, refl, refl, refl, refl, refl)

unpack_zstring : (s : Bytes) → Lacks 0 s → unpack_string (zstring s) ≡ (s, [])
unpack_zstring s h = ap unpack_string (sym (append-nil (zstring s))) ∙ unpack_string-zstring s [] h

unpack_one :
    (action : ℕ) (path : Bytes)
    → unpack_entry action (zstring path) ≡ one_name (unpack_string (zstring path))
    → Lacks 0 path
    → unpack_entry action (zstring path) ≡ some (none, (path, []))
unfolding one_name
unpack_one action path e h = e ∙ ap one_name (unpack_zstring path h)

unpack_two :
    (action : ℕ) (path extra : Bytes)
    → unpack_entry action (zstring path ++ zstring extra)
      ≡ two_names (unpack_string (zstring path ++ zstring extra))
    → Lacks 0 path
    → Lacks 0 extra
    → unpack_entry action (zstring path ++ zstring extra) ≡ some (none, (path, extra))
unfolding two_names
unpack_two action path extra e h k =
    e
    ∙ ap two_names (unpack_string-zstring path (zstring extra) h)
    ∙ ap (λ r. some (none, (path, r.0))) (unpack_zstring extra k)

unpack_attributes :
    (action : ℕ) (path : Bytes) (st : Stats)
    → unpack_entry action (bufferstats ilp32 st ++ zstring path)
      ≡ stats_and_name (unpack_stats (bufferstats ilp32 st ++ zstring path))
    → Lacks 0 path
    → FitsStats st
    → unpack_entry action (bufferstats ilp32 st ++ zstring path) ≡ some (some st, (path, []))
unfolding stats_and_name
unpack_attributes action path st e h f =
    e
    ∙ ap stats_and_name (unpack_stats-bufferstats st (zstring path) f)
    ∙ ap (λ r. some (some st, (r.0, []))) (unpack_zstring path h)

empty_string : (unpack_string []).0 ≡ []
unfolding unpack_string
empty_string = refl

unpack_file :
    (path : Bytes) (st : Stats)
    → Lacks 0 path
    → FitsStats st
    → unpack_entry 2 (bufferstats ilp32 st ++ zstring path) ≡ some (some st, (path, []))
unfolding stats_and_names link_names
unpack_file path st h f =
    (unpack_entry-branches (bufferstats ilp32 st ++ zstring path)).7
    ∙ ap stats_and_names (unpack_stats-bufferstats st (zstring path) f)
    ∙ ap (link_names st) (unpack_zstring path h)
    ∙ ap (λ s. some (some st, (path, if st.st_mode % 2 == 1 then s else []))) empty_string
    ∙ ground arith

unpack_link :
    (path extra : Bytes) (st : Stats)
    → st.st_mode % 2 ≡ 1
    → Lacks 0 path
    → Lacks 0 extra
    → FitsStats st
    → unpack_entry 2 (bufferstats ilp32 st ++ (zstring path ++ zstring extra))
      ≡ some (some st, (path, extra))
unfolding stats_and_names link_names
unpack_link path extra st odd h k f =
    (unpack_entry-branches (bufferstats ilp32 st ++ (zstring path ++ zstring extra))).7
    ∙ ap stats_and_names (unpack_stats-bufferstats st (zstring path ++ zstring extra) f)
    ∙ ap (link_names st) (unpack_string-zstring path (zstring extra) h)
    ∙ ap (λ r. some (some st, (path, if st.st_mode % 2 == 1 then r.0 else [])))
        (unpack_zstring extra k)
    ∙ ground (arith, odd)

unpack_removed :
    (path : Bytes) (extra : Option Bytes) (st : Stats)
    → Lacks 0 path
    → Lacks 0 (or_empty extra)
    → FitsOption (some st)
    → unpack_entry 2 (payload ilp32 Action.rm path extra (some st))
      ≡ some (some st, (path, kept_extra Action.rm extra (some st)))
unpack_removed path extra st h k f = elim (Bool-cases (is_link st.st_mode)) [
  | inl e ↦
      ap (unpack_entry 2) (payload_link path extra st e)
      ∙ unpack_link path (or_empty extra) st
          (ap (λ b. if b then st.st_mode % 2 else 1) (sym e) ∙ f.1) h k f.0
      ∙ ap (λ b. some (some st, (path, if b then or_empty extra else []))) (sym e)
  | inr e ↦
      ap (unpack_entry 2) (payload_file path extra st e)
      ∙ unpack_file path st h f.0
      ∙ ap (λ b. some (some st, (path, if b then or_empty extra else []))) (sym e)
]

pub unpack_entry-payload :
    (action : Action) (path : Bytes) (extra : Option Bytes) (stats : Option Stats) (ps : List Bytes)
    → pieces ilp32 action path extra stats ≡ some ps
    → Lacks 0 path
    → Lacks 0 (or_empty extra)
    → FitsOption stats
    → unpack_entry (code_of action) (payload ilp32 action path extra stats)
      ≡ some (kept_stats action stats, (path, kept_extra action extra stats))
unfolding payload pieces
unpack_entry-payload Action.create path extra stats ps e h k f =
    unpack_one 1 path (unpack_entry-branches (zstring path)).0 h
unpack_entry-payload Action.mkdir path extra stats ps e h k f =
    unpack_one 4 path (unpack_entry-branches (zstring path)).1 h
unpack_entry-payload Action.rm path extra none ps e h k f = ground (arith, e)
unpack_entry-payload Action.rm path extra (some st) ps e h k f = unpack_removed path extra st h k f
unpack_entry-payload Action.rmdir path extra stats ps e h k f =
    unpack_two 5 path (or_empty extra)
      (unpack_entry-branches (zstring path ++ zstring (or_empty extra))).2 h k
unpack_entry-payload Action.rename path extra stats ps e h k f =
    unpack_two 8 path (or_empty extra)
      (unpack_entry-branches (zstring path ++ zstring (or_empty extra))).3 h k
unpack_entry-payload Action.chmod path extra none ps e h k f = ground (arith, e)
unpack_entry-payload Action.chmod path extra (some st) ps e h k f =
    unpack_attributes 12 path st (unpack_entry-branches (bufferstats ilp32 st ++ zstring path)).4 h
      f.0
unpack_entry-payload Action.chown path extra none ps e h k f = ground (arith, e)
unpack_entry-payload Action.chown path extra (some st) ps e h k f =
    unpack_attributes 13 path st (unpack_entry-branches (bufferstats ilp32 st ++ zstring path)).5 h
      f.0
unpack_entry-payload Action.utime path extra none ps e h k f = ground (arith, e)
unpack_entry-payload Action.utime path extra (some st) ps e h k f =
    unpack_attributes 14 path st (unpack_entry-branches (bufferstats ilp32 st ++ zstring path)).6 h
      f.0
