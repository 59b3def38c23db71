-- ===== src/Wayback/Catalog/Payload.antt =====
-- The data of an entry of a catalog, behind its length, with 32-bit types.
use mathlib.Core.List.{append-nil}
use reproduction.Base.{
  ℕ, ◌+◌, ◌≡◌, refl, ap, sym, ◌∙◌, subst⁻¹, inl, inr, List, [], ◌∷◌, ◌++◌, Option, none, some, true,
  false, if◌then◌else◌, length, arith, length-append, Bool-cases,
}
use reproduction.Base.Text.{Bytes}
use reproduction.Wayback.Globals.{Sizes, Stats, ilp32}
use reproduction.Wayback.Words.{word}
use reproduction.Wayback.Catalog.{Action, bufferstats, zstring, is_link, pieces}
use reproduction.Wayback.Catalog.Appended.{join}

abbrev pub or_empty : Option Bytes → Bytes
or_empty none = []
or_empty (some s) = s

-- The data of an entry, behind its length.
unfoldable pub payload : Sizes → Action → Bytes → Option Bytes → Option Stats → Bytes
payload sizes Action.create path extra stats = zstring path
payload sizes Action.mkdir path extra stats = zstring path
payload sizes Action.rm path extra none = []
payload sizes Action.rm path extra (some st) =
    bufferstats sizes st
    ++ (zstring path ++ (if is_link st.st_mode then zstring (or_empty extra) else []))
payload sizes Action.rmdir path extra stats = zstring path ++ zstring (or_empty extra)
payload sizes Action.rename path extra stats = zstring path ++ zstring (or_empty extra)
payload sizes action path extra none = []
payload sizes action path extra (some st) = bufferstats sizes st ++ zstring path

-- The pieces of an entry, behind a length that is right.
joined :
    (n : ℕ) (ps' ps : List Bytes) (p : Bytes)
    → some (word 4 n ∷ ps') ≡ some ps
    → n ≡ length p
    → join ps' ≡ p
    → join ps ≡ word 4 (length p) ++ p
unfolding join
joined n ps' ps p h l e =
    let first : word 4 n ∷ ps' ≡ ps = ground (arith, h) in
    ap join (sym first) ∙ ap (λ s. word 4 n ++ s) e ∙ ap (λ k. word 4 k ++ p) l

pub length-zstring : (s : Bytes) → length (zstring s) ≡ length s + 1
length-zstring s = length-append s (0 ∷ [])

join_one : (s : Bytes) → join (s ∷ []) ≡ s
unfolding join
join_one s = append-nil s

join_two : (s t : Bytes) → join (s ∷ t ∷ []) ≡ s ++ t
unfolding join
join_two s t = ap (λ r. s ++ r) (append-nil t)

join_three : (s t u : Bytes) → join (s ∷ t ∷ u ∷ []) ≡ s ++ (t ++ u)
unfolding join
join_three s t u = ap (λ r. s ++ (t ++ r)) (append-nil u)

two_lem :
    (path extra : Bytes) → length path + length extra + 2 ≡ length (zstring path ++ zstring extra)
two_lem path extra =
    omega (
      arith,
      length-append (zstring path) (zstring extra),
      length-zstring path,
      length-zstring extra,
    )

stats_lem :
    (st : Stats) (path : Bytes)
    → length (bufferstats ilp32 st) + (length path + 1)
      ≡ length (bufferstats ilp32 st ++ zstring path)
stats_lem st path =
    omega (arith, length-append (bufferstats ilp32 st) (zstring path), length-zstring path)

removed_lem :
    (st : Stats) (path extra : Bytes)
    → length (bufferstats ilp32 st) + (length path + 1) + (length extra + 1)
      ≡ length (bufferstats ilp32 st ++ (zstring path ++ zstring extra))
removed_lem st path extra = omega (
  arith,
  length-append (bufferstats ilp32 st) (zstring path ++ zstring extra),
  length-append (zstring path) (zstring extra),
  length-zstring path,
  length-zstring extra,
)

pub payload_link :
    (path : Bytes) (extra : Option Bytes) (st : Stats)
    → is_link st.st_mode ≡ true
    → payload ilp32 Action.rm path extra (some st)
      ≡ bufferstats ilp32 st ++ (zstring path ++ zstring (or_empty extra))
unfolding payload
payload_link path extra st e =
    ap (λ b. bufferstats ilp32 st ++ (zstring path ++ (if b then zstring (or_empty extra) else [])))
      e

pub payload_file :
    (path : Bytes) (extra : Option Bytes) (st : Stats)
    → is_link st.st_mode ≡ false
    → payload ilp32 Action.rm path extra (some st) ≡ bufferstats ilp32 st ++ zstring path
unfolding payload
payload_file path extra st e =
    ap (λ b. bufferstats ilp32 st ++ (zstring path ++ (if b then zstring (or_empty extra) else [])))
      e
    ∙ ap (λ s. bufferstats ilp32 st ++ s) (append-nil (zstring path))

abbrev file_pieces : Bytes → Stats → List Bytes
file_pieces path st =
    word 4 (length (bufferstats ilp32 st) + (length path + 1))
    ∷ bufferstats ilp32 st
    ∷ zstring path
    ∷ []

abbrev link_pieces : Bytes → Bytes → Stats → List Bytes
link_pieces path extra st =
    word 4 (length (bufferstats ilp32 st) + (length path + 1) + (length extra + 1))
    ∷ bufferstats ilp32 st
    ∷ zstring path
    ∷ zstring extra
    ∷ []

pieces_without :
    (path : Bytes) (st : Stats)
    → pieces ilp32 Action.rm path none (some st)
      ≡ (if is_link st.st_mode then none else some (file_pieces path st))
unfolding pieces
pieces_without path st = refl

pieces_with :
    (path extra : Bytes) (st : Stats)
    → pieces ilp32 Action.rm path (some extra) (some st) ≡ (
        if is_link st.st_mode then some (link_pieces path extra st) else some (file_pieces path st))
unfolding pieces
pieces_with path extra st = refl

join-file :
    (path : Bytes) (extra : Option Bytes) (st : Stats) (ps : List Bytes)
    → is_link st.st_mode ≡ false
    → some (file_pieces path st) ≡ some ps
    → join ps
      ≡ word 4 (length (payload ilp32 Action.rm path extra (some st)))
        ++ payload ilp32 Action.rm path extra (some st)
join-file path extra st ps e h =
    subst⁻¹ (λ p. join ps ≡ word 4 (length p) ++ p) (payload_file path extra st e)
      (joined (length (bufferstats ilp32 st) + (length path + 1))
        (bufferstats ilp32 st ∷ zstring path ∷ []) ps (bufferstats ilp32 st ++ zstring path) h
        (stats_lem st path) (join_two (bufferstats ilp32 st) (zstring path)))

removed-pieces :
    (path : Bytes) (extra : Option Bytes) (st : Stats) (ps : List Bytes)
    → pieces ilp32 Action.rm path extra (some st) ≡ some ps
    → join ps
      ≡ word 4 (length (payload ilp32 Action.rm path extra (some st)))
        ++ payload ilp32 Action.rm path extra (some st)
removed-pieces path none st ps h = elim (Bool-cases (is_link st.st_mode)) [
  | inl e ↦ ground (arith, h, pieces_without path st, e)
  | inr e ↦ join-file path none st ps e (
      ap (λ b. if b then none else some (file_pieces path st)) (sym e)
      ∙ sym (pieces_without path st)
      ∙ h)
]
removed-pieces path (some extra) st ps h = elim (Bool-cases (is_link st.st_mode)) [
  | inl e ↦
      let h' : some (link_pieces path extra st) ≡ some ps =
        ap (λ b. if b then some (link_pieces path extra st) else some (file_pieces path st)) (sym e)
        ∙ sym (pieces_with path extra st)
        ∙ h in
      subst⁻¹ (λ p. join ps ≡ word 4 (length p) ++ p) (payload_link path (some extra) st e)
        (joined (length (bufferstats ilp32 st) + (length path + 1) + (length extra + 1))
          (bufferstats ilp32 st ∷ zstring path ∷ zstring extra ∷ []) ps
          (bufferstats ilp32 st ++ (zstring path ++ zstring extra)) h' (removed_lem st path extra)
          (join_three (bufferstats ilp32 st) (zstring path) (zstring extra)))
  | inr e ↦ join-file path (some extra) st ps e (
      ap (λ b. if b then some (link_pieces path extra st) else some (file_pieces path st)) (sym e)
      ∙ sym (pieces_with path extra st)
      ∙ h)
]

pub join-pieces :
    (action : Action) (path : Bytes) (extra : Option Bytes) (stats : Option Stats) (ps : List Bytes)
    → pieces ilp32 action path extra stats ≡ some ps
    → join ps
      ≡ word 4 (length (payload ilp32 action path extra stats))
        ++ payload ilp32 action path extra stats
unfolding pieces payload
join-pieces Action.create path extra stats ps h =
    joined (length path + 1) (zstring path ∷ []) ps (zstring path) h (sym (length-zstring path))
      (join_one (zstring path))
join-pieces Action.mkdir path extra stats ps h =
    joined (length path + 1) (zstring path ∷ []) ps (zstring path) h (sym (length-zstring path))
      (join_one (zstring path))
join-pieces Action.rm path extra none ps h = ground (arith, h)
join-pieces Action.rm path extra (some st) ps h = removed-pieces path extra st ps h
join-pieces Action.rmdir path none stats ps h = ground (arith, h)
join-pieces Action.rmdir path (some extra) stats ps h =
    joined (length path + length extra + 2) (zstring path ∷ zstring extra ∷ []) ps
      (zstring path ++ zstring extra) h (two_lem path extra)
      (join_two (zstring path) (zstring extra))
join-pieces Action.rename path none stats ps h = ground (arith, h)
join-pieces Action.rename path (some extra) stats ps h =
    joined (length path + length extra + 2) (zstring path ∷ zstring extra ∷ []) ps
      (zstring path ++ zstring extra) h (two_lem path extra)
      (join_two (zstring path) (zstring extra))
join-pieces Action.chmod path extra none ps h = ground (arith, h)
join-pieces Action.chmod path extra (some st) ps h =
    joined (length (bufferstats ilp32 st) + (length path + 1))
      (bufferstats ilp32 st ∷ zstring path ∷ []) ps (bufferstats ilp32 st ++ zstring path) h
      (stats_lem st path) (join_two (bufferstats ilp32 st) (zstring path))
join-pieces Action.chown path extra none ps h = ground (arith, h)
join-pieces Action.chown path extra (some st) ps h =
    joined (length (bufferstats ilp32 st) + (length path + 1))
      (bufferstats ilp32 st ∷ zstring path ∷ []) ps (bufferstats ilp32 st ++ zstring path) h
      (stats_lem st path) (join_two (bufferstats ilp32 st) (zstring path))
join-pieces Action.utime path extra none ps h = ground (arith, h)
join-pieces Action.utime path extra (some st) ps h =
    joined (length (bufferstats ilp32 st) + (length path + 1))
      (bufferstats ilp32 st ∷ zstring path ∷ []) ps (bufferstats ilp32 st ++ zstring path) h
      (stats_lem st path) (join_two (bufferstats ilp32 st) (zstring path))
