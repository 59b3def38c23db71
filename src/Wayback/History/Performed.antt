-- ===== src/Wayback/History/Performed.antt =====
-- The calls of a history do what the history says, and the log grows by its entries.
use mathlib.Core.List.{append_assoc, append-nil}
use reproduction.Base.{
  ℕ, ◌<◌, ◌≡◌, refl, ap, sym, ◌∙◌, List, [], ◌∷◌, ◌++◌, Option, none, some, true, false, length,
  arith, length-append,
}
use reproduction.Base.Int.{ℤ, pos}
use reproduction.Base.Text.{Bytes, str_eq, str_eq-ne, str_eq_refl}
use reproduction.Libc.Os.{Os, Node, is_directory, put, extended}
use reproduction.Libc.Os.Access.{pwrite, truncate}
use reproduction.Libc.Os.Stdio.{opened}
use reproduction.Wayback.Globals.{Globals, Host}
use reproduction.Wayback.Log.Entry.{encode}
use reproduction.Wayback.Log.Appended.{logged, updateversion-logged}
use reproduction.Wayback.Callbacks.{ver_write, ver_truncate}
use reproduction.Wayback.Tools.ReadFile.{FitsEntry, encode_all}
use reproduction.Wayback.History.{
  Change, Event, changed, entry_of, contents_after, entries_of, Fit, results_of, call_of, perform,
  contents_of, Holds,
}

-- A path with something behind it is another path.
pub longer : (a b : Bytes) → 0 < length b → str_eq (a ++ b) a ≡ false
longer a b h = str_eq-ne (a ++ b) a (λ p. omega (arith, ap length p, length-append a b))

pub longer' : (a b : Bytes) → 0 < length b → str_eq a (a ++ b) ≡ false
longer' a b h = str_eq-ne a (a ++ b) (λ p. omega (arith, ap length p, length-append a b))

-- A log behind an entry, made if it was not there.
pub grown :
    (text : Bytes) (m : Option Node)
    → (contents_of (extended text (some (opened m))) ≡ contents_of m ++ text)
      × (is_directory m ≡ false → is_directory (extended text (some (opened m))) ≡ false)
grown text none = (refl, λ _. refl)
grown text (some n) = (refl, λ d. d)

abbrev outcome : Change → ℤ
outcome (Change.written offset b buf) = pos (length (b ∷ buf))
outcome (Change.truncated size) = pos 0

result_first :
    (time : ℕ) (change : Change) (events : List Event)
    → outcome change ∷ results_of events ≡ results_of ((time, change) ∷ events)
unfolding results_of
result_first time (Change.written offset b buf) events = refl
result_first time (Change.truncated size) events = refl

module _ (host : Host) (globals : Globals) (path : Bytes)
    (named : 0 < length globals.versionmodifier) where
  abbrev file : Bytes
  file = globals.redirectpath ++ path

  abbrev log : Bytes
  log = file ++ globals.versionmodifier

  -- The disk behind an entry, with a change of the file.
  logged-Holds :
      (n : Node) (s t entries text : Bytes) (os : Os)
      → Holds file log n s entries os
      → Holds file log n t (entries ++ text) (record (logged log text os) {
        disk = put (logged log text os).disk file (some (record n { contents = t }));
      })
  logged-Holds n s t entries text os h =
      let p = str_eq_refl file in
      let l = str_eq_refl log in
      let fl = longer' file globals.versionmodifier named in
      let lf = longer file globals.versionmodifier named in
      ground (arith, h, p, l, fl, lf, grown text (os.disk log))

  abbrev after : Node → Bytes → Bytes → Os → Os
  after n t text os = record (logged log text os) {
    disk = put (logged log text os).disk file (some (record n { contents = t }));
  }

  file_kept :
      (n : Node) (s entries text : Bytes) (os : Os)
      → Holds file log n s entries os
      → (logged log text os).disk file ≡ some (record n { contents = s })
  file_kept n s entries text os h =
      let fl = longer' file globals.versionmodifier named in ground (arith, h, fl)

  perform_lem :
      (n : Node) (s entries : Bytes) (time : ℕ) (change : Change) (os : Os)
      → Holds file log n s entries os
      → FitsEntry host.sizes (entry_of time change s)
      → call_of host globals path change (record os { now = time })
        ≡ some (
          outcome change,
          after n
              (changed change s)
              (encode host.sizes (entry_of time change s))
              (record os { now = time }),
        )
  unfolding ver_write ver_truncate pwrite truncate
  perform_lem n s entries time (Change.written offset b buf) os h fits =
      let os₀ = record os { now = time } in
      let e = entry_of time (Change.written offset b buf) s in
      let kept = file_kept n s entries (encode host.sizes e) os₀ h in
      let appended =
        updateversion-logged host.sizes globals file (length (b ∷ buf)) offset false
          (record n { contents = s }) os₀ h.0 h.1 h.3 fits.2 in
      ground (arith, h, appended, kept)
  perform_lem n s entries time (Change.truncated size) os h fits =
      let os₀ = record os { now = time } in
      let e = entry_of time (Change.truncated size) s in
      let kept = file_kept n s entries (encode host.sizes e) os₀ h in
      let appended =
        updateversion-logged host.sizes globals file 0 size true (record n { contents = s }) os₀ h.0
          h.1 h.3 fits.2 in
      ground (arith, h, appended, kept)

  perform-step :
      (time : ℕ) (change : Change) (events : List Event) (os os₁ : Os) (result : ℤ)
      (results : List ℤ) (os' : Os)
      → call_of host globals path change (record os { now = time }) ≡ some (result, os₁)
      → perform host globals path events os₁ ≡ some (results, os')
      → perform host globals path ((time, change) ∷ events) os ≡ some (result ∷ results, os')
  unfolding perform
  perform-step time change events os os₁ result results os' e es = ground (arith, e, es)

  -- The calls of a history succeed with their results, the file has the contents that the history
  -- gives it, and the log has grown by the entries of the history, oldest first: for a file that
  -- can be read, a log that is no directory and has another name, no failing call, and numbers that fit
  -- into the types.
  pub perform-Holds :
      (n : Node) (s entries : Bytes) (events : List Event) (os : Os)
      → Holds file log n s entries os
      → Fit host.sizes events s
      → (os' : Os) × (perform host globals path events os ≡ some (results_of events, os'))
        × Holds file log n
            (contents_after events s)
            (entries ++ encode_all host.sizes (entries_of events s))
            os'
  unfolding perform contents_after entries_of encode_all results_of
  perform-Holds n s entries [] os h fit =
      (os, refl, (h.0, h.1, h.2 ∙ sym (append-nil entries), h.3))
  perform-Holds n s entries ((time, change) ∷ events) os h fit =
      let os₀ = record os { now = time } in
      let text = encode host.sizes (entry_of time change s) in
      let os₁ = after n (changed change s) text os₀ in
      let (os', done, end) =
        perform-Holds n (changed change s) (entries ++ text) events os₁
          (logged-Holds n s (changed change s) entries text os₀ h) fit.1 in
      (
        os',
        perform-step time change events os os₁ (outcome change) (results_of events) os'
              (perform_lem n s entries time change os h fit.0) done
            ∙ ap (λ r. some (r, os')) (result_first time change events),
        (
          end.0,
          end.1,
          end.2
              ∙ append_assoc entries text
                  (encode_all host.sizes (entries_of events (changed change s))),
          end.3,
        ),
      )
