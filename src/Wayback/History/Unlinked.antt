-- ===== src/Wayback/History/Unlinked.antt =====
-- What `ver_unlink` keeps of a regular file.
use mathlib.Core.List.{append_assoc}
use mathlib.Core.Path.{subst}
use reproduction.Base.{
  ◌<◌, ◌≡◌, ◌≢◌, ap, sym, ◌∙◌, List, [], ◌∷◌, ◌++◌, Option, none, some, true, false, length, arith,
  All, length-append,
}
use reproduction.Base.Int.{pos}
use reproduction.Base.Text.{Bytes, Lacks, str_eq-ne, str_eq_refl}
use reproduction.Libc.Os.{Os, Node, Kind, is_directory, put, unlink}
use reproduction.Wayback.Globals.{Globals, Host, ilp32}
use reproduction.Wayback.Words.{Fits}
use reproduction.Wayback.Log.{updateversion}
use reproduction.Wayback.Log.Entry.{entry_for, encode}
use reproduction.Wayback.Log.Appended.{logged, updateversion-logged}
use reproduction.Wayback.Names.{getdirectorycatalog, ends_with}
use reproduction.Wayback.Names.Free.{lstat_there}
use reproduction.Wayback.Names.Parts.{getdirectorycatalog-append}
use reproduction.Wayback.Names.Hidden.{ends_with-append}
use reproduction.Wayback.Catalog.{Action, updatedirectory}
use reproduction.Wayback.Catalog.Appended.{join, catalog_header, updatedirectory-logged}
use reproduction.Wayback.Callbacks.{ver_unlink, before_unlink}
use reproduction.Wayback.Tools.Directory.{readdirectory}
use reproduction.Wayback.Tools.Directory.Items.{Item, Readable, catalog_of, all_found}
use reproduction.Wayback.History.{contents_of}
use reproduction.Wayback.History.Catalogued.{item_of, readdirectory-logged}
use reproduction.Wayback.History.Performed.{longer, longer', grown}

module _ (host : Host) (globals : Globals) (dir name path : Bytes) (n : Node)
    (at : globals.redirectpath ++ path ≡ dir ++ b'/' ∷ name) where
  abbrev file : Bytes
  file = globals.redirectpath ++ path

  abbrev log : Bytes
  log = file ++ globals.versionmodifier

  abbrev catalog : Bytes
  catalog = dir ++ b'/' ∷ globals.versionmodifier

  unlink_there :
      (os : Os)
      → os.faults ≡ []
      → os.disk file ≡ some n
      → n.kind ≡ Kind.regular
      → unlink file os ≡ (true, record os { disk = put os.disk file none })
  unfolding unlink
  unlink_there os h e k = ground (arith, h, e, k)

  before_unlink_regular :
      (os os₁ : Os)
      → os.faults ≡ []
      → os.disk file ≡ some n
      → n.kind ≡ Kind.regular
      → updateversion host.sizes globals file 0 0 true os ≡ some (tt, os₁)
      → before_unlink host globals file os ≡ some ((host.stat_of file n, none), os₁)
  unfolding before_unlink
  before_unlink_regular os os₁ h e k u = ground (arith, lstat_there file n os h e, k, u)

  -- The calls of `ver_unlink` on a regular file, one behind the other.
  ver_unlink_run :
      (os os₁ os₂ : Os)
      → ends_with file globals.versionmodifier ≡ false
      → before_unlink host globals file os ≡ some ((host.stat_of file n, none), os₁)
      → unlink file os₁ ≡ (true, os₂)
      → (os₃ : Os)
      → updatedirectory host.sizes globals Action.rm file none (some (host.stat_of file n)) os₂
        ≡ some (tt, os₃)
      → ver_unlink host globals path os ≡ some (pos 0, os₃)
  unfolding ver_unlink
  ver_unlink_run os os₁ os₂ e b u os₃ c = ground (arith, e, b, u, c)

  catalog_other : ends_with file globals.versionmodifier ≡ false → catalog ≢ file
  catalog_other e p =
      let split : (dir ++ b'/' ∷ []) ++ globals.versionmodifier ≡ file =
        append_assoc dir (b'/' ∷ []) globals.versionmodifier ∙ p in
      let ends : ends_with file globals.versionmodifier ≡ true =
        subst (λ s. ends_with s globals.versionmodifier ≡ true) split
          (ends_with-append (dir ++ b'/' ∷ []) globals.versionmodifier) in
      ground (arith, e, ends)

  log_other : 0 < length name → catalog ≢ log
  log_other l p = omega (
    arith,
    ap length p,
    ap length at,
    length-append dir (b'/' ∷ globals.versionmodifier),
    length-append dir (b'/' ∷ name),
    length-append file globals.versionmodifier,
  )

  -- The disk behind the three changes.
  abbrev removed : Bytes → Bytes → Os → Os
  removed text entry os =
      logged catalog entry
        (record (logged log text os) { disk = put (logged log text os).disk file none })

  kept :
      (text entry : Bytes) (os : Os)
      → 0 < length globals.versionmodifier
      → catalog ≢ file
      → catalog ≢ log
      → ((removed text entry os).disk file ≡ none)
        × (contents_of ((removed text entry os).disk log) ≡ contents_of (os.disk log) ++ text)
        × ((record (logged log text os) { disk = put (logged log text os).disk file none }).disk
              catalog
            ≡ os.disk catalog)
        × ((logged log text os).disk file ≡ os.disk file)
  kept text entry os m cf cl =
      let fl = longer' file globals.versionmodifier m in
      let lf = longer file globals.versionmodifier m in
      let c₁ = str_eq-ne catalog file cf in
      let c₂ = str_eq-ne catalog log cl in
      let c₃ = str_eq-ne file catalog (λ p. cf (sym p)) in
      let c₄ = str_eq-ne log catalog (λ p. cl (sym p)) in
      let l = str_eq_refl log in
      let f = str_eq_refl file in
      (
        ground (arith, c₃, f),
        ground (arith, c₄, lf, l, (grown text (os.disk log)).0),
        ground (arith, c₁, c₂),
        ground (arith, fl),
      )

  -- `ver_unlink` of a regular file, with 32-bit types, removes the file, and keeps what brings it
  -- back: its log ends with an entry of all its contents, and the tools read from the catalog of its
  -- directory, behind the entries that it had, the removal with the file's name and stats. No call
  -- fails, the file is no log, the log and the catalog are no directories, the catalog is made of
  -- entries, the new entries can be read, the modifier
  -- is not empty, and the file is a name without slashes in a directory.
  pub ver_unlink-kept :
      (items : List Item) (os : Os)
      → os.faults ≡ []
      → os.disk file ≡ some n
      → n.kind ≡ Kind.regular
      → host.sizes ≡ ilp32
      → ends_with file globals.versionmodifier ≡ false
      → 0 < length globals.versionmodifier
      → 0 < length name
      → Lacks b'/' name
      → Fits 4 (length n.contents)
      → is_directory (os.disk log) ≡ false
      → is_directory (os.disk catalog) ≡ false
      → contents_of (os.disk catalog) ≡ catalog_of items
      → All Readable items
      → Readable (item_of os.now Action.rm file none (some (host.stat_of file n)))
      → (os' : Os) × (ver_unlink host globals path os ≡ some (pos 0, os'))
        × (os'.disk file ≡ none)
        × (contents_of (os'.disk log)
            ≡ contents_of (os.disk log) ++ encode ilp32 (entry_for os.now true 0 0 n.contents))
        × (readdirectory (contents_of (os'.disk catalog))
            ≡ some (
                all_found
                  (items ++ item_of os.now Action.rm file none (some (host.stat_of file n)) ∷ [])))
  ver_unlink-kept items os h e k sizes ends m l lacks fits d₁ d₂ c readable r =
      let stats = host.stat_of file n in
      let text = encode ilp32 (entry_for os.now true 0 0 n.contents) in
      let ps = r.0.0 in
      let entry = catalog_header ilp32 os.now Action.rm ++ join ps in
      let os₁ = logged log text os in
      let os₂ = record os₁ { disk = put os₁.disk file none } in
      let (gone, grew, same, stays) = kept text entry os m (catalog_other ends) (log_other l) in
      let found : getdirectorycatalog globals file os₂ ≡ some (some catalog, os₂) =
        ap (λ s. getdirectorycatalog globals s os₂) at
        ∙ (getdirectorycatalog-append globals dir name os₂ l lacks).0 in
      let saves : updateversion host.sizes globals file 0 0 true os ≡ some (tt, os₁) =
        ap (λ z. updateversion z globals file 0 0 true os) sizes
        ∙ updateversion-logged ilp32 globals file 0 0 true n os h e d₁ fits in
      let catalogs : updatedirectory host.sizes globals Action.rm file none (some stats) os₂
          ≡ some (tt, logged catalog entry os₂) =
        ap (λ z. updatedirectory z globals Action.rm file none (some stats) os₂) sizes
        ∙ updatedirectory-logged ilp32 globals Action.rm file catalog none (some stats) os₂ h found
            (ap is_directory same ∙ d₂)
        ∙ ap
            (λ (o : Option (List Bytes)). elim o as (λ x. Option (Unit {0} × Os)) [
              | none ↦ none
              | some qs ↦
                  some (tt, logged catalog (catalog_header ilp32 os.now Action.rm ++ join qs) os₂)
            ])
            (r.0.1) in
      (
        logged catalog entry os₂,
        ver_unlink_run os os₁ os₂ ends (before_unlink_regular os os₁ h e k saves)
            (unlink_there os₁ h (stays ∙ e) k) (logged catalog entry os₂) catalogs,
        gone,
        grew,
        readdirectory-logged Action.rm file catalog none (some stats) ps items os.now os₂
            (ap contents_of same ∙ c) readable r (r.0.1),
      )
