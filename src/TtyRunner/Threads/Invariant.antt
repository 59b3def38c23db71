-- ===== src/TtyRunner/Threads/Invariant.antt =====
-- What holds in every state that the four threads can reach.
use reproduction.Base.{
  ℕ, ◌+◌, ◌≡◌, refl, ap, ◌∙◌, ◌⊎◌, inl, inr, List, [], ◌∷◌, ◌++◌, none, some, Bool, true, false,
  ◌==◌, ◌||◌, arith,
}
use reproduction.Base.Text.{Bytes}
use reproduction.Libc.Text.{strip_prefix}
use reproduction.TtyRunner.Args.{Arg}
use reproduction.TtyRunner.Threads.{
  string_contains, is_some, Shared, PtyPc, KillerPc, ExecutorPc, network_ok, newline_text,
  reboot_text,
}

-- What is to be typed: each command and a newline, and then the reboot.
unfoldable pub script : List Bytes → Bytes
script [] = reboot_text
script (cmd ∷ cmds) = (cmd ++ newline_text) ++ script cmds

-- The bytes that were handed to TIOCSTI, whether it took them or not.
unfoldable pub keys : List (ℕ × Bool) → Bytes
keys [] = []
keys ((ch, taken) ∷ typed) = ch ∷ keys typed

-- Those that it took, which are what the terminal gets.
unfoldable pub received : List (ℕ × Bool) → Bytes
received [] = []
received ((ch, true) ∷ typed) = ch ∷ received typed
received ((ch, false) ∷ typed) = received typed

-- How many it refused.
unfoldable pub refused : List (ℕ × Bool) → ℕ
refused [] = 0
refused ((ch, true) ∷ typed) = refused typed
refused ((ch, false) ∷ typed) = 1 + refused typed

-- A text is what is left of another one where so many of its bytes are left out.
pub data Without : ℕ → Bytes → Bytes → Type 0 where
  done : Without 0 [] []
  kept : {n : ℕ} {t s : Bytes} (c : ℕ) → Without n t s → Without n (c ∷ t) (c ∷ s)
  left_out : {n : ℕ} {t s : Bytes} (c : ℕ) → Without n t s → Without (1 + n) t (c ∷ s)

pub received-Without :
    (typed : List (ℕ × Bool)) → Without (refused typed) (received typed) (keys typed)
unfolding keys received refused
received-Without [] = done
received-Without ((ch, true) ∷ typed) = kept ch (received-Without typed)
received-Without ((ch, false) ∷ typed) = left_out ch (received-Without typed)

pub keys-append :
    (typed : List (ℕ × Bool)) (ch : ℕ) (taken : Bool)
    → keys (typed ++ ((ch, taken) ∷ [])) ≡ keys typed ++ (ch ∷ [])
unfolding keys
keys-append [] ch taken = refl
keys-append ((c, t) ∷ typed) ch taken = ap (◌∷◌ c) (keys-append typed ch taken)

unfoldable pub has : ℕ → List ℕ → Bool
has n [] = false
has n (m ∷ ms) = n == m || has n ms

is_some-append :
    (other a b : Bytes)
    → is_some (strip_prefix other a) ≡ true
    → is_some (strip_prefix other (a ++ b)) ≡ true
unfolding strip_prefix
is_some-append [] a b h = refl
is_some-append (p ∷ other) [] b h = cc
is_some-append (p ∷ other) (c ∷ a) b h = ground (arith, h, is_some-append other a b)

contains-nothing : (s : Bytes) → string_contains s [] ≡ true
unfolding string_contains strip_prefix
contains-nothing [] = refl
contains-nothing (c ∷ s) = refl

-- Output that is there stays there.
pub contains-append :
    (a b other : Bytes) → string_contains a other ≡ true → string_contains (a ++ b) other ≡ true
unfolding string_contains strip_prefix
contains-append [] b [] h = contains-nothing b
contains-append [] b (p ∷ other) h = cc
contains-append (c ∷ a) b other h =
    ground (arith, h, is_some-append other (c ∷ a) b, contains-append a b other)

abbrev pub Booted : Shared → Type 0
Booted m = string_contains m.tty_output network_ok ≡ true

abbrev pub PtyOk : Shared → PtyPc → Type 0
PtyOk m PtyPc.opening = (m.tty_launched ≡ false) × (m.pty_slave_fd ≡ none)
PtyOk m (PtyPc.launching master slave) = (m.tty_launched ≡ false) × (m.pty_slave_fd ≡ none)
PtyOk m (PtyPc.publishing master slave) = (m.tty_launched ≡ true) × (m.pty_slave_fd ≡ none)
PtyOk m (PtyPc.reading master slave) = (m.tty_launched ≡ true) × (m.pty_slave_fd ≡ some slave)
PtyOk m (PtyPc.stopping master slave) = (m.tty_launched ≡ true) × (m.pty_slave_fd ≡ some slave)
PtyOk m (PtyPc.destroying master slave) = (m.tty_launched ≡ true) × (m.pty_slave_fd ≡ some slave)
PtyOk m PtyPc.finished = (m.tty_launched ≡ true) × ((slave : ℕ) × (m.pty_slave_fd ≡ some slave))

abbrev pub KillerOk : Shared → KillerPc → Type 0
KillerOk m KillerPc.waiting = Unit
KillerOk m KillerPc.quit_waiting = m.tty_launched ≡ true
KillerOk m KillerPc.closing = (m.tty_launched ≡ true) × (m.quit ≡ true)
KillerOk m KillerPc.finished =
    (m.quit ≡ true) × ((slave : ℕ) × (m.pty_slave_fd ≡ some slave) × (has slave m.closed ≡ true))

abbrev pub ExecutorOk : Arg → Shared → ExecutorPc → Type 0
ExecutorOk args m ExecutorPc.waiting = m.typed ≡ []
ExecutorOk args m ExecutorPc.watching = m.typed ≡ []
ExecutorOk args m ExecutorPc.looked = m.typed ≡ []
ExecutorOk args m ExecutorPc.left = (m.typed ≡ []) × ((m.quit ≡ true) ⊎ Booted m)
ExecutorOk args m (ExecutorPc.executing cmds command) =
    Booted m × (keys m.typed ++ (command ++ script cmds) ≡ script args.commands)
ExecutorOk args m (ExecutorPc.rebooting command) =
    Booted m × (keys m.typed ++ command ≡ script args.commands)
ExecutorOk args m ExecutorPc.stopping = Booted m × (keys m.typed ≡ script args.commands)
ExecutorOk args m ExecutorPc.finished =
    (m.quit ≡ true) × ((m.typed ≡ []) ⊎ (Booted m × (keys m.typed ≡ script args.commands)))

-- What the steps of one thread leave for the others: what has become true stays true.
pub record Grows (m m' : Shared) : Type 0 where
  pub quit : m.quit ≡ true → m'.quit ≡ true
  pub launch : m.tty_launched ≡ true → m'.tty_launched ≡ true
  pub slave : (n : ℕ) → m.pty_slave_fd ≡ some n → m'.pty_slave_fd ≡ some n
  pub closed : (n : ℕ) → has n m.closed ≡ true → has n m'.closed ≡ true
  pub booted : Booted m → Booted m'

pub KillerOk-Grows : (m m' : Shared) (k : KillerPc) → Grows m m' → KillerOk m k → KillerOk m' k
KillerOk-Grows m m' KillerPc.waiting g h = tt
KillerOk-Grows m m' KillerPc.quit_waiting g h = g.launch h
KillerOk-Grows m m' KillerPc.closing g h = (g.launch h.0, g.quit h.1)
KillerOk-Grows m m' KillerPc.finished g h =
    (g.quit h.0, (h.1.0, g.slave h.1.0 h.1.1, g.closed h.1.0 h.1.2))

pub ExecutorOk-Grows :
    (args : Arg) (m m' : Shared) (e : ExecutorPc)
    → Grows m m'
    → m'.typed ≡ m.typed
    → ExecutorOk args m e
    → ExecutorOk args m' e
ExecutorOk-Grows args m m' ExecutorPc.waiting g t h = t ∙ h
ExecutorOk-Grows args m m' ExecutorPc.watching g t h = t ∙ h
ExecutorOk-Grows args m m' ExecutorPc.looked g t h = t ∙ h
ExecutorOk-Grows args m m' ExecutorPc.left g t h =
    (t ∙ h.0, elim (h.1) [ inl q ↦ inl (g.quit q) | inr b ↦ inr (g.booted b) ])
ExecutorOk-Grows args m m' (ExecutorPc.executing cmds command) g t h =
    (g.booted h.0, ap (λ k. keys k ++ (command ++ script cmds)) t ∙ h.1)
ExecutorOk-Grows args m m' (ExecutorPc.rebooting command) g t h =
    (g.booted h.0, ap (λ k. keys k ++ command) t ∙ h.1)
ExecutorOk-Grows args m m' ExecutorPc.stopping g t h = (g.booted h.0, ap keys t ∙ h.1)
ExecutorOk-Grows args m m' ExecutorPc.finished g t h =
    (g.quit h.0, elim (h.1) [ inl n ↦ inl (t ∙ n) | inr (b, k) ↦ inr (g.booted b, ap keys t ∙ k) ])

-- The other threads change neither of the two variables that `run_pty` sets.
pub PtyOk-same :
    (m m' : Shared) (p : PtyPc)
    → m'.tty_launched ≡ m.tty_launched
    → m'.pty_slave_fd ≡ m.pty_slave_fd
    → PtyOk m p
    → PtyOk m' p
PtyOk-same m m' PtyPc.opening l f h = (l ∙ h.0, f ∙ h.1)
PtyOk-same m m' (PtyPc.launching a b) l f h = (l ∙ h.0, f ∙ h.1)
PtyOk-same m m' (PtyPc.publishing a b) l f h = (l ∙ h.0, f ∙ h.1)
PtyOk-same m m' (PtyPc.reading a b) l f h = (l ∙ h.0, f ∙ h.1)
PtyOk-same m m' (PtyPc.stopping a b) l f h = (l ∙ h.0, f ∙ h.1)
PtyOk-same m m' (PtyPc.destroying a b) l f h = (l ∙ h.0, f ∙ h.1)
PtyOk-same m m' PtyPc.finished l f h = (l ∙ h.0, (h.1.0, f ∙ h.1.1))
