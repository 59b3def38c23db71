-- ===== src/TtyRunner/Threads/Moves.antt =====
-- The steps of each thread, with what they leave for the others.
use reproduction.Base.{ℕ, ◌≡◌, refl, List, ◌∷◌, true, arith}
use reproduction.Libc.Text.{c_string}
use reproduction.TtyRunner.Threads.{
  Shared, PtyPc, PtyMove, open_pty, launch, publish, read, read_end, destroy, KillerPc, KillerMove,
  launched, quits, close, QemuPc, QemuMove, exec_done, network_ok,
}
use reproduction.TtyRunner.Threads.Invariant.{has, contains-append, PtyOk, KillerOk, Grows}

pub Grows-same : (m : Shared) → Grows m m
Grows-same m = record {
  quit = λ h. h;
  launch = λ h. h;
  slave = λ n h. h;
  closed = λ n h. h;
  booted = λ h. h;
}

pub Grows-quit : (m : Shared) → Grows m (record m { quit = true })
Grows-quit m = record {
  quit = λ h. refl;
  launch = λ h. h;
  slave = λ n h. h;
  closed = λ n h. h;
  booted = λ h. h;
}

has-more : (n k : ℕ) (ks : List ℕ) → has n ks ≡ true → has n (k ∷ ks) ≡ true
unfolding has
has-more n k ks h = ground (arith, h)

has-head : (n : ℕ) (ks : List ℕ) → has n (n ∷ ks) ≡ true
unfolding has
has-head n ks = ground arith

Grows-closed : (m : Shared) (k : ℕ) → Grows m (record m { closed = k ∷ m.closed })
Grows-closed m k = record {
  quit = λ h. h;
  launch = λ h. h;
  slave = λ n h. h;
  closed = λ n h. has-more n k m.closed h;
  booted = λ h. h;
}

pub PtyMove-Grows : (m m' : Shared) (p p' : PtyPc) → PtyOk m p → PtyMove m p m' p' → Grows m m'
PtyMove-Grows m m' p p' ok (open_pty name master slave) = record {
  quit = λ h. h;
  launch = λ h. h;
  slave = λ n h. h;
  closed = λ n h. h;
  booted = λ h. h;
}
PtyMove-Grows m m' p p' ok launch = record {
  quit = λ h. h;
  launch = λ h. refl;
  slave = λ n h. h;
  closed = λ n h. h;
  booted = λ h. h;
}
PtyMove-Grows m m' p p' ok publish = record {
  quit = λ h. h;
  launch = λ h. h;
  slave = λ n h. cc;
  closed = λ n h. h;
  booted = λ h. h;
}
PtyMove-Grows m m' p p' ok (read name) = record {
  quit = λ h. h;
  launch = λ h. h;
  slave = λ n h. h;
  closed = λ n h. h;
  booted = λ h. contains-append m.tty_output (c_string name) network_ok h;
}
PtyMove-Grows m m' p p' ok read_end = Grows-same m
PtyMove-Grows m m' p p' ok PtyMove.stop = Grows-quit m
PtyMove-Grows m m' p p' ok (destroy {master}) = Grows-closed m master

pub PtyMove-PtyOk : (m m' : Shared) (p p' : PtyPc) → PtyOk m p → PtyMove m p m' p' → PtyOk m' p'
PtyMove-PtyOk m m' p p' ok (open_pty name master slave) = ok
PtyMove-PtyOk m m' p p' ok launch = (refl, ok.1)
PtyMove-PtyOk m m' p p' ok publish = (ok.0, refl)
PtyMove-PtyOk m m' p p' ok (read name) = ok
PtyMove-PtyOk m m' p p' ok read_end = ok
PtyMove-PtyOk m m' p p' ok PtyMove.stop = ok
PtyMove-PtyOk m m' p p' ok (destroy {slave = slave}) = (ok.0, (slave, ok.1))

pub PtyMove-typed : (m m' : Shared) (p p' : PtyPc) → PtyMove m p m' p' → m'.typed ≡ m.typed
PtyMove-typed m m' p p' (open_pty name master slave) = refl
PtyMove-typed m m' p p' launch = refl
PtyMove-typed m m' p p' publish = refl
PtyMove-typed m m' p p' (read name) = refl
PtyMove-typed m m' p p' read_end = refl
PtyMove-typed m m' p p' PtyMove.stop = refl
PtyMove-typed m m' p p' destroy = refl

-- What is known of `run_qemu`.
abbrev pub QemuOk : Shared → QemuPc → Type 0
QemuOk m QemuPc.waiting = Unit
QemuOk m QemuPc.launched = m.tty_launched ≡ true
QemuOk m QemuPc.stopping = m.tty_launched ≡ true
QemuOk m QemuPc.finished = (m.quit ≡ true) × (m.tty_launched ≡ true)

pub QemuOk-Grows : (m m' : Shared) (q : QemuPc) → Grows m m' → QemuOk m q → QemuOk m' q
QemuOk-Grows m m' QemuPc.waiting g h = tt
QemuOk-Grows m m' QemuPc.launched g h = g.launch h
QemuOk-Grows m m' QemuPc.stopping g h = g.launch h
QemuOk-Grows m m' QemuPc.finished g h = (g.quit h.0, g.launch h.1)

-- What a step of another thread than `run_pty` leaves as it is.
pub record Keeps (m m' : Shared) : Type 0 where
  pub launch : m'.tty_launched ≡ m.tty_launched
  pub slave : m'.pty_slave_fd ≡ m.pty_slave_fd

pub KillerMove-Keeps : (m m' : Shared) (k k' : KillerPc) → KillerMove m k m' k' → Keeps m m'
KillerMove-Keeps m m' k k' (launched l) = record { launch = refl; slave = refl }
KillerMove-Keeps m m' k k' (quits q) = record { launch = refl; slave = refl }
KillerMove-Keeps m m' k k' (close e) = record { launch = refl; slave = refl }

pub KillerMove-Grows : (m m' : Shared) (k k' : KillerPc) → KillerMove m k m' k' → Grows m m'
KillerMove-Grows m m' k k' (launched l) = Grows-same m
KillerMove-Grows m m' k k' (quits q) = Grows-same m
KillerMove-Grows m m' k k' (close {slave = slave} e) = Grows-closed m slave

pub KillerMove-KillerOk :
    (m m' : Shared) (k k' : KillerPc) → KillerOk m k → KillerMove m k m' k' → KillerOk m' k'
KillerMove-KillerOk m m' k k' ok (launched l) = l
KillerMove-KillerOk m m' k k' ok (quits q) = (ok, q)
KillerMove-KillerOk m m' k k' ok (close {slave = slave} e) =
    (ok.1, (slave, e, has-head slave m.closed))

pub KillerMove-typed : (m m' : Shared) (k k' : KillerPc) → KillerMove m k m' k' → m'.typed ≡ m.typed
KillerMove-typed m m' k k' (launched l) = refl
KillerMove-typed m m' k k' (quits q) = refl
KillerMove-typed m m' k k' (close e) = refl

pub QemuMove-Keeps : (m m' : Shared) (q q' : QemuPc) → QemuMove m q m' q' → Keeps m m'
QemuMove-Keeps m m' q q' (QemuMove.begin l) = record { launch = refl; slave = refl }
QemuMove-Keeps m m' q q' exec_done = record { launch = refl; slave = refl }
QemuMove-Keeps m m' q q' QemuMove.stop = record { launch = refl; slave = refl }

pub QemuMove-Grows : (m m' : Shared) (q q' : QemuPc) → QemuMove m q m' q' → Grows m m'
QemuMove-Grows m m' q q' (QemuMove.begin l) = Grows-same m
QemuMove-Grows m m' q q' exec_done = Grows-same m
QemuMove-Grows m m' q q' QemuMove.stop = Grows-quit m

pub QemuMove-QemuOk :
    (m m' : Shared) (q q' : QemuPc) → QemuOk m q → QemuMove m q m' q' → QemuOk m' q'
QemuMove-QemuOk m m' q q' ok (QemuMove.begin l) = l
QemuMove-QemuOk m m' q q' ok exec_done = ok
QemuMove-QemuOk m m' q q' ok QemuMove.stop = (refl, ok)

pub QemuMove-typed : (m m' : Shared) (q q' : QemuPc) → QemuMove m q m' q' → m'.typed ≡ m.typed
QemuMove-typed m m' q q' (QemuMove.begin l) = refl
QemuMove-typed m m' q q' exec_done = refl
QemuMove-typed m m' q q' QemuMove.stop = refl
