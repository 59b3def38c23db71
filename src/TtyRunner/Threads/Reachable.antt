-- ===== src/TtyRunner/Threads/Reachable.antt =====
-- The invariant of the threads, along every step.
use reproduction.Base.{◌≡◌, refl, none, true}
use reproduction.TtyRunner.Args.{Arg}
use reproduction.TtyRunner.Threads.{KillerPc}
use reproduction.TtyRunner.Threads.Process.{
  Fate, System, Step, pty_step, killer_step, qemu_step, executor_step, sigint, pty_throws,
  exec_throws, no_commands, null_slave, Reach, start, later, init,
}
use reproduction.TtyRunner.Threads.Invariant.{
  PtyOk, KillerOk, ExecutorOk, KillerOk-Grows, ExecutorOk-Grows, PtyOk-same,
}
use reproduction.TtyRunner.Threads.Moves.{
  Grows-quit, PtyMove-Grows, PtyMove-PtyOk, PtyMove-typed, QemuOk, QemuOk-Grows, KillerMove-Keeps,
  KillerMove-Grows, KillerMove-KillerOk, KillerMove-typed, QemuMove-Keeps, QemuMove-Grows,
  QemuMove-QemuOk, QemuMove-typed,
}
use reproduction.TtyRunner.Threads.Typing.{
  ExecutorMove-Keeps, ExecutorMove-Grows, ExecutorMove-ExecutorOk,
}

-- What each thread knows of the globals, and when the null pointer is used.
pub record Inv (args : Arg) (s : System) : Type 0 where
  pub pty : PtyOk s.mem s.pty
  pub killer : KillerOk s.mem s.killer
  pub qemu : QemuOk s.mem s.qemu
  pub executor : ExecutorOk args s.mem s.executor
  pub fate : s.fate ≡ Fate.crashed → (s.killer ≡ KillerPc.closing) × (s.mem.pty_slave_fd ≡ none)

Inv-init : (args : Arg) → Inv args init
Inv-init args = record {
  pty = (refl, refl);
  killer = tt;
  qemu = tt;
  executor = refl;
  fate = λ h. cc;
}

Step-Inv : (args : Arg) (s t : System) → Inv args s → Step args s t → Inv args t
Step-Inv args s t i (pty_step {m = m} {p = p} r move) =
    let g = PtyMove-Grows s.mem m s.pty p i.pty move in
    record {
      pty = PtyMove-PtyOk s.mem m s.pty p i.pty move;
      killer = KillerOk-Grows s.mem m s.killer g i.killer;
      qemu = QemuOk-Grows s.mem m s.qemu g i.qemu;
      executor =
          ExecutorOk-Grows args s.mem m s.executor g (PtyMove-typed s.mem m s.pty p move)
            i.executor;
      fate = λ h. cc;
    }
Step-Inv args s t i (killer_step {m = m} {p = p} r move) =
    let g = KillerMove-Grows s.mem m s.killer p move in
    let k = KillerMove-Keeps s.mem m s.killer p move in
    record {
      pty = PtyOk-same s.mem m s.pty k.launch k.slave i.pty;
      killer = KillerMove-KillerOk s.mem m s.killer p i.killer move;
      qemu = QemuOk-Grows s.mem m s.qemu g i.qemu;
      executor =
          ExecutorOk-Grows args s.mem m s.executor g (KillerMove-typed s.mem m s.killer p move)
            i.executor;
      fate = λ h. cc;
    }
Step-Inv args s t i (qemu_step {m = m} {p = p} r move) =
    let g = QemuMove-Grows s.mem m s.qemu p move in
    let k = QemuMove-Keeps s.mem m s.qemu p move in
    record {
      pty = PtyOk-same s.mem m s.pty k.launch k.slave i.pty;
      killer = KillerOk-Grows s.mem m s.killer g i.killer;
      qemu = QemuMove-QemuOk s.mem m s.qemu p i.qemu move;
      executor =
          ExecutorOk-Grows args s.mem m s.executor g (QemuMove-typed s.mem m s.qemu p move)
            i.executor;
      fate = λ h. cc;
    }
Step-Inv args s t i (executor_step {m = m} {p = p} r move) =
    let g = ExecutorMove-Grows args s.mem m s.executor p move in
    let k = ExecutorMove-Keeps args s.mem m s.executor p move in
    record {
      pty = PtyOk-same s.mem m s.pty k.launch k.slave i.pty;
      killer = KillerOk-Grows s.mem m s.killer g i.killer;
      qemu = QemuOk-Grows s.mem m s.qemu g i.qemu;
      executor = ExecutorMove-ExecutorOk args s.mem m s.executor p i.executor move;
      fate = λ h. cc;
    }
Step-Inv args s t i (sigint r) =
    let m = record (s.mem) { quit = true } in
    let g = Grows-quit s.mem in
    record {
      pty = PtyOk-same s.mem m s.pty refl refl i.pty;
      killer = KillerOk-Grows s.mem m s.killer g i.killer;
      qemu = QemuOk-Grows s.mem m s.qemu g i.qemu;
      executor = ExecutorOk-Grows args s.mem m s.executor g refl i.executor;
      fate = λ h. cc;
    }
Step-Inv args s t i (pty_throws r e) = record {
  pty = i.pty;
  killer = i.killer;
  qemu = i.qemu;
  executor = i.executor;
  fate = λ h. cc;
}
Step-Inv args s t i (exec_throws r e) = record {
  pty = i.pty;
  killer = i.killer;
  qemu = i.qemu;
  executor = i.executor;
  fate = λ h. cc;
}
Step-Inv args s t i (no_commands r e q c) = record {
  pty = i.pty;
  killer = i.killer;
  qemu = i.qemu;
  executor = i.executor;
  fate = λ h. cc;
}
Step-Inv args s t i (null_slave r e n) = record {
  pty = i.pty;
  killer = i.killer;
  qemu = i.qemu;
  executor = i.executor;
  fate = λ h. (e, n);
}

pub Reach-Inv : (args : Arg) (s : System) → Reach args s → Inv args s
Reach-Inv args s start = Inv-init args
Reach-Inv args s (later {s = r} {t = t} before step) =
    Step-Inv args r t (Reach-Inv args r before) step
