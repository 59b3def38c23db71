-- ===== src/TtyRunner/Threads/Ending.antt =====
-- A way on which the null pointer is used.
use reproduction.Base.{◌≡◌, refl, true, []}
use reproduction.TtyRunner.Args.{Arg}
use reproduction.TtyRunner.Threads.{
  Shared, PtyPc, open_pty, launch, KillerPc, launched, quits, QemuPc, ExecutorPc,
}
use reproduction.TtyRunner.Threads.Process.{
  Fate, System, pty_step, killer_step, sigint, null_slave, Reach, start, later, init, fresh,
}

-- The running state with these parts.
abbrev pub standing : Shared → PtyPc → KillerPc → QemuPc → ExecutorPc → System
standing m p k q e = record {
  mem = m;
  fate = Fate.running;
  pty = p;
  killer = k;
  qemu = q;
  executor = e;
}

-- For every configuration, the process can use the null pointer: the signal comes, and the killer
-- runs on, between the store to `tty_launched` and the assignment of `pty_slave_fd`.
pub Reach-crashed : (args : Arg) → (s : System) × Reach args s × (s.fate ≡ Fate.crashed)
Reach-crashed args =
    let begun : Reach args init = start in
    let opened = later begun (pty_step refl (open_pty [] 3 4)) in
    let launching = later opened (pty_step refl launch) in
    let waited = later launching (killer_step refl (launched refl)) in
    let killed = later (later waited (sigint refl)) (killer_step refl (quits refl)) in
    (
      record (standing (record fresh { quit = true; tty_launched = true }) (PtyPc.publishing 3 4)
          KillerPc.closing QemuPc.waiting ExecutorPc.waiting) { fate = Fate.crashed },
      later killed (null_slave refl refl refl),
      refl,
    )
