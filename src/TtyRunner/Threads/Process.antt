-- ===== src/TtyRunner/Threads/Process.antt =====
-- tty_runner.cpp: the process of the four threads, which take their steps in any order.
use reproduction.Base.{◌≡◌, [], none, true, false}
use reproduction.TtyRunner.Args.{Arg}
use reproduction.TtyRunner.Threads.{
  Shared, PtyPc, PtyMove, KillerPc, KillerMove, QemuPc, QemuMove, ExecutorPc, ExecutorMove,
}

-- How the process stands: an exception that leaves a thread ends it, and so does a null pointer.
pub data Fate : Type 0 where
  running terminated crashed : Fate

pub record System : Type 0 where
  pub mem : Shared
  pub fate : Fate
  pub pty : PtyPc
  pub killer : KillerPc
  pub qemu : QemuPc
  pub executor : ExecutorPc

-- The threads take their steps in any order; `sigint` is the signal handler. The last four are the
-- exceptions of `PtyLauncher`, `exec` and `run_qemu_executor`, and `pty_slave_fd->fd` of a null
-- pointer.
pub data Step (args : Arg) (s : System) : System → Type 0 where
  pty_step :
      {m : Shared} {p : PtyPc}
      → s.fate ≡ Fate.running
      → PtyMove s.mem s.pty m p
      → Step args s (record s { mem = m; pty = p })
  killer_step :
      {m : Shared} {p : KillerPc}
      → s.fate ≡ Fate.running
      → KillerMove s.mem s.killer m p
      → Step args s (record s { mem = m; killer = p })
  qemu_step :
      {m : Shared} {p : QemuPc}
      → s.fate ≡ Fate.running
      → QemuMove s.mem s.qemu m p
      → Step args s (record s { mem = m; qemu = p })
  executor_step :
      {m : Shared} {p : ExecutorPc}
      → s.fate ≡ Fate.running
      → ExecutorMove args s.mem s.executor m p
      → Step args s (record s { mem = m; executor = p })
  sigint : s.fate ≡ Fate.running → Step args s (record s { mem = record (s.mem) { quit = true } })
  pty_throws :
      s.fate ≡ Fate.running
      → s.pty ≡ PtyPc.opening
      → Step args s (record s { fate = Fate.terminated })
  exec_throws :
      s.fate ≡ Fate.running
      → s.qemu ≡ QemuPc.launched
      → Step args s (record s { fate = Fate.terminated })
  no_commands :
      s.fate ≡ Fate.running
      → s.executor ≡ ExecutorPc.left
      → s.mem.quit ≡ false
      → args.commands ≡ []
      → Step args s (record s { fate = Fate.terminated })
  null_slave :
      s.fate ≡ Fate.running
      → s.killer ≡ KillerPc.closing
      → s.mem.pty_slave_fd ≡ none
      → Step args s (record s { fate = Fate.crashed })

-- The assignments at the beginning of `tty::run`.
abbrev pub fresh : Shared
fresh = record {
  quit = false;
  tty_launched = false;
  tty_name = [];
  tty_output = [];
  pty_slave_fd = none;
  closed = [];
  typed = [];
}

abbrev pub init : System
init = record {
  mem = fresh;
  fate = Fate.running;
  pty = PtyPc.opening;
  killer = KillerPc.waiting;
  qemu = QemuPc.waiting;
  executor = ExecutorPc.waiting;
}

pub data Reach (args : Arg) : System → Type 0 where
  start : Reach args init
  later : {s t : System} → Reach args s → Step args s t → Reach args t
