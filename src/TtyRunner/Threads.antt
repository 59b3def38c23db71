-- ===== src/TtyRunner/Threads.antt =====
-- tty_runner.cpp, pty_launcher.cpp, tty_executor.cpp: four threads over shared globals, as relations of
-- the single steps of each.
pub mod Process
pub mod Invariant
pub mod Moves
pub mod Typing
pub mod Reachable
pub mod Safety
pub mod Ending
use reproduction.Base.{
  ℕ, ◌≡◌, List, [], ◌∷◌, ◌++◌, Option, none, some, Bool, true, false, ◌==◌, if◌then◌else◌, ◌||◌,
}
use reproduction.Base.Text.{Bytes, codes}
use reproduction.Libc.Text.{c_string, strip_prefix}
use reproduction.TtyRunner.Args.{Arg}

-- `s.find(other) != npos`.
abbrev is_some {ℓ} : {A : Type ℓ} → Option A → Bool
is_some none = false
is_some (some a) = true

unfoldable pub string_contains : Bytes → Bytes → Bool
unfolding strip_prefix
string_contains [] other = is_some (strip_prefix other [])
string_contains (c ∷ s) other = is_some (strip_prefix other (c ∷ s)) || string_contains s other

-- The globals, the descriptors that are closed, and the bytes that were handed to TIOCSTI, each with
-- whether `ioctl` took it.
pub record Shared : Type 0 where
  pub quit : Bool
  pub tty_launched : Bool
  pub tty_name : Bytes
  pub tty_output : Bytes
  pub pty_slave_fd : Option ℕ
  pub closed : List ℕ
  pub typed : List (ℕ × Bool)

-- The constructor of `PtyLauncher`, with the name that `openpty` gives.
abbrev pub pty_opened : Bytes → Shared → Shared
pty_opened name m = record m { tty_name = name }

-- A round of `read_output`, with what `read` puts into the buffer: `string_view` ends at the first NUL.
abbrev pub read_output : Bytes → Shared → Shared
read_output name m = record m { tty_output = m.tty_output ++ c_string name }

-- A round of `execute`.
abbrev pub execute_key : ℕ → Bool → Shared → Shared
execute_key ch taken m = record m { typed = m.typed ++ ((ch, taken) ∷ []) }

-- `run_pty`: before `PtyLauncher` is made; before the store to `tty_launched`; before the assignment
-- of `pty_slave_fd`; the loop of `read_output`; before the store to `quit`;
-- before the end of the scope, where the master is closed. `read` may fail at any time, as a signal
-- interrupts it.
pub data PtyPc : Type 0 where
  opening : PtyPc
  launching publishing reading stopping destroying : ℕ → ℕ → PtyPc
  finished : PtyPc

-- A step of it: with the descriptors of the terminal, the master and the slave.
pub data PtyMove (m : Shared) : PtyPc → Shared → PtyPc → Type 0 where
  open_pty :
      (name : Bytes) (master slave : ℕ)
      → PtyMove m PtyPc.opening (pty_opened name m) (PtyPc.launching master slave)
  launch :
      {master slave : ℕ}
      → PtyMove m
          (PtyPc.launching master slave)
          (record m { tty_launched = true })
          (PtyPc.publishing master slave)
  publish :
      {master slave : ℕ}
      → PtyMove m
          (PtyPc.publishing master slave)
          (record m { pty_slave_fd = some slave })
          (PtyPc.reading master slave)
  read :
      {master slave : ℕ} (name : Bytes)
      → PtyMove m (PtyPc.reading master slave) (read_output name m) (PtyPc.reading master slave)
  read_end :
      {master slave : ℕ} → PtyMove m (PtyPc.reading master slave) m (PtyPc.stopping master slave)
  stop :
      {master slave : ℕ}
      → PtyMove m
          (PtyPc.stopping master slave)
          (record m { quit = true })
          (PtyPc.destroying master slave)
  destroy :
      {master slave : ℕ}
      → PtyMove m
          (PtyPc.destroying master slave)
          (record m { closed = master ∷ m.closed })
          PtyPc.finished

-- `run_pty_killer`. A `wait` of an atomic may also end without a notification, so a step ends it at
-- any time at which its value is true. The steps therefore hold every run of the program, and more:
-- they are used for what holds in all states, never for that a thread wakes up.
pub data KillerPc : Type 0 where
  waiting quit_waiting closing finished : KillerPc

pub data KillerMove (m : Shared) : KillerPc → Shared → KillerPc → Type 0 where
  launched : m.tty_launched ≡ true → KillerMove m KillerPc.waiting m KillerPc.quit_waiting
  quits : m.quit ≡ true → KillerMove m KillerPc.quit_waiting m KillerPc.closing
  close :
      {slave : ℕ}
      → m.pty_slave_fd ≡ some slave
      → KillerMove m KillerPc.closing (record m { closed = slave ∷ m.closed }) KillerPc.finished

-- `run_qemu`: the command that is run has no effect on the globals.
pub data QemuPc : Type 0 where
  waiting launched stopping finished : QemuPc

pub data QemuMove (m : Shared) : QemuPc → Shared → QemuPc → Type 0 where
  begin : m.tty_launched ≡ true → QemuMove m QemuPc.waiting m QemuPc.launched
  exec_done : QemuMove m QemuPc.launched m QemuPc.stopping
  stop : QemuMove m QemuPc.stopping (record m { quit = true }) QemuPc.finished

-- `run_qemu_executor`: the head of its loop; between the two tests of the loop; behind the loop; inside
-- `execute`, with the commands and the bytes that are left; in the last `execute`; before the store.
pub data ExecutorPc : Type 0 where
  waiting watching looked left : ExecutorPc
  executing : List Bytes → Bytes → ExecutorPc
  rebooting : Bytes → ExecutorPc
  stopping finished : ExecutorPc

abbrev pub network_ok : Bytes
network_ok = codes "Starting network: OK"

abbrev pub newline_text : Bytes
newline_text = 10 ∷ []

abbrev pub reboot_text : Bytes
reboot_text = codes "reboot" ++ newline_text

pub data ExecutorMove (args : Arg) (m : Shared) : ExecutorPc → Shared → ExecutorPc → Type 0 where
  begin : m.tty_launched ≡ true → ExecutorMove args m ExecutorPc.waiting m ExecutorPc.watching
  sees_quit : m.quit ≡ true → ExecutorMove args m ExecutorPc.watching m ExecutorPc.left
  goes_on : m.quit ≡ false → ExecutorMove args m ExecutorPc.watching m ExecutorPc.looked
  sleeps :
      string_contains m.tty_output network_ok ≡ false
      → ExecutorMove args m ExecutorPc.looked m ExecutorPc.watching
  boots :
      string_contains m.tty_output network_ok ≡ true
      → ExecutorMove args m ExecutorPc.looked m ExecutorPc.left
  leaves : m.quit ≡ true → ExecutorMove args m ExecutorPc.left m ExecutorPc.finished
  attach :
      {cmd : Bytes} {cmds : List Bytes}
      → m.quit ≡ false
      → args.commands ≡ cmd ∷ cmds
      → ExecutorMove args m ExecutorPc.left m (ExecutorPc.executing (cmd ∷ cmds) [])
  next :
      {cmd : Bytes} {cmds : List Bytes}
      → ExecutorMove args m
          (ExecutorPc.executing (cmd ∷ cmds) [])
          m
          (ExecutorPc.executing cmds (cmd ++ newline_text))
  key :
      {cmds : List Bytes} {ch : ℕ} {command : Bytes} (taken : Bool)
      → ExecutorMove args m
          (ExecutorPc.executing cmds (ch ∷ command))
          (execute_key ch taken m)
          (ExecutorPc.executing cmds command)
  reboot : ExecutorMove args m (ExecutorPc.executing [] []) m (ExecutorPc.rebooting reboot_text)
  reboot_key :
      {ch : ℕ} {command : Bytes} (taken : Bool)
      → ExecutorMove args m
          (ExecutorPc.rebooting (ch ∷ command))
          (execute_key ch taken m)
          (ExecutorPc.rebooting command)
  typed_all : ExecutorMove args m (ExecutorPc.rebooting []) m ExecutorPc.stopping
  stop : ExecutorMove args m ExecutorPc.stopping (record m { quit = true }) ExecutorPc.finished
