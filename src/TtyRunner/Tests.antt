-- ===== src/TtyRunner/Tests.antt =====
-- A setup file with one command, a file of commands with one more, and runs of the threads.
use reproduction.Base.{
  ℕ, ◌≡◌, refl, ◌⊎◌, [], ◌∷◌, ◌++◌, Option, none, some, true, false, if◌then◌else◌,
}
use reproduction.Base.Text.{Bytes, codes, str_eq}
use reproduction.Libc.Text.{c_string, strip_prefix}
use reproduction.Libc.Os.{Os, Kind, Node, fopen_read, next_fault}
use reproduction.Libc.Stream.{Stream}
use reproduction.TtyRunner.Args.{
  Arg, VariablesMap, default_arg, construct, parse_both, parse_commands, read_commands, getline,
}
use reproduction.TtyRunner.Args.Lines.{terminated}
use reproduction.TtyRunner.Threads.{
  Shared, PtyPc, open_pty, launch, publish, read, KillerPc, launched, quits, close, QemuPc,
  ExecutorPc, ExecutorMove, sees_quit, goes_on, boots, leaves, attach, next, key, string_contains,
  network_ok, newline_text, reboot_text,
}
use reproduction.TtyRunner.Threads.Process.{
  Fate, System, pty_step, killer_step, executor_step, sigint, Reach, start, later, init, fresh,
}
use reproduction.TtyRunner.Threads.Invariant.{script, keys, received, refused, Without, has}
use reproduction.TtyRunner.Threads.Safety.{typed-network_ok, crashed-publishing, finished-typed}
use reproduction.TtyRunner.Threads.Ending.{standing, Reach-crashed}
use reproduction.TtyRunner.Session.{construct-script, construct-typed}

abbrev args : Arg
args = record default_arg {
  commands = codes "ls" ∷ codes "sync" ∷ [];
  path_to_makefile = codes "fs";
  command_list_setup_file = codes "setup";
  command_list_file = codes "list";
}

abbrev output : Bytes
output = codes "Starting network: OK"

-- The terminal is published, and the machine has said that the network is there.
abbrev watched : Shared
watched = record fresh {
  tty_launched = true;
  tty_name = codes "/dev/pts/1";
  pty_slave_fd = some 4;
  tty_output = output;
}

booted :
    Reach args
      (standing watched (PtyPc.reading 3 4) KillerPc.waiting QemuPc.waiting ExecutorPc.waiting)
unfolding c_string
booted =
    let begun : Reach args init = start in
    let opened = later begun (pty_step refl (open_pty (codes "/dev/pts/1") 3 4)) in
    let published = later (later opened (pty_step refl launch)) (pty_step refl publish) in
    later published (pty_step refl (read output))

abbrev typing : System
typing =
    standing (record watched { typed = (108, true) ∷ [] }) (PtyPc.reading 3 4) KillerPc.waiting
      QemuPc.waiting (ExecutorPc.executing (codes "sync" ∷ []) (codes "s" ++ newline_text))

first_key : Reach args typing
unfolding string_contains strip_prefix
first_key =
    let watching = later booted (executor_step refl (ExecutorMove.begin refl)) in
    let looked = later watching (executor_step refl (goes_on refl)) in
    let left = later looked (executor_step refl (boots refl)) in
    let attached = later left (executor_step refl (attach refl refl)) in
    let taken = later attached (executor_step refl next) in
    later taken (executor_step refl (key true))

abbrev ended : System
ended =
    standing (record watched { quit = true; closed = 4 ∷ [] }) (PtyPc.reading 3 4) KillerPc.finished
      QemuPc.waiting ExecutorPc.finished

interrupted : Reach args ended
interrupted =
    let watching = later booted (executor_step refl (ExecutorMove.begin refl)) in
    let signalled = later watching (sigint refl) in
    let left = later signalled (executor_step refl (sees_quit refl)) in
    let finished = later left (executor_step refl (leaves refl)) in
    let waited = later finished (killer_step refl (launched refl)) in
    later (later waited (killer_step refl (quits refl))) (killer_step refl (close refl))

typed-network_ok_example : string_contains typing.mem.tty_output network_ok ≡ true
typed-network_ok_example = typed-network_ok args typing first_key (λ h. cc)

finished-typed_example :
    (ended.mem.quit ≡ true)
    × ((slave : ℕ) × (ended.mem.pty_slave_fd ≡ some slave) × (has slave ended.mem.closed ≡ true))
    × ((ended.mem.typed ≡ [])
        ⊎ ((keys ended.mem.typed ≡ script args.commands)
            × Without (refused ended.mem.typed) (received ended.mem.typed) (script args.commands)))
finished-typed_example = finished-typed args ended interrupted refl refl

Reach-crashed_example : (s : System) × Reach args s × (s.fate ≡ Fate.crashed)
Reach-crashed_example = Reach-crashed args

crashed-publishing_example :
    (master : ℕ) × (slave : ℕ) × ((Reach-crashed args).0.pty ≡ PtyPc.publishing master slave)
    × ((Reach-crashed args).0.mem.quit ≡ true)
crashed-publishing_example =
    crashed-publishing args (Reach-crashed args).0 (Reach-crashed args).1 (Reach-crashed args).2

-- The disk with both files; the second ends without a newline.
abbrev setup_node : Option Node
setup_node =
    some (record { kind = Kind.regular; perm = 0o644; contents = codes "ls" ++ newline_text })

abbrev list_node : Option Node
list_node = some (record { kind = Kind.regular; perm = 0o644; contents = codes "sync" })

abbrev os : Os
os = record {
  disk = λ p.
      if str_eq p (codes "setup")
      then setup_node
      else if str_eq p (codes "list")
      then list_node
      else none;
  faults = [];
  errno = 0;
  now = 0;
}

abbrev vm : VariablesMap
vm = record {
  help = false;
  makefile = some (codes "fs");
  list_setup = some (codes "setup");
  list = some (codes "list");
  output = none;
  level = none;
}

abbrev setup_text : Stream
setup_text = record { unread = codes "ls" ++ newline_text; at_eof = false }

abbrev list_text : Stream
list_text = record { unread = codes "sync"; at_eof = false }

construct-script_example :
    (arg : Arg) × (construct (λ argv. some vm) [] os ≡ (some arg, os))
    × (script arg.commands
        ≡ (terminated setup_text.unread ++ terminated list_text.unread) ++ reboot_text)
unfolding str_eq fopen_read next_fault
construct-script_example =
    construct-script (λ argv. some vm) [] vm (codes "setup") (codes "list") os os os setup_text
      list_text refl refl refl refl refl refl

construct-typed_example :
    (rest : Bytes) × (keys typing.mem.typed ++ rest
      ≡ (terminated setup_text.unread ++ terminated list_text.unread) ++ reboot_text)
    × Without (refused typing.mem.typed) (received typing.mem.typed) (keys typing.mem.typed)
unfolding str_eq fopen_read next_fault construct parse_both parse_commands read_commands getline
construct-typed_example =
    construct-typed (λ argv. some vm) [] vm (codes "setup") (codes "list") os os os os setup_text
      list_text args typing refl refl refl refl refl refl refl first_key
