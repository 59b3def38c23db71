-- ===== src/TtyRunner/Session.antt =====
-- From the files of commands to the bytes that are handed to the terminal.
use mathlib.Core.List.{append_assoc}
use reproduction.Base.{◌≡◌, refl, ap, sym, ◌∙◌, List, [], ◌∷◌, ◌++◌, Option, some, false}
use reproduction.Base.Text.{Bytes}
use reproduction.Libc.Os.{Os, fopen_read}
use reproduction.Libc.Stream.{Stream, newline}
use reproduction.TtyRunner.Args.{
  Arg, parse_both, VariablesMap, with_options, default_arg, construct,
}
use reproduction.TtyRunner.Args.Lines.{joined, terminated}
use reproduction.TtyRunner.Args.Files.{parse_both-terminated}
use reproduction.TtyRunner.Threads.{reboot_text}
use reproduction.TtyRunner.Threads.Process.{System, Reach}
use reproduction.TtyRunner.Threads.Invariant.{
  script, keys, received, refused, Without, received-Without,
}
use reproduction.TtyRunner.Threads.Safety.{typed-script}

script-joined : (cmds : List Bytes) → script cmds ≡ joined cmds ++ reboot_text
unfolding script joined
script-joined [] = refl
script-joined (cmd ∷ cmds) =
    ap (λ t. (cmd ++ newline ∷ []) ++ t) (script-joined cmds)
    ∙ append_assoc cmd (newline ∷ []) (joined cmds ++ reboot_text)
    ∙ sym (append_assoc cmd (newline ∷ joined cmds) reboot_text)

-- What the constructor makes of options that name both files.
construct-both :
    (parse : List Bytes → Option VariablesMap) (argv : List Bytes) (vm : VariablesMap)
    (setup file : Bytes) (os os' : Os) (cs : List Bytes)
    → parse argv ≡ some vm
    → vm.help ≡ false
    → vm.list_setup ≡ some setup
    → vm.list ≡ some file
    → parse_both setup file os ≡ (some cs, os')
    → construct parse argv os ≡ (
      some (record (with_options vm default_arg) {
        commands = cs;
        command_list_setup_file = setup;
        command_list_file = file;
      }),
      os',
    )
unfolding construct
construct-both parse argv vm setup file os os' cs p h s f e = rw (construct, p, h, s, f, e)

-- Where the options name two files that open, the constructor makes a configuration whose script is
-- the setup file, the file of commands, each with a newline at its end, and the reboot.
pub construct-script :
    (parse : List Bytes → Option VariablesMap) (argv : List Bytes) (vm : VariablesMap)
    (setup file : Bytes) (os os' os'' : Os) (setup_text text : Stream)
    → parse argv ≡ some vm
    → vm.help ≡ false
    → vm.list_setup ≡ some setup
    → vm.list ≡ some file
    → fopen_read setup os ≡ (some setup_text, os')
    → fopen_read file os' ≡ (some text, os'')
    → (arg : Arg) × (construct parse argv os ≡ (some arg, os''))
      × (script arg.commands
          ≡ (terminated setup_text.unread ++ terminated text.unread) ++ reboot_text)
construct-script parse argv vm setup file os os' os'' setup_text text p h s f open_setup open_file =
    let (cs, e, l, j) =
      parse_both-terminated setup file os os' os'' setup_text text open_setup open_file in
    (
      record (with_options vm default_arg) {
        commands = cs;
        command_list_setup_file = setup;
        command_list_file = file;
      },
      construct-both parse argv vm setup file os os'' cs p h s f e,
      script-joined cs ∙ ap (λ t. t ++ reboot_text) j,
    )

one_configuration :
    (a b : Arg) (os' os'' : Os) (r : Option Arg × Os)
    → r ≡ (some a, os')
    → r ≡ (some b, os'')
    → a ≡ b
one_configuration a b os' os'' r h k = cc

-- Where the options name two files that open and the constructor makes a configuration of them, in
-- every state that the threads can reach with it, the bytes handed to TIOCSTI so far are a
-- beginning of the two files, each with a newline at its end, and the reboot, and the terminal got
-- them without as many bytes as were refused.
pub construct-typed :
    (parse : List Bytes → Option VariablesMap) (argv : List Bytes) (vm : VariablesMap)
    (setup file : Bytes) (os os' os'' end : Os) (setup_text text : Stream) (arg : Arg) (s : System)
    → parse argv ≡ some vm
    → vm.help ≡ false
    → vm.list_setup ≡ some setup
    → vm.list ≡ some file
    → fopen_read setup os ≡ (some setup_text, os')
    → fopen_read file os' ≡ (some text, os'')
    → construct parse argv os ≡ (some arg, end)
    → Reach arg s
    → (rest : Bytes) × (keys s.mem.typed ++ rest
        ≡ (terminated setup_text.unread ++ terminated text.unread) ++ reboot_text)
      × Without (refused s.mem.typed) (received s.mem.typed) (keys s.mem.typed)
construct-typed parse argv vm setup file os os' os'' end setup_text text arg s p h l f o o' made
      reach =
    let (arg', e, j) =
      construct-script parse argv vm setup file os os' os'' setup_text text p h l f o o' in
    let same = one_configuration arg arg' end os'' (construct parse argv os) made e in
    let (rest, k) = typed-script arg s reach in
    (rest, k ∙ ap (λ a. script a.commands) same ∙ j, received-Without s.mem.typed)
