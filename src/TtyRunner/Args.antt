-- ===== src/TtyRunner/Args.antt =====
-- arg.cpp: the options, and the files of commands.
pub mod Lines
pub mod Files
use reproduction.Base.{
  ℕ, zero, suc, ◌+◌, List, [], ◌∷◌, ◌++◌, Option, none, some, Bool, true, false, ◌==◌,
  if◌then◌else◌, length,
}
use reproduction.Base.Text.{Bytes, codes}
use reproduction.Libc.Os.{Os, fopen_read}
use reproduction.Libc.Stream.{newline}

pub data CliMode : Type 0 where
  help normal : CliMode

pub record Arg : Type 0 where
  pub commands : List Bytes
  pub mode : CliMode
  pub path_to_makefile : Bytes
  pub command_list_setup_file : Bytes
  pub command_list_file : Bytes
  pub output_file : Bytes
  pub verbosity : ℕ

abbrev pub log_emerg : ℕ
log_emerg = 0

abbrev pub log_info : ℕ
log_info = 6

-- The initialisers of the members.
abbrev pub default_arg : Arg
default_arg = record {
  commands = [];
  mode = CliMode.normal;
  path_to_makefile = [];
  command_list_setup_file = [];
  command_list_file = [];
  output_file = codes "tty_output.txt";
  verbosity = log_info;
}

-- `std::getline` on a stream with something to read: the line, and what stands behind its newline.
unfoldable pub getline : Bytes → Bytes × Bytes
getline [] = ([], [])
getline (c ∷ s) = let (line, rest) = getline s in if c == newline then ([], s) else (c ∷ line, rest)

-- `while (getline(file, line))`, which fails where nothing is left to read.
unfoldable pub read_commands : ℕ → Bytes → List Bytes → Option (List Bytes)
unfolding getline
read_commands zero s result = none
read_commands (suc fuel) [] result = some result
read_commands (suc fuel) (c ∷ s) result =
    read_commands fuel (getline (c ∷ s)).1 (result ++ ((getline (c ∷ s)).0 ∷ []))

-- `parse_commands` of one file, with a round for each byte and one more; `none` is the exception.
unfoldable pub parse_commands : Bytes → Os → Option (List Bytes) × Os
unfolding read_commands
parse_commands filename os =
    let (file, os') = fopen_read filename os in
    elim file [
      | none ↦ (none, os')
      | some fh ↦ (read_commands (length fh.unread + 1) fh.unread [], os')
    ]

-- What follows a call that may throw: an exception goes on.
abbrev pub on_success {ℓ ℓ'} :
    {A : Type ℓ} {B : Type ℓ'} → Option A × Os → (A → Os → Option B × Os) → Option B × Os
on_success (none, os) f = (none, os)
on_success (some a, os) f = f a os

-- `parse_commands` of both files, the setup first.
unfoldable pub parse_both : Bytes → Bytes → Os → Option (List Bytes) × Os
parse_both setup_file commands_file os =
    on_success (parse_commands setup_file os) (λ setup_commands os'.
      on_success (parse_commands commands_file os')
        (λ commands os''. (some (setup_commands ++ commands), os'')))

-- The `variables_map` behind `notify`.
pub record VariablesMap : Type 0 where
  pub help : Bool
  pub makefile : Option Bytes
  pub list_setup : Option Bytes
  pub list : Option Bytes
  pub output : Option Bytes
  pub level : Option ℕ

abbrev pub or_default {ℓ} : {A : Type ℓ} → Option A → A → A
or_default none a = a
or_default (some b) a = b

-- The members behind the options that are not lists of commands.
abbrev pub with_options : VariablesMap → Arg → Arg
with_options vm arg = record arg {
  path_to_makefile = or_default vm.makefile arg.path_to_makefile;
  output_file = or_default vm.output arg.output_file;
  verbosity = or_default vm.level arg.verbosity;
}

-- The constructor from the arguments of the process. What boost makes of them is given: `none` is an
-- exception of boost. The result `none` is an exception of the constructor.
unfoldable pub construct : (List Bytes → Option VariablesMap) → List Bytes → Os → Option Arg × Os
unfolding parse_both
construct parse argv os = elim (parse argv) [
  | none ↦ (some (record default_arg { mode = CliMode.help }), os)
  | some vm ↦
      if vm.help
      then (some (record default_arg { mode = CliMode.help }), os)
      else elim vm.list_setup [
        | none ↦ (some (with_options vm default_arg), os)
        | some setup ↦ elim vm.list [
          | none ↦ (some (with_options vm default_arg), os)
          | some file ↦ on_success (parse_both setup file os) (λ cs os'. (
            some (record (with_options vm default_arg) {
              commands = cs;
              command_list_setup_file = setup;
              command_list_file = file;
            }),
            os',
          ))
        ]
      ]
]

-- The constructor from its members.
unfoldable pub construct_from : Bytes → Bytes → Bytes → Bytes → Os → Option Arg × Os
unfolding parse_both
construct_from makefile setup file output os = on_success (parse_both setup file os) (λ cs os'. (
  some (record {
    commands = cs;
    mode = CliMode.normal;
    path_to_makefile = makefile;
    command_list_setup_file = setup;
    command_list_file = file;
    output_file = output;
    verbosity = log_emerg;
  }),
  os',
))
