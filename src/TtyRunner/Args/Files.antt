-- ===== src/TtyRunner/Args/Files.antt =====
-- The two files of commands that the options name.
use mathlib.Core.List.{append_assoc}
use reproduction.Base.{
  ◌+◌, ◌≡◌, refl, ap, sym, ◌∙◌, List, [], ◌∷◌, ◌++◌, none, some, length, arith, All, All-append,
}
use reproduction.Base.Text.{Bytes, Lacks}
use reproduction.Libc.Os.{Os, fopen_read}
use reproduction.Libc.Stream.{Stream, newline}
use reproduction.TtyRunner.Args.{parse_commands, parse_both, on_success, read_commands}
use reproduction.TtyRunner.Args.Lines.{joined, terminated, read_commands_lem}

-- What `parse_commands` makes of a file that is open.
parse_commands-lines :
    (filename : Bytes) (os os' : Os) (file : Stream) (lines : List Bytes)
    → fopen_read filename os ≡ (some file, os')
    → read_commands (length file.unread + 1) file.unread [] ≡ some lines
    → parse_commands filename os ≡ (some lines, os')
unfolding parse_commands
parse_commands-lines filename os os' file lines h e = rw (parse_commands, h, ap (λ r. r.1) h, e)

-- A file that opens is read to its end: its lines, without their newlines, are the commands.
pub parse_commands-terminated :
    (filename : Bytes) (os os' : Os) (file : Stream)
    → fopen_read filename os ≡ (some file, os')
    → (lines : List Bytes) × (parse_commands filename os ≡ (some lines, os'))
      × All (Lacks newline) lines
      × (joined lines ≡ terminated file.unread)
parse_commands-terminated filename os os' file h =
    let (lines, e, l, j) =
      read_commands_lem (length file.unread + 1) file.unread [] (omega arith) in
    (lines, parse_commands-lines filename os os' file lines h e, l, j)

-- A file that cannot be opened is an exception.
pub parse_commands-missing :
    (filename : Bytes) (os os' : Os)
    → fopen_read filename os ≡ (none, os')
    → parse_commands filename os ≡ (none, os')
unfolding parse_commands
parse_commands-missing filename os os' h = rw (parse_commands, h, ap (λ r. r.1) h)

parse_both-lines :
    (setup_file commands_file : Bytes) (os os' os'' : Os) (a b : List Bytes)
    → parse_commands setup_file os ≡ (some a, os')
    → parse_commands commands_file os' ≡ (some b, os'')
    → parse_both setup_file commands_file os ≡ (some (a ++ b), os'')
unfolding parse_both
parse_both-lines setup_file commands_file os os' os'' a b h k =
    ap
      (λ r. on_success r (λ setup os'.
        on_success (parse_commands commands_file os')
          (λ commands os''. (some (setup ++ commands), os''))))
      h
    ∙ ap (λ r. on_success r (λ commands os''. (some (a ++ commands), os''))) k

joined-append : (a b : List Bytes) → joined (a ++ b) ≡ joined a ++ joined b
unfolding joined
joined-append [] b = refl
joined-append (line ∷ a) b =
    ap (λ t. line ++ newline ∷ t) (joined-append a b)
    ∙ sym (append_assoc line (newline ∷ joined a) (joined b))

-- Both files are read, the setup first.
pub parse_both-terminated :
    (setup_file commands_file : Bytes) (os os' os'' : Os) (setup commands : Stream)
    → fopen_read setup_file os ≡ (some setup, os')
    → fopen_read commands_file os' ≡ (some commands, os'')
    → (lines : List Bytes) × (parse_both setup_file commands_file os ≡ (some lines, os''))
      × All (Lacks newline) lines
      × (joined lines ≡ terminated setup.unread ++ terminated commands.unread)
parse_both-terminated setup_file commands_file os os' os'' setup commands h k =
    let (a, ea, la, ja) = parse_commands-terminated setup_file os os' setup h in
    let (b, eb, lb, jb) = parse_commands-terminated commands_file os' os'' commands k in
    (
      a ++ b,
      parse_both-lines setup_file commands_file os os' os'' a b ea eb,
      All-append (Lacks newline) a b la lb,
      joined-append a b ∙ ap (λ t. t ++ joined b) ja ∙ ap (λ t. terminated setup.unread ++ t) jb,
    )
