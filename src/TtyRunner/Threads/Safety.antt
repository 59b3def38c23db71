-- ===== src/TtyRunner/Threads/Safety.antt =====
-- What holds in every state that the threads can reach, in any order of their steps.
use mathlib.Core.List.{append-nil}
use reproduction.Base.{
  ℕ, ◌≡◌, refl, ap, sym, ◌∙◌, ◌⊎◌, inl, inr, List, [], ◌++◌, none, some, Bool, true, ◌≢◌, subst⁻¹,
}
use reproduction.Base.Text.{Bytes}
use reproduction.TtyRunner.Args.{Arg}
use reproduction.TtyRunner.Threads.{
  Shared, PtyPc, KillerPc, ExecutorPc, string_contains, network_ok,
}
use reproduction.TtyRunner.Threads.Process.{Fate, System, Reach}
use reproduction.TtyRunner.Threads.Invariant.{
  script, keys, received, refused, Without, received-Without, has, Booted, PtyOk, KillerOk,
  ExecutorOk,
}
use reproduction.TtyRunner.Threads.Reachable.{Reach-Inv}

-- Before anything was typed, the whole script is left.
typed_nothing :
    (args : Arg) (typed : List (ℕ × Bool))
    → typed ≡ []
    → (rest : Bytes) × (keys typed ++ rest ≡ script args.commands)
unfolding keys
typed_nothing args typed h = (script args.commands, ap (λ k. keys k ++ script args.commands) h)

typed_everything :
    (args : Arg) (typed : List (ℕ × Bool))
    → keys typed ≡ script args.commands
    → (rest : Bytes) × (keys typed ++ rest ≡ script args.commands)
typed_everything args typed h = ([], append-nil (keys typed) ∙ h)

-- What the executor has handed on is a beginning of the script.
typed_part :
    (args : Arg) (m : Shared) (e : ExecutorPc)
    → ExecutorOk args m e
    → (rest : Bytes) × (keys m.typed ++ rest ≡ script args.commands)
typed_part args m ExecutorPc.waiting h = typed_nothing args m.typed h
typed_part args m ExecutorPc.watching h = typed_nothing args m.typed h
typed_part args m ExecutorPc.looked h = typed_nothing args m.typed h
typed_part args m ExecutorPc.left h = typed_nothing args m.typed h.0
typed_part args m (ExecutorPc.executing cmds command) h = (command ++ script cmds, h.1)
typed_part args m (ExecutorPc.rebooting command) h = (command, h.1)
typed_part args m ExecutorPc.stopping h = typed_everything args m.typed h.1
typed_part args m ExecutorPc.finished (q, inl t) = typed_nothing args m.typed t
typed_part args m ExecutorPc.finished (q, inr (b, k)) = typed_everything args m.typed k

-- In every state that the four threads can reach in any order of their steps, the bytes that were
-- handed to TIOCSTI are a beginning of the commands, each with a newline, and the reboot.
pub typed-script :
    (args : Arg) (s : System)
    → Reach args s
    → (rest : Bytes) × (keys s.mem.typed ++ rest ≡ script args.commands)
typed-script args s reach = typed_part args s.mem s.executor (Reach-Inv args s reach).executor

ExecutorOk-Booted :
    (args : Arg) (m : Shared) (e : ExecutorPc) → ExecutorOk args m e → m.typed ≢ [] → Booted m
ExecutorOk-Booted args m ExecutorPc.waiting h n = elim (n h) [ ]
ExecutorOk-Booted args m ExecutorPc.watching h n = elim (n h) [ ]
ExecutorOk-Booted args m ExecutorPc.looked h n = elim (n h) [ ]
ExecutorOk-Booted args m ExecutorPc.left h n = elim (n h.0) [ ]
ExecutorOk-Booted args m (ExecutorPc.executing cmds command) h n = h.0
ExecutorOk-Booted args m (ExecutorPc.rebooting command) h n = h.0
ExecutorOk-Booted args m ExecutorPc.stopping h n = h.0
ExecutorOk-Booted args m ExecutorPc.finished (q, inl t) n = elim (n t) [ ]
ExecutorOk-Booted args m ExecutorPc.finished (q, inr (b, k)) n = b

-- In every reachable state in which a byte was handed to TIOCSTI, the output of the terminal contains
-- "Starting network: OK".
pub typed-network_ok :
    (args : Arg) (s : System)
    → Reach args s
    → s.mem.typed ≢ []
    → string_contains s.mem.tty_output network_ok ≡ true
typed-network_ok args s reach n =
    ExecutorOk-Booted args s.mem s.executor (Reach-Inv args s reach).executor n

publishing_only :
    (m : Shared) (p : PtyPc)
    → PtyOk m p
    → m.tty_launched ≡ true
    → m.pty_slave_fd ≡ none
    → (master : ℕ) × (slave : ℕ) × (p ≡ PtyPc.publishing master slave)
publishing_only m PtyPc.opening h l n = cc
publishing_only m (PtyPc.launching a b) h l n = cc
publishing_only m (PtyPc.publishing a b) h l n = (a, b, refl)
publishing_only m (PtyPc.reading a b) h l n = cc
publishing_only m (PtyPc.stopping a b) h l n = cc
publishing_only m (PtyPc.destroying a b) h l n = cc
publishing_only m PtyPc.finished (l', (slave, e)) l n = cc

-- The null pointer is used only while `run_pty` stands between its store to `tty_launched` and the
-- assignment of `pty_slave_fd`, and only behind a store to `quit`.
pub crashed-publishing :
    (args : Arg) (s : System)
    → Reach args s
    → s.fate ≡ Fate.crashed
    → (master : ℕ) × (slave : ℕ) × (s.pty ≡ PtyPc.publishing master slave) × (s.mem.quit ≡ true)
crashed-publishing args s reach crash =
    let i = Reach-Inv args s reach in
    let (closing, no_slave) = i.fate crash in
    let known = subst⁻¹ (KillerOk s.mem) (sym closing) i.killer in
    let (master, slave, e) = publishing_only s.mem s.pty i.pty known.0 no_slave in
    (master, slave, e, known.1)

-- Where the killer and the executor have finished, `quit` is set, the slave's descriptor is closed,
-- and either no byte was handed to TIOCSTI or each byte of the script was, once and in its order: the
-- terminal got the script without as many bytes as were refused.
pub finished-typed :
    (args : Arg) (s : System)
    → Reach args s
    → s.killer ≡ KillerPc.finished
    → s.executor ≡ ExecutorPc.finished
    → (s.mem.quit ≡ true)
      × ((slave : ℕ) × (s.mem.pty_slave_fd ≡ some slave) × (has slave s.mem.closed ≡ true))
      × ((s.mem.typed ≡ [])
          ⊎ ((keys s.mem.typed ≡ script args.commands)
              × Without (refused s.mem.typed) (received s.mem.typed) (script args.commands)))
finished-typed args s reach k e =
    let i = Reach-Inv args s reach in
    let killed = subst⁻¹ (KillerOk s.mem) (sym k) i.killer in
    let typed = subst⁻¹ (ExecutorOk args s.mem) (sym e) i.executor in
    (
      killed.0,
      killed.1,
      elim (typed.1) [
        | inl n ↦ inl n
        | inr b ↦ inr (
          b.1,
          subst⁻¹ (Without (refused s.mem.typed) (received s.mem.typed)) (sym b.1)
              (received-Without s.mem.typed),
        )
      ],
    )
