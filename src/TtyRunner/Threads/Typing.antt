-- ===== src/TtyRunner/Threads/Typing.antt =====
-- The steps of `run_qemu_executor`.
use mathlib.Core.List.{append_assoc, append-nil}
use reproduction.Base.{
  ℕ, ◌≡◌, refl, ap, sym, subst⁻¹, ◌∙◌, inl, inr, List, [], ◌∷◌, ◌++◌, Bool, false,
}
use reproduction.Base.Text.{Bytes}
use reproduction.TtyRunner.Args.{Arg}
use reproduction.TtyRunner.Threads.{
  Shared, ExecutorPc, ExecutorMove, sees_quit, goes_on, sleeps, boots, leaves, attach, next, key,
  reboot, reboot_key, typed_all,
}
use reproduction.TtyRunner.Threads.Invariant.{script, keys, keys-append, ExecutorOk, Grows}
use reproduction.TtyRunner.Threads.Moves.{Grows-same, Grows-quit, Keeps}

pub ExecutorMove-Keeps :
    (args : Arg) (m m' : Shared) (e e' : ExecutorPc) → ExecutorMove args m e m' e' → Keeps m m'
ExecutorMove-Keeps args m m' e e' (ExecutorMove.begin l) = record { launch = refl; slave = refl }
ExecutorMove-Keeps args m m' e e' (sees_quit q) = record { launch = refl; slave = refl }
ExecutorMove-Keeps args m m' e e' (goes_on q) = record { launch = refl; slave = refl }
ExecutorMove-Keeps args m m' e e' (sleeps c) = record { launch = refl; slave = refl }
ExecutorMove-Keeps args m m' e e' (boots c) = record { launch = refl; slave = refl }
ExecutorMove-Keeps args m m' e e' (leaves q) = record { launch = refl; slave = refl }
ExecutorMove-Keeps args m m' e e' (attach q c) = record { launch = refl; slave = refl }
ExecutorMove-Keeps args m m' e e' next = record { launch = refl; slave = refl }
ExecutorMove-Keeps args m m' e e' (key t) = record { launch = refl; slave = refl }
ExecutorMove-Keeps args m m' e e' reboot = record { launch = refl; slave = refl }
ExecutorMove-Keeps args m m' e e' (reboot_key t) = record { launch = refl; slave = refl }
ExecutorMove-Keeps args m m' e e' typed_all = record { launch = refl; slave = refl }
ExecutorMove-Keeps args m m' e e' ExecutorMove.stop = record { launch = refl; slave = refl }

Grows-key : (m : Shared) (typed : List (ℕ × Bool)) → Grows m (record m { typed = typed })
Grows-key m typed = record {
  quit = λ h. h;
  launch = λ h. h;
  slave = λ n h. h;
  closed = λ n h. h;
  booted = λ h. h;
}

pub ExecutorMove-Grows :
    (args : Arg) (m m' : Shared) (e e' : ExecutorPc) → ExecutorMove args m e m' e' → Grows m m'
ExecutorMove-Grows args m m' e e' (ExecutorMove.begin l) = Grows-same m
ExecutorMove-Grows args m m' e e' (sees_quit q) = Grows-same m
ExecutorMove-Grows args m m' e e' (goes_on q) = Grows-same m
ExecutorMove-Grows args m m' e e' (sleeps c) = Grows-same m
ExecutorMove-Grows args m m' e e' (boots c) = Grows-same m
ExecutorMove-Grows args m m' e e' (leaves q) = Grows-same m
ExecutorMove-Grows args m m' e e' (attach q c) = Grows-same m
ExecutorMove-Grows args m m' e e' next = Grows-same m
ExecutorMove-Grows args m m' e e' (key {ch = ch} t) = Grows-key m (m.typed ++ ((ch, t) ∷ []))
ExecutorMove-Grows args m m' e e' reboot = Grows-same m
ExecutorMove-Grows args m m' e e' (reboot_key {ch = ch} t) = Grows-key m (m.typed ++ ((ch, t) ∷ []))
ExecutorMove-Grows args m m' e e' typed_all = Grows-same m
ExecutorMove-Grows args m m' e e' ExecutorMove.stop = Grows-quit m

-- A key that is typed goes over from what is left to what was typed.
key-moves :
    (typed : List (ℕ × Bool)) (ch : ℕ) (taken : Bool) (rest : Bytes)
    → keys (typed ++ ((ch, taken) ∷ [])) ++ rest ≡ keys typed ++ (ch ∷ rest)
key-moves typed ch taken rest =
    ap (λ k. k ++ rest) (keys-append typed ch taken) ∙ append_assoc (keys typed) (ch ∷ []) rest

attached :
    (args : Arg) (m : Shared)
    → m.quit ≡ false
    → ExecutorOk args m ExecutorPc.left
    → ExecutorOk args m (ExecutorPc.executing args.commands [])
unfolding keys
attached args m q (t, inl h) = cc
attached args m q (t, inr b) = (b, ap (λ k. keys k ++ ([] ++ script args.commands)) t)

pub ExecutorMove-ExecutorOk :
    (args : Arg) (m m' : Shared) (e e' : ExecutorPc)
    → ExecutorOk args m e
    → ExecutorMove args m e m' e'
    → ExecutorOk args m' e'
unfolding script
ExecutorMove-ExecutorOk args m m' e e' ok (ExecutorMove.begin l) = ok
ExecutorMove-ExecutorOk args m m' e e' ok (sees_quit q) = (ok, inl q)
ExecutorMove-ExecutorOk args m m' e e' ok (goes_on q) = ok
ExecutorMove-ExecutorOk args m m' e e' ok (sleeps c) = ok
ExecutorMove-ExecutorOk args m m' e e' ok (boots c) = (ok, inr c)
ExecutorMove-ExecutorOk args m m' e e' ok (leaves q) = (q, inl ok.0)
ExecutorMove-ExecutorOk args m m' e e' ok (attach q c) =
    subst⁻¹ (λ cmds. ExecutorOk args m (ExecutorPc.executing cmds [])) (sym c)
      (attached args m q ok)
ExecutorMove-ExecutorOk args m m' e e' ok next = ok
ExecutorMove-ExecutorOk args m m' e e' ok (key {cmds = cmds} {ch = ch} {command = command} t) =
    (ok.0, key-moves m.typed ch t (command ++ script cmds) ∙ ok.1)
ExecutorMove-ExecutorOk args m m' e e' ok reboot = ok
ExecutorMove-ExecutorOk args m m' e e' ok (reboot_key {ch = ch} {command = command} t) =
    (ok.0, key-moves m.typed ch t command ∙ ok.1)
ExecutorMove-ExecutorOk args m m' e e' ok typed_all = (ok.0, sym (append-nil (keys m.typed)) ∙ ok.1)
ExecutorMove-ExecutorOk args m m' e e' ok ExecutorMove.stop = (refl, inr ok)
