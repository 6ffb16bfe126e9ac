-- ===== src/Qemu/Runner.antt =====
-- transient/qemu.py: `QemuRunner`. The process is the environment, which answers with its return code.
use transient.Base.{
  ReturnCode, ℕ, Bool, true, false, not, Option, none, some, List, [], ◌∷◌, ◌++◌, if◌then◌else◌,
  Text, lit, Exn, runtime_error, timeout_expired, Result, ok, err,
}
use transient.Base.Io.{◌>>◌, World, Io, pure, raise, perform, ◌>>=◌}

-- None inherits the stream.
pub data Redirection : Type 0 where
  inherit devnull : Redirection

-- What is asked of `subprocess.Popen`, of the process and of its monitor.
pub data RunAction : Type 0 where
  popen : List Text → Redirection → Redirection → RunAction
  communicate : Option ℕ → RunAction
  wait_process : Option ℕ → RunAction
  send_terminate send_kill poll : RunAction
  powerdown : RunAction

pub record QemuRunner : Type 0 where
  pub bin_name : Text
  pub args : List Text
  pub quiet : Bool
  pub interactive : Bool
  pub has_qmp_client : Bool
  pub started : Bool

-- `__default_qmp_args`
unfoldable pub default_qmp_args : Text → List Text
default_qmp_args socket_path =
    lit "-qmp" ∷ (lit "unix:" ++ (socket_path ++ lit ",server,nowait")) ∷ []

abbrev pub or_default : Option Text → Text → Text
or_default none default = default
or_default (some []) default = default
or_default (some (c ∷ text)) default = c ∷ text

-- `QemuRunner.__init__`; `generated` is the path that `generate_unix_socket_path` gives.
unfoldable pub qemu_runner :
    List Text → Option Text → Bool → Bool → Bool → Option Text → Text → QemuRunner
unfolding default_qmp_args
qemu_runner args bin_name quiet interactive qmp_connectable qmp_socket_path generated =
    let path : Text = elim qmp_socket_path [ none ↦ generated | some p ↦ p ] in
    record {
      bin_name = or_default bin_name (lit "qemu-system-x86_64");
      args = if qmp_connectable then args ++ default_qmp_args path else args;
      quiet = quiet;
      interactive = interactive;
      has_qmp_client = qmp_connectable;
      started = false;
    }

-- `_make_command_line`
unfoldable pub make_command_line : QemuRunner → List Text
make_command_line r = r.bin_name ∷ r.args

-- The redirections of `start`
unfoldable pub redirections : QemuRunner → Redirection × Redirection
redirections r =
    if r.quiet
    then (devnull, devnull)
    else if not r.interactive
    then (devnull, inherit)
    else (inherit, inherit)

abbrev not_started : Text → Exn
not_started what =
    runtime_error (lit "QemuRunner cannot " ++ (what ++ lit " without being started"))

module _ (w : World RunAction (Option ReturnCode)) where
  unfoldable pub act : RunAction → Io RunAction (Unit {0})
  unfolding ◌>>=◌
  act a = do perform w a; pure tt

  -- `start`; the runner has a process from then on.
  unfoldable pub start : QemuRunner → Io RunAction QemuRunner
  unfolding act make_command_line redirections
  start r = do
    let (stdin, stdout) = redirections r
    act (popen (make_command_line r) stdin stdout)
    pure (record r { started = true })

  -- `wait`
  unfoldable pub wait : Option ℕ → QemuRunner → Io RunAction (Option ReturnCode)
  wait timeout r =
      if not r.started then raise (not_started (lit "wait")) else perform w (communicate timeout)

  -- `shutdown`
  unfoldable pub shutdown : Option ℕ → QemuRunner → Io RunAction (Option ReturnCode)
  unfolding act wait
  shutdown timeout r =
      if not r.has_qmp_client
      then raise
          (runtime_error (lit "Qemu 'shutdown' can only be called when 'qmp_connectable=True'"))
      else if not r.started
      then raise (not_started (lit "shutdown"))
      else (do act powerdown; wait timeout r)

  -- `kill`
  unfoldable pub kill : QemuRunner → Io RunAction (Unit {0})
  unfolding act
  kill r =
      if not r.started
      then raise (runtime_error (lit "QemuRunner cannot be killed without being started"))
      else (do act send_kill; act (wait_process none))

  -- `except subprocess.TimeoutExpired`
  abbrev pub or_kill : QemuRunner → Result (Unit {0}) → Io RunAction (Unit {0})
  or_kill r (ok u) h = (ok u, h)
  or_kill r (err timeout_expired) h = kill r h
  or_kill r (err e) h = (err e, h)

  -- The wait of `terminate`
  unfoldable pub wait_or_kill : ℕ → QemuRunner → Io RunAction (Unit {0})
  unfolding act kill
  wait_or_kill n r h = let (result, h') = act (wait_process (some n)) h in or_kill r result h'

  -- `terminate`
  unfoldable pub terminate : Option ℕ → QemuRunner → Io RunAction (Unit {0})
  unfolding act wait_or_kill
  terminate kill_after r =
      if not r.started
      then raise (not_started (lit "terminate"))
      else (do act send_terminate; elim kill_after [ none ↦ pure tt | some n ↦ wait_or_kill n r ])

  abbrev the_code : Option ReturnCode → Io RunAction ReturnCode
  the_code none =
      raise (runtime_error (lit "QemuRunner cannot get a returncode without being exited"))
  the_code (some code) = pure code

  -- `returncode`
  unfoldable pub returncode : QemuRunner → Io RunAction ReturnCode
  returncode r =
      if not r.started
      then raise (runtime_error (lit "QemuRunner cannot get a returncode without being started"))
      else (do code ← perform w poll; the_code code)

  -- `is_running`
  unfoldable pub is_running : QemuRunner → Io RunAction Bool
  is_running r =
      if not r.started
      then pure false
      else (do code ← perform w poll; pure (elim code [ none ↦ true | some c ↦ false ]))
