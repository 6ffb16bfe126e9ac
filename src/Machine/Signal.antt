-- ===== src/Machine/Signal.antt =====
-- transient/transient.py: `__qemu_sigchld_handler`.
use transient.Base.{
  ReturnCode, ℕ, Bool, true, false, Option, none, some, List, [], ◌∷◌, if◌then◌else◌,
}
use transient.Base.Io.{pure}
use transient.Base.{exited}
use transient.Machine.Config.{TransientVmState, finished, TransientVm}
use transient.Machine.Run.{VmWorld, Run, post_run}
use transient.Machine.Exit.{exit_status}

abbrev pub is_finished : TransientVmState → Bool
is_finished finished = true
is_finished s = false

-- The handler up to the first statement of `__post_run`, which sets the state: the machine from then on, and
-- what `__post_run` goes on with, if it is called. `waited` is what `os.waitpid` gives: none for (0, 0), since
-- another process has died. A signal that arrives later, also while `__post_run` goes on, sees this machine.
unfoldable pub died : Option ℕ → TransientVm → TransientVm × Option ReturnCode
unfolding exit_status
died none vm = (vm, none)
died (some indicator) vm =
    if is_finished vm.state
    then (vm, none)
    else if vm.qemu_should_die
    then (vm, none)
    else (record vm { state = finished }, some (exited (exit_status indicator)))

module _ (w : VmWorld) where
  -- The rest of `__post_run`, if it is called.
  abbrev pub rest_of_handler : TransientVm × Option ReturnCode → Run (Unit {0})
  rest_of_handler (vm, none) = pure tt
  rest_of_handler (vm, some code) = post_run w vm code

  -- The handler: the machine as it is from the change of its state on, and what is done, which may raise.
  unfoldable pub sigchld_handler : Option ℕ → TransientVm → TransientVm × Run (Unit {0})
  unfolding died post_run
  sigchld_handler waited vm = let called = died waited vm in (called.0, rest_of_handler called)

abbrev with_call : Option ReturnCode → List ReturnCode → List ReturnCode
with_call none rest = rest
with_call (some code) rest = code ∷ rest

-- What `__post_run` is called with by the signals of a run, in the order of their arrival.
abbrev pub calls : List (Option ℕ) → TransientVm → List ReturnCode
calls [] vm = []
calls (waited ∷ later) vm = let called = died waited vm in with_call called.1 (calls later called.0)

-- The first signal of the death of QEMU.
abbrev pub first_death : List (Option ℕ) → Option ℕ
first_death [] = none
first_death (none ∷ later) = first_death later
first_death (some indicator ∷ later) = some indicator

abbrev pub one_call : Option ℕ → List ReturnCode
one_call none = []
one_call (some indicator) = exited (exit_status indicator) ∷ []
