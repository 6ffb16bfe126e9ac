-- ===== src/Machine/Run.antt =====
-- transient/transient.py: `TransientVm.run`. The store, the editor, the guest and QEMU are the
-- environment, which answers each action with a value of the action's own type.
use transient.Base.{
  ℕ, Bool, true, false, not, ◌&&◌, Option, none, some, List, [], ◌∷◌, ◌++◌, ◌==◌, if◌then◌else◌,
  Text, lit, starts_with, Exn, process_error, runtime_error, assertion_error, Result, ok, err,
}
use transient.Base.Io.{Io, pure, raise, lift, ask, ◌>>=◌, ◌>>◌, for_each, ensure}
use transient.Configuration.{config_requires_ssh, config_requires_ssh_console}
use transient.Cli.{two_parts}
use transient.Base.{ReturnCode, exited, signalled}
use transient.Machine.Config.{
  RunConfig, ImageInfo, backend_image, frontend_image, LockedState, running, TransientVm,
  transient_vm, is_stateless,
}
use transient.Machine.Arguments.{qemu_added_args}

-- What a run asks of its environment.
pub data VmAction : Type 0 where
  vmstate_exists lock_vm : Text → VmAction
  unlock_vm create_vm fresh_name : VmAction
  retrieve : Text → VmAction
  path_exists is_dir : Text → VmAction
  copy_in copy_out : Text → Text → Text → VmAction
  start_qemu : List Text → Bool → Bool → Bool → VmAction
  handle_sigchld poll_qemu connect_qmp find_port : VmAction
  start_sshfs : Text → Text → VmAction
  wait_for_mounts write_proc_data : VmAction
  ssh_session : VmAction
  shutdown_qemu terminate_qemu : ℕ → VmAction
  wait_qemu : VmAction
  rm_vmstate : Text → VmAction

-- The type of an action's answer. `shutdown_qemu` answers whether the guest shut down in time.
abbrev pub Answer : VmAction → Type 0
Answer (vmstate_exists name) = Bool
Answer (lock_vm name) = LockedState
Answer create_vm = Text
Answer fresh_name = Text
Answer (retrieve spec) = ImageInfo
Answer (path_exists path) = Bool
Answer (is_dir path) = Bool
Answer poll_qemu = Option ReturnCode
Answer find_port = ℕ
Answer ssh_session = ReturnCode
Answer (shutdown_qemu timeout) = Bool
Answer wait_qemu = ReturnCode
Answer _ = Unit {0}

abbrev pub VmWorld : Type 0
VmWorld = List VmAction → (a : VmAction) → Result (Answer a)

abbrev pub Run : Type 0 → Type 0
Run = Io VmAction

-- `if not test: raise RuntimeError(message)`
abbrev pub require : Bool → Text → Run (Unit {0})
require true message = pure tt
require false message = raise (runtime_error message)

-- The primary image's path: `assert isinstance(...)` and `assert ... .backend is not None`
abbrev pub asserted : Option ImageInfo → Result Text
asserted (some (frontend_image path (some backend))) = ok path
asserted (some (frontend_image path none)) = err assertion_error
asserted (some (backend_image path)) = err assertion_error
asserted none = err assertion_error

-- `path_mapping.split(":")`, with the error for a mapping that has not two parts
abbrev pub mapping_of : Text → Result (Text × Text)
mapping_of path_mapping = elim (two_parts path_mapping) [
  | ok parts ↦ ok parts
  | err e ↦ err (runtime_error (lit "Invalid file mapping: " ++ path_mapping))
]

abbrev pub is_zero : ReturnCode → Bool
is_zero (exited code) = code == 0
is_zero (signalled sig) = false

-- `TransientProcessError(returncode=returncode)`.
abbrev pub failed_with : ReturnCode → Exn
failed_with code =
    process_error
      (record { cmd = none; returncode = some code; msg = none; stdout = none; stderr = none })

module _ (w : VmWorld) where
  -- `__copy_in`
  unfoldable pub copy_in_mapping : TransientVm → Text → Run (Unit {0})
  copy_in_mapping vm path_mapping = do
    (host_path, vm_path) ← lift (mapping_of path_mapping)
    there ← ask w (path_exists host_path)
    require there (lit "Host path does not exists: " ++ host_path)
    require (starts_with vm_path (lit "/")) (lit "Absolute path for guest required: " ++ vm_path)
    image ← lift (asserted vm.primary_image)
    ask w (copy_in image host_path vm_path)

  -- `__copy_out`
  unfoldable pub copy_out_mapping : TransientVm → Text → Run (Unit {0})
  copy_out_mapping vm path_mapping = do
    (vm_path, host_path) ← lift (mapping_of path_mapping)
    there ← ask w (is_dir host_path)
    require there (lit "Host path does not exist: " ++ host_path)
    require (starts_with vm_path (lit "/")) (lit "Absolute path for guest required: " ++ vm_path)
    image ← lift (asserted vm.primary_image)
    ask w (copy_out image vm_path host_path)

  -- `self.vmstore.rm_vmstate(self.vmstate)` of a temporary VM
  unfoldable pub remove_temporary : TransientVm → Run (Unit {0})
  remove_temporary vm = elim vm.config.needs.name [
    | some name ↦ pure tt
    | none ↦ elim vm.vmstate [ none ↦ pure tt | some state ↦ ask w (rm_vmstate state.name) ]
  ]

  -- `__post_run`
  unfoldable pub post_run : TransientVm → ReturnCode → Run (Unit {0})
  unfolding copy_out_mapping remove_temporary
  post_run vm code = do
    for_each vm.config.needs.copy_out_after (copy_out_mapping vm)
    remove_temporary vm
    if is_zero code then pure tt else raise (failed_with code)

  -- `__use_backend_images`
  unfoldable pub use_backend_images : List Text → Run (List ImageInfo)
  use_backend_images [] = pure []
  use_backend_images (name ∷ names) = do
    image ← ask w (retrieve name)
    images ← use_backend_images names
    pure (image ∷ images)

  -- The images of a run
  unfoldable pub with_images : TransientVm → Run TransientVm
  unfolding use_backend_images
  with_images vm =
      if not (is_stateless vm.config)
      then elim vm.vmstate [
        | none ↦ raise assertion_error
        | some state ↦
            pure (record vm { vm_images = state.images; primary_image = some state.primary_image })
      ]
      else (do
        primary ← ask w (retrieve vm.config.image)
        others ← use_backend_images vm.config.extra_image
        pure (record vm { vm_images = primary ∷ others; primary_image = some primary }))

  -- What `__do_run` does before QEMU is started
  unfoldable pub prepare : TransientVm → Run TransientVm
  unfolding with_images copy_in_mapping
  prepare vm = do
    ready ← with_images (record vm { state = running })
    for_each ready.config.needs.copy_in_before (copy_in_mapping ready)
    pure ready

  -- `self.qemu_runner.start()`, with the arguments, `quiet`, `interactive` and `qmp_connectable`
  unfoldable pub start_machine : TransientVm → Run (Unit {0})
  unfolding qemu_added_args
  start_machine vm =
      let console = config_requires_ssh_console vm.config.needs in
      ask w (
        start_qemu (qemu_added_args vm ++ vm.config.qemu_args)
          (console && not vm.config.needs.ssh_with_serial) (not console)
          (config_requires_ssh vm.config.needs))

  -- `__prepare_ssh`: a port that is given and not zero is used, any other is asked for.
  unfoldable pub prepare_ssh : TransientVm → Run TransientVm
  prepare_ssh vm = do
    ask w connect_qmp
    port ← elim vm.config.ssh_port [
      | none ↦ ask w find_port
      | some p ↦ if p == 0 then ask w find_port else pure p
    ]
    pure (record vm { set_ssh_port = some port })

  -- The loop over the shared folders
  unfoldable pub share_folder : Text → Run (Unit {0})
  share_folder shared_spec = do
    (local, remote) ← lift (two_parts shared_spec)
    ask w (start_sshfs local remote)

  -- The end of a run with an SSH console: the code of SSH is the run's, whatever the shutdown did.
  unfoldable pub end_console : TransientVm → Run ReturnCode
  end_console vm = do
    code ← ask w ssh_session
    in_time ← ask w (shutdown_qemu vm.config.shutdown_timeout)
    if in_time then pure tt else ask w (terminate_qemu vm.config.shutdown_timeout)
    pure code

  -- `__do_run` while QEMU runs, after it was found running
  unfoldable pub attend : TransientVm → Run ReturnCode
  unfolding prepare_ssh share_folder end_console
  attend vm = do
    connected ← if config_requires_ssh vm.config.needs then prepare_ssh vm else pure vm
    for_each connected.config.needs.shared_folder share_folder
    ask w wait_for_mounts
    ask w write_proc_data
    if config_requires_ssh_console vm.config.needs then end_console connected else ask w wait_qemu

  -- QEMU, from its start to its end
  unfoldable pub operate : TransientVm → Run ReturnCode
  unfolding start_machine attend
  operate vm = do
    start_machine vm
    ask w handle_sigchld
    early ← ask w poll_qemu
    elim early [ some code ↦ pure code | none ↦ attend vm ]

  -- `__do_run`, as it goes while the handler of SIGCHLD, that it registers, does nothing. The handler runs
  -- between any two steps; what it does when QEMU dies unasked is in Machine/Signal.
  unfoldable pub do_run : TransientVm → Run (Unit {0})
  unfolding prepare operate post_run
  do_run vm = do ready ← prepare vm; code ← operate ready; post_run ready code

  -- The name of a run, which makes a new VM if it needs one.
  unfoldable pub choose_name : RunConfig → Run Text
  choose_name config = elim config.needs.name [
    | none ↦ if is_stateless config then ask w fresh_name else ask w create_vm
    | some name ↦ do
      there ← if is_stateless config then pure true else ask w (vmstate_exists name)
      if there then pure name else ask w create_vm
  ]

  -- `run`
  unfoldable pub run : RunConfig → Run (Unit {0})
  unfolding choose_name do_run
  run config = do
    name ← choose_name config
    let vm = record (transient_vm config) { name = name }
    if is_stateless config then do_run vm else (do
      state ← ask w (lock_vm name)
      ensure (do_run (record vm { vmstate = some state })) (ask w unlock_vm))
