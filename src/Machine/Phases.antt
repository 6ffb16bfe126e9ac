-- ===== src/Machine/Phases.antt =====
-- transient/transient.py: the order of what a run does. Files are copied into an image before QEMU is
-- started on it, and out of it, and the image is removed, after QEMU has ended.
use transient.Base.{
  ℕ, ◌≡◌, Bool, true, false, Option, none, some, List, [], ◌∷◌, ◌++◌, ◌==◌, if◌then◌else◌, Text,
  assertion_error, Result, ok,
}
use transient.Base.Io.{pure, raise, ask}
use transient.Base.Io.Traces.{
  Emits, Emits-pure, Emits-raise, Emits-lift, Emits-ask, Emits-bind, Emits-for_each, Emits-if,
}
use transient.Base.{ReturnCode}
use transient.Machine.Config.{LockedState, running, TransientVm}
use transient.Machine.Run.{
  VmAction, retrieve, path_exists, is_dir, copy_in, copy_out, start_qemu, handle_sigchld, poll_qemu,
  connect_qmp, find_port, start_sshfs, wait_for_mounts, write_proc_data, ssh_session, shutdown_qemu,
  terminate_qemu, wait_qemu, rm_vmstate, Answer, VmWorld, Run, require, copy_in_mapping,
  copy_out_mapping, remove_temporary, post_run, use_backend_images, with_images, prepare,
  start_machine, prepare_ssh, share_folder, end_console, attend, operate,
}

-- What is done before QEMU is started, with it, and after it.
abbrev pub Preparing : VmAction → Type 0
Preparing (retrieve spec) = Unit
Preparing (path_exists path) = Unit
Preparing (copy_in image host guest) = Unit
Preparing _ = ⊥

abbrev pub Working : VmAction → Type 0
Working (start_qemu args quiet interactive qmp) = Unit
Working handle_sigchld = Unit
Working poll_qemu = Unit
Working connect_qmp = Unit
Working find_port = Unit
Working (start_sshfs local remote) = Unit
Working wait_for_mounts = Unit
Working write_proc_data = Unit
Working ssh_session = Unit
Working (shutdown_qemu timeout) = Unit
Working (terminate_qemu timeout) = Unit
Working wait_qemu = Unit
Working _ = ⊥

abbrev pub Finishing : VmAction → Type 0
Finishing (is_dir path) = Unit
Finishing (copy_out image guest host) = Unit
Finishing (rm_vmstate name) = Unit
Finishing _ = ⊥

-- An answer from which it is known that QEMU has ended.
abbrev pub TellsEnd : (a : VmAction) → Result (Answer a) → Type 0
TellsEnd poll_qemu (ok (some code)) = Unit
TellsEnd (shutdown_qemu timeout) (ok true) = Unit
TellsEnd (terminate_qemu timeout) (ok u) = Unit
TellsEnd wait_qemu (ok code) = Unit
TellsEnd _ _ = ⊥

Emits-require : {P : VmAction → Type 0} (b : Bool) (message : Text) → Emits P (require b message)
Emits-require true message = Emits-pure tt
Emits-require false message = Emits-raise _

module _ (w : VmWorld) where
  -- The last thing that was asked told that QEMU has ended.
  abbrev pub Ended : List VmAction → Type 0
  Ended h =
      (before : List VmAction) × (a : VmAction) × (h ≡ before ++ (a ∷ [])) × TellsEnd a (w before a)

  Preparing-copy_in_mapping :
      (vm : TransientVm) (m : Text) → Emits Preparing (copy_in_mapping w vm m)
  unfolding copy_in_mapping
  Preparing-copy_in_mapping vm m = Emits-bind _ _ (Emits-lift _) λ (host, guest).
      Emits-bind _ _ (Emits-ask w (path_exists host) tt) λ there.
        Emits-bind _ _ (Emits-require there _) λ _.
          Emits-bind _ _ (Emits-require _ _)
            λ _. Emits-bind _ _ (Emits-lift _) λ image. Emits-ask w (copy_in image host guest) tt

  Preparing-use_backend_images : (names : List Text) → Emits Preparing (use_backend_images w names)
  unfolding use_backend_images
  Preparing-use_backend_images [] = Emits-pure []
  Preparing-use_backend_images (name ∷ names) =
      Emits-bind _ _ (Emits-ask w (retrieve name) tt) λ image.
        Emits-bind _ _ (Preparing-use_backend_images names) λ images. Emits-pure (image ∷ images)

  Preparing-with_images : (vm : TransientVm) → Emits Preparing (with_images w vm)
  unfolding with_images
  Preparing-with_images vm = Emits-if _ _ _ (stored vm.vmstate) (
      Emits-bind _ _ (Emits-ask w (retrieve vm.config.image) tt)
        λ _. Emits-bind _ _ (Preparing-use_backend_images vm.config.extra_image) λ _. Emits-pure _)
    where
      stored :
          (s : Option LockedState)
          → Emits Preparing (elim s as (λ _. Run TransientVm) [
            | none ↦ raise assertion_error
            | some state ↦
                pure
                  (record vm { vm_images = state.images; primary_image = some state.primary_image })
          ])
      stored none = Emits-raise _
      stored (some state) = Emits-pure _

  pub Preparing-prepare : (vm : TransientVm) → Emits Preparing (prepare w vm)
  unfolding prepare
  Preparing-prepare vm =
      Emits-bind _ _ (Preparing-with_images (record vm { state = running })) λ ready.
        Emits-bind _ _
          (Emits-for_each ready.config.needs.copy_in_before _ (Preparing-copy_in_mapping ready))
          λ _. Emits-pure ready

  Finishing-copy_out_mapping :
      (vm : TransientVm) (m : Text) → Emits Finishing (copy_out_mapping w vm m)
  unfolding copy_out_mapping
  Finishing-copy_out_mapping vm m = Emits-bind _ _ (Emits-lift _) λ (guest, host).
      Emits-bind _ _ (Emits-ask w (is_dir host) tt) λ there.
        Emits-bind _ _ (Emits-require there _) λ _.
          Emits-bind _ _ (Emits-require _ _)
            λ _. Emits-bind _ _ (Emits-lift _) λ image. Emits-ask w (copy_out image guest host) tt

  Finishing-remove_temporary : (vm : TransientVm) → Emits Finishing (remove_temporary w vm)
  unfolding remove_temporary
  Finishing-remove_temporary vm = go vm.config.needs.name vm.vmstate
    where
      go :
          (n : Option Text) (s : Option LockedState)
          → Emits Finishing (elim n as (λ _. Run (Unit {0})) [
            | some name ↦ pure tt
            | none ↦ elim s as (λ _. Run (Unit {0})) [
              | none ↦ pure tt
              | some state ↦ ask w (rm_vmstate state.name)
            ]
          ])
      go (some name) s = Emits-pure tt
      go none none = Emits-pure tt
      go none (some state) = Emits-ask w (rm_vmstate state.name) tt

  pub Finishing-post_run :
      (vm : TransientVm) (code : ReturnCode) → Emits Finishing (post_run w vm code)
  unfolding post_run
  Finishing-post_run vm code =
      Emits-bind _ _
        (Emits-for_each vm.config.needs.copy_out_after _ (Finishing-copy_out_mapping vm))
        λ _.
          Emits-bind _ _ (Finishing-remove_temporary vm)
            λ _. Emits-if _ _ _ (Emits-pure tt) (Emits-raise _)

  Working-prepare_ssh : (vm : TransientVm) → Emits Working (prepare_ssh w vm)
  unfolding prepare_ssh
  Working-prepare_ssh vm =
      Emits-bind _ _ (Emits-ask w connect_qmp tt)
        λ _. Emits-bind _ _ (port vm.config.ssh_port) λ port. Emits-pure _
    where
      port :
          (p : Option ℕ)
          → Emits Working (elim p as (λ _. Run ℕ) [
            | none ↦ ask w find_port
            | some p ↦ if p == 0 then ask w find_port else pure p
          ])
      port none = Emits-ask w find_port tt
      port (some p) = Emits-if _ _ _ (Emits-ask w find_port tt) (Emits-pure p)

  Working-share_folder : (spec : Text) → Emits Working (share_folder w spec)
  unfolding share_folder
  Working-share_folder spec =
      Emits-bind _ _ (Emits-lift _) λ (local, remote). Emits-ask w (start_sshfs local remote) tt

  Working-end_console : (vm : TransientVm) → Emits Working (end_console w vm)
  unfolding end_console
  Working-end_console vm = Emits-bind _ _ (Emits-ask w ssh_session tt) λ code.
      Emits-bind _ _ (Emits-ask w (shutdown_qemu vm.config.shutdown_timeout) tt) λ in_time.
        Emits-bind _ _
          (Emits-if _ _ _ (Emits-pure tt)
            (Emits-ask w (terminate_qemu vm.config.shutdown_timeout) tt))
          λ _. Emits-pure code

  Working-attend : (vm : TransientVm) → Emits Working (attend w vm)
  unfolding attend
  Working-attend vm =
      Emits-bind _ _ (Emits-if _ _ _ (Working-prepare_ssh vm) (Emits-pure vm)) λ connected.
        Emits-bind _ _ (Emits-for_each connected.config.needs.shared_folder _ Working-share_folder)
          λ _. Emits-bind _ _ (Emits-ask w wait_for_mounts tt) λ _.
            Emits-bind _ _ (Emits-ask w write_proc_data tt)
              λ _. Emits-if _ _ _ (Working-end_console connected) (Emits-ask w wait_qemu tt)

  pub Working-operate : (vm : TransientVm) → Emits Working (operate w vm)
  unfolding operate start_machine
  Working-operate vm = Emits-bind _ _ (Emits-ask w (start_qemu _ _ _ _) tt) λ _.
      Emits-bind _ _ (Emits-ask w handle_sigchld tt)
        λ _. Emits-bind _ _ (Emits-ask w poll_qemu tt) λ early. go early
    where
      go :
          (early : Option ReturnCode)
          → Emits Working
              (elim early as (λ _. Run ReturnCode) [ some code ↦ pure code | none ↦ attend w vm ])
      go none = Working-attend vm
      go (some code) = Emits-pure code
