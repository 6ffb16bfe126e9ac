-- ===== src/Editor.antt =====
-- transient/editor.py: `ImageEditor`. QEMU, its monitor and the guest are the environment, which answers
-- each action with a value of the action's own type.
pub mod Guest
pub mod Mounting
pub mod Tests
use transient.Base.{
  ℕ, Bool, true, false, not, ◌&&◌, Option, none, some, List, [], ◌∷◌, ◌++◌, ◌==◌, if◌then◌else◌,
  length, drop, is_empty, Text, lit, text_eq, starts_with, strip_spaces, split, cut, Exn,
  ReturnCode, exited, process_error, runtime_error, assertion_error, Result, ok, err,
}
use transient.Base.Io.{Io, pure, raise, lift, ask, catch, ◌>>=◌, ◌>>◌, for_each}
use transient.Build.Command.{combine_commands, join_absolute_paths}
use transient.Ssh.{SshConfig, ssh_config, scp_command, rsync_command}
use transient.Ssh.Port.{find_ssh_port_forward}

-- What a command of the guest wrote on a stream.
pub data Output : Type 0 where
  not_captured garbage : Output
  decoded : Text → Output

-- A command of the guest that has ended.
pub record Finished : Type 0 where
  pub returncode : ℕ
  pub stdout : Output
  pub stderr : Output

-- What the editor asks of its environment.
pub data EditAction : Type 0 where
  start_qemu : List Text → EditAction
  connect_qmp : ℕ → EditAction
  info_usernet : EditAction
  ssh_command : Text → EditAction
  transfer : List Text → EditAction
  shutdown : EditAction

abbrev pub Answer : EditAction → Type 0
Answer info_usernet = Text
Answer (ssh_command cmd) = Finished
Answer _ = Unit {0}

abbrev pub EditWorld : Type 0
EditWorld = List EditAction → (a : EditAction) → Result (Answer a)

abbrev pub Edit : Type 0 → Type 0
Edit = Io EditAction

-- The attributes of an `ImageEditor`, and the files of its kernel.
pub record ImageEditor : Type 0 where
  pub path : Text
  pub qmp_timeout : ℕ
  pub rsync : Bool
  pub skip_mount : Bool
  pub kernel : Text
  pub initramfs : Text

abbrev decode : Output → Option (Option Text)
decode not_captured = some none
decode garbage = none
decode (decoded t) = some (some t)

abbrev guest_failure : Text → Option ReturnCode → Option Text → Option Text → Option Text → Exn
guest_failure cmd returncode msg stdout stderr = process_error (record {
  cmd = some cmd;
  returncode = returncode;
  msg = msg;
  stdout = stdout;
  stderr = stderr;
})

-- `GuestCommand.run` once the command has ended; the result is what it wrote on its standard output.
unfoldable pub output_of : Text → Finished → Result (Option Text)
unfolding lit
output_of cmd f = elim (decode f.stdout) [
  | none ↦ err (guest_failure cmd none (some (lit "Got garbage from ssh")) none none)
  | some stdout ↦ elim (decode f.stderr) [
    | none ↦ err (guest_failure cmd none (some (lit "Got garbage from ssh")) none none)
    | some stderr ↦
        if f.returncode == 0
        then ok stdout
        else err (guest_failure cmd (some (exited f.returncode)) none stdout stderr)
  ]
]

-- `cut_at s t`: what is before the first `s` in `t`, and what is after it.
unfoldable pub cut_at : Text → Text → Option (Text × Text)
unfolding starts_with
cut_at s [] = none
cut_at s (c ∷ t) =
    if starts_with (c ∷ t) s
    then some ([], drop (length s) (c ∷ t))
    else elim (cut_at s t) [ none ↦ none | some (before, after) ↦ some (c ∷ before, after) ]

-- `re.match(r'FSTYPE="(.*?)" PATH="(.*?)"', candidate)`, with its two groups; a lazy group ends at the first
-- place where what follows it matches.
unfoldable pub fstype_and_path : Text → Option (Text × Text)
unfolding cut_at cut starts_with
fstype_and_path candidate =
    if not (starts_with candidate (lit "FSTYPE=\""))
    then none
    else elim (cut_at (lit "\" PATH=\"") (drop 8 candidate)) [
      | none ↦ none
      | some (fstype, rest) ↦ elim (cut b'"' rest) [
        | none ↦ none
        | some (path, _) ↦ some (fstype, path)
      ]
    ]

abbrev pub mount_command : Text → Text → Text
mount_command fstype path =
    combine_commands
      ((lit "mount -t " ++ (fstype ++ (lit " " ++ (path ++ lit " /mnt > /dev/null"))))
        ∷ lit "[ -f /mnt/etc/fstab ]"
        ∷ [])
      false

abbrev pub umount_command : Text
umount_command = lit "umount /mnt > /dev/null 2>&1"

abbrev pub lsblk_command : Text
lsblk_command = lit "lsblk -no FSTYPE,PATH -P"

-- `assert x is not None`
abbrev pub not_none : Option Text → Result Text
not_none none = err assertion_error
not_none (some t) = ok t

abbrev pub to_outcome : Result (Option Text) → Bool
to_outcome (ok out) = true
to_outcome (err e) = false

-- `_spawn_qemu`: the arguments of QEMU.
unfoldable pub qemu_args : ImageEditor → List Text
unfolding lit
qemu_args e =
    lit "-machine"
    ∷ lit "accel=kvm:tcg"
    ∷ lit "-smp"
    ∷ lit "1"
    ∷ lit "-m"
    ∷ lit "1G"
    ∷ lit "-kernel"
    ∷ e.kernel
    ∷ lit "-initrd"
    ∷ e.initramfs
    ∷ lit "-append"
    ∷ lit "notsc console=ttyS0 tsc=reliable no_timer_check usbcore.nousb cryptomgr.notests"
    ∷ lit "-serial"
    ∷ lit "stdio"
    ∷ lit "-display"
    ∷ lit "none"
    ∷ lit "-nographic"
    ∷ lit "-device"
    ∷ lit "virtio-rng-pci"
    ∷ lit "-device"
    ∷ lit "virtio-scsi-pci,id=scsi"
    ∷ lit "-drive"
    ∷ (lit "file=" ++ (e.path ++ lit ",id=hd0,if=none"))
    ∷ lit "-device"
    ∷ lit "scsi-hd,drive=hd0"
    ∷ lit "-netdev"
    ∷ lit "user,id=transient-sshdev,hostfwd=tcp::0-:22"
    ∷ lit "-device"
    ∷ lit "virtio-net-pci,netdev=transient-sshdev"
    ∷ []

module _ (world : EditWorld) where
  -- `run_command_in_guest(command, allowfail)`
  unfoldable pub run_command_in_guest : Text → Bool → Edit (Option Text)
  unfolding ask ◌>>=◌ catch output_of
  run_command_in_guest cmd false =
      ask {R = Answer} world (ssh_command cmd) >>= λ f. lift (output_of cmd f)
  run_command_in_guest cmd true =
      catch (ask {R = Answer} world (ssh_command cmd) >>= λ f. lift (output_of cmd f)) (λ e. none)

  -- The `try` of a candidate: whether the mount and the test of /etc/fstab succeeded.
  unfoldable pub mounts : Text → Text → Edit Bool
  unfolding run_command_in_guest
  mounts fstype path h =
      let (r, h') = run_command_in_guest (mount_command fstype path) false h in
      (ok (to_outcome r), h')

  -- The loop over the candidates.
  unfoldable pub try_candidates : List Text → Edit (Unit {0})
  unfolding mounts run_command_in_guest fstype_and_path raise pure ◌>>=◌ text_eq
  try_candidates [] = raise (runtime_error (lit "Unable to locate /etc/fstab"))
  try_candidates (candidate ∷ candidates) =
      let next = try_candidates candidates in
      elim (fstype_and_path candidate) [
        | none ↦ raise assertion_error
        | some (fstype, path) ↦
            if is_empty fstype
            then next
            else (mounts fstype path >>= λ mounted.
                if mounted
                then pure tt
                else (run_command_in_guest umount_command true >>= λ _. next))
      ]

  -- `_mount_root`
  unfoldable pub mount_root : Edit (Unit {0})
  unfolding run_command_in_guest try_candidates lift ◌>>=◌ split strip_spaces
  mount_root = do
    out ← run_command_in_guest lsblk_command false
    blkinfo ← lift (not_none out)
    try_candidates (split 10 (strip_spaces blkinfo))

  bind_mount : Text → Edit (Unit {0})
  unfolding run_command_in_guest ◌>>=◌ pure
  bind_mount bind = do
    run_command_in_guest
        (lit "[ -d /mnt/"
          ++ (bind ++ (lit " ] && mount -o bind /" ++ (bind ++ (lit " /mnt/" ++ bind)))))
        true
    pure tt

  -- `_prepare_mount`
  unfoldable pub prepare_mount : Edit (Unit {0})
  unfolding mount_root bind_mount run_command_in_guest for_each ◌>>=◌ pure
  prepare_mount = do
    run_command_in_guest (lit "vgchange -ay") true
    mount_root
    for_each (lit "dev" ∷ lit "sys" ∷ lit "proc" ∷ []) bind_mount
    run_command_in_guest (lit "chroot /mnt mount -a") true
    pure tt

  -- `_spawn_qemu`
  unfoldable pub spawn_qemu : ImageEditor → Edit (Unit {0})
  unfolding ask ◌>>=◌ qemu_args
  spawn_qemu e = do
    ask {R = Answer} world (start_qemu (qemu_args e))
    ask {R = Answer} world (connect_qmp e.qmp_timeout)

  -- `edit`; the result is the configuration of its SSH.
  unfoldable pub edit : ImageEditor → Edit SshConfig
  unfolding spawn_qemu ask prepare_mount lift pure ◌>>=◌ find_ssh_port_forward ssh_config
  edit e = do
    spawn_qemu e
    usernet ← ask {R = Answer} world info_usernet
    port ← lift (find_ssh_port_forward usernet)
    if e.skip_mount then pure tt else prepare_mount
    pure (ssh_config (lit "127.0.0.1") (some port) none none (some (lit "root")) none [] [])

  -- `close`
  unfoldable pub close : Edit (Unit {0})
  unfolding ask
  close = ask {R = Answer} world shutdown

  -- The command that copies: `ssh.rsync` or `ssh.scp`
  abbrev pub transfer_command : ImageEditor → List Text → SshConfig → Bool → Text → Text → List Text
  unfolding rsync_command scp_command
  transfer_command e keys config copy_from source destination =
      if e.rsync
      then rsync_command keys config copy_from source destination
      else scp_command keys config copy_from source destination

  unfoldable pub copy_in : ImageEditor → List Text → SshConfig → Text → Text → Edit (Unit {0})
  unfolding ask join_absolute_paths
  copy_in e keys config host_path guest_path = ask {R = Answer} world (
      transfer (
        transfer_command e keys config false host_path
          (join_absolute_paths (lit "/mnt") (guest_path ∷ []))))

  unfoldable pub copy_out : ImageEditor → List Text → SshConfig → Text → Text → Edit (Unit {0})
  unfolding ask join_absolute_paths
  copy_out e keys config guest_path host_path = ask {R = Answer} world (
      transfer (
        transfer_command e keys config true (join_absolute_paths (lit "/mnt") (guest_path ∷ []))
          host_path))
