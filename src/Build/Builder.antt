-- ===== src/Build/Builder.antt =====
-- transient/build.py: `ImageBuilder`, from reading the Imagefile to the built image. The guest, the disk
-- and the external programs are the environment that answers the builder's actions.
pub mod Publish
use transient.Base.{
  ℕ, suc, ◌+◌, Bool, true, false, Option, none, some, List, [], ◌∷◌, ◌++◌, Text, lit, path_join,
  Result, ok, if◌then◌else◌, length, map_result, index_error,
}
use transient.Base
use transient.Base.Decimal.{show_nat}
use transient.Base.Io.{World, Io, pure, raise, lift, perform, ◌>>=◌, ◌>>◌, catch, for_each}
use transient.Build.Instruction.{Ast, Instruction, Disk, Partition, build_instruction}
use transient.Build.Command.{Command, guest, combine_commands, chroot_command, commands}
use transient.Build.Validate.{validate, is_from_scratch, part_instructions}
use transient.Build.Mounts.{instructions_by_mount}
use transient.Store.Name.{storage_safe_encode}
use transient.Store.Spec.{image_spec}

-- The fields of `configuration.BuildConfig` that the builder reads.
pub record BuildConfig : Type 0 where
  pub name : Text
  pub file : Option Text
  pub build_dir : Text
  pub local : Bool

-- The directories of the image store.
pub record ImageDirs : Type 0 where
  pub backend : Text
  pub working : Text

-- What the builder asks of its environment. `retrieve` is `imgstore.retrieve_image`, and answers
-- with the path of the image.
pub data Action : Type 0 where
  read_file : Text → Action
  print_step : ℕ → ℕ → Instruction → Action
  retrieve : Text → Action
  copy_file : Text → Text → Action
  create_image : Text → Text → Action
  start_editor : Text → Bool → Action
  run_command : Command → Action
  inspect_guest : Text → Action
  close_editor : Action
  make_readonly : Text → Action
  rename : Text → Text → Action

-- The builder after `__init__`.
pub record Builder : Type 0 where
  pub config : BuildConfig
  pub dirs : ImageDirs
  pub instructions : List Instruction
  pub source : Text

abbrev pub Build : Type 0 → Type 0
Build = Io Action

-- `_parse` is lark's parser on the grammar of the Imagefile: `find_data("instruction")`, or an
-- exception.
module _ (w : World Action Text) (parse : Text → Result (List Ast)) where
  -- `ImageBuilder.__init__`
  unfoldable pub new_builder : BuildConfig → ImageDirs → Build Builder
  unfolding lit path_join validate build_instruction ◌>>=◌
  new_builder config dirs = do
    contents ← perform w (
        read_file
          (elim config.file [ none ↦ path_join config.build_dir (lit "Imagefile") | some f ↦ f ]))
    asts ← lift (parse (contents ++ (10 ∷ [])))
    instructions ← lift (map_result build_instruction asts)
    source ← lift (validate instructions)
    pure (record { config = config; dirs = dirs; instructions = instructions; source = source })

-- The value, or an `IndexError`.
found : Option (ℕ × Instruction × Disk) → Build (ℕ × Instruction × Disk)
found none = raise index_error
found (some d) = pure d

module _ (w : World Action Text) (b : Builder) where
  act : Action → Build (Unit {0})
  unfolding ◌>>=◌
  act a = do perform w a; pure tt

  -- `__print_step`, with the index of the instruction
  unfoldable pub step_line : ℕ → Instruction → Build (Unit {0})
  unfolding act
  step_line idx i = act (print_step (idx + 1) (length b.instructions) i)

  -- `cmd.run()` for each command of an instruction
  unfoldable pub run_commands : Instruction → Build (Unit {0})
  unfolding act commands for_each
  run_commands i = for_each (commands b.config.build_dir i) (λ c. act (run_command c))

  -- `image_editor.run_command_in_guest(command, allowfail)`
  unfoldable pub run_in_guest : Text → Bool → Build (Unit {0})
  unfolding act catch
  run_in_guest cmd false = act (run_command (guest cmd none))
  run_in_guest cmd true = catch (act (run_command (guest cmd none))) (λ _. tt)

  -- `__run_command_in_guest_chroot`
  unfoldable pub run_in_chroot : Text → Bool → Build (Unit {0})
  unfolding act catch chroot_command
  run_in_chroot cmd false = act (run_command (guest (chroot_command cmd) none))
  run_in_chroot cmd true = catch (act (run_command (guest (chroot_command cmd) none))) (λ _. tt)

  -- The first instruction of a kind, with its index: `self.instructions.index(instruction)`.
  first_disk : ℕ → List Instruction → Option (ℕ × Instruction × Disk)
  first_disk n [] = none
  first_disk n (Instruction.disk d ∷ is) = some (n, Instruction.disk d, d)
  first_disk n (_ ∷ is) = first_disk (suc n) is

  -- `self.__instruction_type(DiskInstruction)[0]`
  disk_step : Build (ℕ × Instruction × Disk)
  unfolding first_disk found
  disk_step = found (first_disk 0 b.instructions)

  print_from : ℕ → List Instruction → Build (Unit {0})
  unfolding step_line
  print_from n [] = pure tt
  print_from n (Instruction.from s ∷ is) = step_line n (Instruction.from s)
  print_from n (_ ∷ is) = print_from (suc n) is

  -- The path of the new image while it is built.
  unfoldable pub working_path : Text
  unfolding storage_safe_encode path_join lit
  working_path =
      let name = storage_safe_encode b.config.name in
      if b.config.local
      then path_join b.config.build_dir (name ++ lit ".working")
      else path_join b.dirs.working name

  -- `__prepare_new_image`
  unfoldable pub prepare_new_image : Build Text
  unfolding act print_from disk_step step_line working_path show_nat is_from_scratch
  prepare_new_image = do
    print_from 0 b.instructions
    if is_from_scratch b.source
        then (do
          (n, i, d) ← disk_step
          step_line n i
          act (create_image working_path (show_nat d.size ++ d.units)))
        else (do existing ← perform w (retrieve b.source); act (copy_file existing working_path))
    pure working_path

  -- The commands that `__prepare_chroot` runs in one call.
  abbrev pub chroot_mounts : List Text
  chroot_mounts =
      lit "mount udev \"/mnt/dev\" -t devtmpfs -o mode=0755,nosuid"
      ∷ lit "mount proc \"/mnt/proc\" -t proc -o nosuid,noexec,nodev"
      ∷ lit "mount sys \"/mnt/sys\" -t sysfs -o nosuid,noexec,nodev,ro"
      ∷ lit "mount devpts \"/mnt/dev/pts\" -t devpts -o mode=0620,gid=5,nosuid,noexec"
      ∷ lit "mount shm \"/mnt/dev/shm\" -t tmpfs -o mode=1777,nosuid,nodev"
      ∷ lit "mount /run \"/mnt/run\" --bind"
      ∷ lit "mount tmp \"/mnt/tmp\" -t tmpfs -o mode=1777,strictatime,nodev,nosuid"
      ∷ lit
          "(mount /etc/resolv.conf /mnt/etc/resolv.conf --bind || cp /etc/resolv.conf /mnt/etc/resolv.conf)"
      ∷ []

  -- `__prepare_chroot`
  unfoldable pub prepare_chroot : Build (Unit {0})
  unfolding run_in_guest run_in_chroot combine_commands lit
  prepare_chroot = do
    run_in_guest (combine_commands chroot_mounts true) true
    run_in_chroot (lit "load_policy -i") true

  -- The loop over the PARTITIONs, with their indices.
  prepare_partitions : ℕ → List Instruction → Build (Unit {0})
  unfolding step_line run_commands
  prepare_partitions n [] = pure tt
  prepare_partitions n (Instruction.partition p ∷ is) = do
    step_line n (Instruction.partition p)
    run_commands (Instruction.partition p)
    prepare_partitions (suc n) is
  prepare_partitions n (_ ∷ is) = prepare_partitions (suc n) is

  -- The loop body over the partitions in their order.
  mount_partition : Text × Partition → Build (Unit {0})
  unfolding run_in_guest lit show_nat
  mount_partition (m, p) = do
    run_in_guest (lit "mkdir -p /mnt/" ++ m) true
    run_in_guest (lit "mount /dev/sda" ++ (show_nat p.number ++ (lit " /mnt/" ++ m))) false

  -- `__prepare_chroot_early`
  unfoldable pub prepare_chroot_early : Build (Unit {0})
  unfolding disk_step run_commands prepare_partitions mount_partition for_each instructions_by_mount
  prepare_chroot_early = do
    (_, i, _) ← disk_step
    run_commands i
    prepare_partitions 0 b.instructions
    for_each (instructions_by_mount (part_instructions b.instructions)) mount_partition

  -- `__inspect_guest_chroot`
  unfoldable pub inspect_guest_chroot : Build (Unit {0})
  unfolding act lit
  inspect_guest_chroot = act (inspect_guest (lit "unshare --fork --pid chroot /mnt /bin/sh"))

  -- `if self.chroot_ready is False: self.__prepare_chroot()`
  unfoldable pub ensure_chroot : Bool → Build (Unit {0})
  unfolding prepare_chroot
  ensure_chroot true = pure tt
  ensure_chroot false = prepare_chroot

  -- The main loop of `build`, over the instructions from index `n` on, with `chroot_ready`.
  unfoldable pub run_instructions : ℕ → Bool → List Instruction → Build (Unit {0})
  unfolding ensure_chroot step_line run_commands inspect_guest_chroot
  run_instructions n ready [] = pure tt
  run_instructions n ready (Instruction.from _ ∷ is) = run_instructions (suc n) ready is
  run_instructions n ready (Instruction.disk _ ∷ is) = run_instructions (suc n) ready is
  run_instructions n ready (Instruction.partition _ ∷ is) = run_instructions (suc n) ready is
  run_instructions n ready (Instruction.inspect ∷ is) = do
    ensure_chroot ready
    step_line n Instruction.inspect
    inspect_guest_chroot
    run_instructions (suc n) true is
  run_instructions n ready (Instruction.run cmd ∷ is) = do
    ensure_chroot ready
    step_line n (Instruction.run cmd)
    run_commands (Instruction.run cmd)
    run_instructions (suc n) true is
  run_instructions n ready (i ∷ is) = do
    step_line n i
    run_commands i
    run_instructions (suc n) ready is

  -- Where the built image goes; `ImageSpec` may refuse the name.
  unfoldable pub destination_path : Result Text
  unfolding path_join lit image_spec storage_safe_encode
  destination_path =
      if b.config.local
      then ok (path_join b.config.build_dir (b.config.name ++ lit ".qcow2"))
      else Base.◌>>=◌ (image_spec b.config.name)
          (λ spec. ok (path_join b.dirs.backend (storage_safe_encode spec.name)))

  -- `build` up to the call of `image_editor.close`.
  unfoldable pub build_image : Build Text
  unfolding prepare_new_image act prepare_chroot_early run_instructions
  build_image = do
    new_image ← prepare_new_image
    act (start_editor new_image (is_from_scratch b.source))
    if is_from_scratch b.source then prepare_chroot_early else pure tt
    run_instructions 0 false b.instructions
    act close_editor
    pure new_image

  -- The end of `build`, from the destination on.
  unfoldable pub publish : Text → Build Text
  unfolding act
  publish new_image = do
    destination ← lift destination_path
    act (make_readonly new_image)
    act (rename new_image destination)
    pure destination

  -- `build`
  unfoldable pub build : Build Text
  build = do new_image ← build_image; publish new_image
