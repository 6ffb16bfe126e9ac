-- ===== src/Machine/Arguments.antt =====
-- transient/transient.py: the arguments that a run gives QEMU.
use transient.Base.{
  ℕ, Bool, true, false, none, some, List, [], ◌∷◌, ◌++◌, if◌then◌else◌, enumerate, flat_map, Text,
  lit,
}
use transient.Base.Decimal.{show_nat}
use transient.Configuration.{config_requires_ssh, config_requires_ssh_console}
use transient.Machine.Config.{RunConfig, ImageInfo, image_path, TransientVm, is_stateless}

-- The arguments for one image with virtio-scsi
unfoldable pub scsi_drive : ℕ × ImageInfo → List Text
unfolding show_nat
scsi_drive (idx, image) =
    lit "-drive"
    ∷ (lit "file=" ++ (image_path image ++ (lit ",if=none,id=hd" ++ show_nat idx)))
    ∷ lit "-device"
    ∷ (lit "scsi-hd,drive=hd" ++ (show_nat idx ++ (lit ",bootindex=" ++ show_nat idx)))
    ∷ []

unfoldable pub plain_drive : ImageInfo → List Text
plain_drive image = lit "-drive" ∷ (lit "file=" ++ image_path image) ∷ []

unfoldable pub drive_args : Bool → List ImageInfo → List Text
unfolding scsi_drive plain_drive
drive_args true images = flat_map plain_drive images
drive_args false images =
    lit "-device" ∷ lit "virtio-scsi-pci,id=scsi" ∷ flat_map scsi_drive (enumerate 0 images)

-- The arguments that SSH needs
unfoldable pub ssh_args : RunConfig → List Text
unfolding show_nat
ssh_args config =
    let console : List Text = lit "-serial" ∷ lit "stdio" ∷ lit "-display" ∷ lit "none" ∷ [] in
    let ssh_port : ℕ = elim config.ssh_port [ none ↦ 0 | some port ↦ port ] in
    (if config_requires_ssh_console config.needs then console else [])
    ++ (lit "-netdev"
        ∷ (lit "user,id=transient-sshdev,hostfwd=tcp::" ++ (show_nat ssh_port ++ lit "-:22"))
        ∷ lit "-device"
        ∷ (config.ssh_net_driver ++ lit ",netdev=transient-sshdev")
        ∷ [])

-- `__qemu_added_args`
unfoldable pub qemu_added_args : TransientVm → List Text
unfolding drive_args ssh_args
qemu_added_args vm =
    lit "-name"
    ∷ vm.name
    ∷ ((if is_stateless vm.config then lit "-snapshot" ∷ [] else [])
        ++ (drive_args vm.config.no_virtio_scsi vm.vm_images
            ++ (if config_requires_ssh vm.config.needs then ssh_args vm.config else [])))
