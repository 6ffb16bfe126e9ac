-- ===== src/Editor/Tests.antt =====
-- transient/editor.py at a guest with three partitions, and the theorem at it.
use transient.Base.{
  List, ℕ, ◌≡◌, refl, none, some, [], ◌∷◌, ◌++◌, if◌then◌else◌, Text, lit, text_eq, ok,
}
use transient.Build.Command.{combine_commands}
use transient.Editor.{
  Finished, decoded, not_captured, start_qemu, connect_qmp, info_usernet, ssh_command, transfer,
  shutdown, EditWorld, mount_command, umount_command, lsblk_command, fstype_and_path, mount_root,
}
use transient.Editor.Mounting.{Listed, Ending, mount_root-Ending}

parsed :
    fstype_and_path (lit "FSTYPE=\"ext4\" PATH=\"/dev/sda2\"") ≡ some (lit "ext4", lit "/dev/sda2")
unfolding fstype_and_path lit
parsed = refl

not_parsed : fstype_and_path (lit "FSTYPE=\"ext4\"") ≡ none
unfolding fstype_and_path lit
not_parsed = refl

abbrev partitions : Text
partitions =
    lit
      "FSTYPE=\"\" PATH=\"/dev/sda\"\nFSTYPE=\"vfat\" PATH=\"/dev/sda1\"\nFSTYPE=\"ext4\" PATH=\"/dev/sda2\"\n"

abbrev ended : ℕ → Text → Finished
ended code out = record { returncode = code; stdout = decoded out; stderr = not_captured }

-- The root is on the second partition; every other mount fails.
abbrev world : EditWorld
world h (start_qemu args) = ok tt
world h (connect_qmp n) = ok tt
world h info_usernet = ok []
world h (transfer args) = ok tt
world h shutdown = ok tt
world h (ssh_command cmd) = ok (
    if text_eq cmd lsblk_command
    then ended 0 partitions
    else if text_eq cmd (mount_command (lit "ext4") (lit "/dev/sda2"))
    then ended 0 []
    else ended 32 [])

mounted_second : mount_root world [] ≡ (
  ok tt,
  ssh_command lsblk_command
      ∷ ssh_command (mount_command (lit "vfat") (lit "/dev/sda1"))
      ∷ ssh_command umount_command
      ∷ ssh_command (mount_command (lit "ext4") (lit "/dev/sda2"))
      ∷ [],
)
unfolding mount_root lit text_eq combine_commands
mounted_second = refl

mount_root-Ending_example :
    (lines : List Text) × Listed world [] lines
    × Ending world lines ([] ++ (ssh_command lsblk_command ∷ [])) (mount_root world [])
mount_root-Ending_example = mount_root-Ending world []
