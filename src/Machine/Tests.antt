-- ===== src/Machine/Tests.antt =====
-- transient/transient.py on concrete runs, and the theorems at them.
use transient.Base.{
  List, Text, [], false, lit, none, ok, refl, some, split, starts_with, true, ◌∷◌, ◌≡◌,
}
use transient.Base.Decimal.{show_nat}
use transient.Base.Io.{pure, lift, ask, ◌>>=◌, for_each, ensure}
use transient.Configuration.{Needs, config_requires_ssh, config_requires_ssh_console}
use transient.Cli.{two_parts}
use transient.Base.{exited}
use transient.Machine.Config.{
  RunConfig, ImageInfo, frontend_image, LockedState, running, finished, TransientVm, transient_vm,
  is_stateless,
}
use transient.Machine.Exit.{exit_status}
use transient.Machine.Run.{
  VmAction, vmstate_exists, lock_vm, create_vm, is_dir, path_exists, copy_out, handle_sigchld,
  poll_qemu, wait_qemu, rm_vmstate, fresh_name, retrieve, find_port, ssh_session, shutdown_qemu,
  VmWorld, run, do_run, start_qemu, wait_for_mounts, write_proc_data, unlock_vm,
}
use transient.Machine.Order.{InOrder, do_run-InOrder}
use transient.Machine.Signal.{died, calls}

abbrev needs : Needs
needs = record {
  name = none;
  copy_in_before = [];
  copy_out_after = lit "/etc/fstab:out" ∷ [];
  shared_folder = [];
  ssh_console = false;
  ssh_command = none;
  ssh_with_serial = false;
}

abbrev config : RunConfig
config = record {
  needs = needs;
  image = lit "box";
  extra_image = [];
  no_virtio_scsi = false;
  ssh_port = none;
  ssh_net_driver = lit "virtio-net-pci";
  ssh_timeout = 90;
  qmp_timeout = 10;
  shutdown_timeout = 20;
  qemu_args = lit "-m" ∷ lit "1G" ∷ [];
  qemu_bin_name = none;
}

abbrev disk : ImageInfo
disk = frontend_image (lit "/vms/box-0") (some (lit "box"))

abbrev locked : LockedState
locked = record { name = lit "vm1"; images = disk ∷ []; primary_image = disk }

-- Everything succeeds.
abbrev kind : VmWorld
kind h (vmstate_exists name) = ok false
kind h (lock_vm name) = ok locked
kind h create_vm = ok (lit "vm1")
kind h fresh_name = ok (lit "fresh")
kind h (retrieve spec) = ok disk
kind h (path_exists path) = ok true
kind h (is_dir path) = ok true
kind h handle_sigchld = ok tt
kind h poll_qemu = ok none
kind h find_port = ok 2222
kind h ssh_session = ok (exited 0)
kind h (shutdown_qemu n) = ok true
kind h wait_qemu = ok (exited 0)
kind h unlock_vm = ok tt
kind h (rm_vmstate name) = ok tt
kind h (copy_out image guest host) = ok tt
kind h (VmAction.copy_in image host guest) = ok tt
kind h (start_qemu args quiet interactive qmp) = ok tt
kind h VmAction.connect_qmp = ok tt
kind h (VmAction.start_sshfs local remote) = ok tt
kind h wait_for_mounts = ok tt
kind h write_proc_data = ok tt
kind h (VmAction.terminate_qemu n) = ok tt

arguments : List Text
arguments =
    lit "-name"
    ∷ lit "vm1"
    ∷ lit "-device"
    ∷ lit "virtio-scsi-pci,id=scsi"
    ∷ lit "-drive"
    ∷ lit "file=/vms/box-0,if=none,id=hd0"
    ∷ lit "-device"
    ∷ lit "scsi-hd,drive=hd0,bootindex=0"
    ∷ lit "-m"
    ∷ lit "1G"
    ∷ []

-- A temporary virtual machine with a file to copy out.
temporary_run : run kind config [] ≡ (
  ok tt,
  create_vm
      ∷ lock_vm (lit "vm1")
      ∷ start_qemu arguments false true false
      ∷ handle_sigchld
      ∷ poll_qemu
      ∷ wait_for_mounts
      ∷ write_proc_data
      ∷ wait_qemu
      ∷ is_dir (lit "out")
      ∷ copy_out (lit "/vms/box-0") (lit "/etc/fstab") (lit "out")
      ∷ rm_vmstate (lit "vm1")
      ∷ unlock_vm
      ∷ [],
)
unfolding run arguments ask ◌>>=◌ pure lift for_each ensure is_stateless two_parts split lit
    starts_with show_nat config_requires_ssh config_requires_ssh_console
temporary_run = refl

abbrev ready : TransientVm
ready = record (transient_vm config) { name = lit "vm1"; vmstate = some locked; state = running }

do_run-InOrder_example : InOrder kind [] (do_run kind ready []).1
do_run-InOrder_example = do_run-InOrder kind ready []

-- Signal 11 with a core file
a_fault : exit_status 139 ≡ 1
unfolding exit_status
a_fault = refl

abbrev idle : TransientVm
idle = record (transient_vm config) {
  config = record config { needs = record needs { copy_out_after = [] } };
  state = running;
}

abbrev over : TransientVm
over = record idle { state = finished }

unfinished : calls (none ∷ some 256 ∷ some 0 ∷ []) idle ≡ exited 1 ∷ []
unfolding died exit_status
unfinished = refl
