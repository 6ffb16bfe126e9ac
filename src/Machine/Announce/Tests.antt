-- ===== src/Machine/Announce/Tests.antt =====
-- transient/transient.py: a machine that announces itself, and the search that finds it.
use transient.Base.{
  ◌≡◌, refl, true, false, none, some, [], ◌∷◌, ◌++◌, if◌then◌else◌, All, Text, lit, text_eq,
  has_char, ok,
}
use transient.Base.Decimal.{show_nat}
use transient.Base.Dict.{Dict, IsDict, lookup, insert}
use transient.Configuration.{Needs, config_requires_ssh, config_requires_ssh_console}
use transient.Store.Spec.{image_spec, match_spec}
use transient.Machine.Config.{RunConfig, TransientVm, transient_vm, is_stateless}
use transient.Machine.Announce.{
  prepare_proc_data, build_qemu_environment, IsQemu, is_wanted, inspect-IsQemu,
}
use transient.Scan.{
  Json, text, number, boolean, null, decoded, Proc, Criteria, TransientInstance, inspect,
}
use transient.Scan.Environ.{environ_file, IsVariable}

abbrev needs : Needs
needs = record {
  name = some (lit "vm");
  copy_in_before = [];
  copy_out_after = [];
  shared_folder = [];
  ssh_console = true;
  ssh_command = none;
  ssh_with_serial = false;
}

abbrev config : RunConfig
config = record {
  needs = needs;
  image = lit "box";
  extra_image = [];
  no_virtio_scsi = false;
  ssh_port = none;
  ssh_net_driver = lit "virtio-net-pci";
  ssh_timeout = 90;
  qmp_timeout = 10;
  shutdown_timeout = 20;
  qemu_args = [];
  qemu_bin_name = none;
}

abbrev vm : TransientVm
vm = record (transient_vm config) { name = lit "vm"; set_ssh_port = some 2222 }

abbrev entry : Dict Json
entry =
    (lit "name", text (lit "vm"))
    ∷ (lit "vmstore", text (lit "/vms"))
    ∷ (lit "primary_image", text (lit "box"))
    ∷ (lit "stateless", boolean false)
    ∷ (lit "transient_pid", number 40)
    ∷ (lit "ssh_port", number 2222)
    ∷ []

written : prepare_proc_data (lit "/vms") 40 vm ≡ ok entry
unfolding prepare_proc_data image_spec match_spec is_stateless config_requires_ssh
    config_requires_ssh_console lit
written = refl

abbrev environ : Dict Text
environ = (lit "PATH", lit "/bin:/usr/bin") ∷ (lit "EMPTY", []) ∷ []

environ-IsDict : IsDict environ
unfolding lookup text_eq lit
environ-IsDict = (refl, (refl, tt))

environ-IsVariable : All IsVariable environ
unfolding has_char lit
environ-IsVariable = ((refl, refl, refl), ((refl, refl, refl), tt))

abbrev process : Proc
process = record {
  proc = show_nat 41;
  is_dir = true;
  environ = some (environ_file (build_qemu_environment environ 5));
  start_time = ok 7;
  proc_data = λ fd. decoded entry;
}

process-IsQemu : IsQemu environ 5 41 7 entry process
process-IsQemu = record {
  proc = refl;
  is_dir = refl;
  variables = refl;
  start_time = refl;
  proc_data = refl;
}

shown_environ :
    environ_file (build_qemu_environment environ 5)
    ≡ lit "PATH=/bin:/usr/bin"
      ++ (0 ∷ lit "EMPTY="
          ++ (0 ∷ lit "__TRANSIENT_PROCESS=1" ++ (0 ∷ lit "__TRANSIENT_DATA_FD=5" ++ (0 ∷ []))))
unfolding environ_file build_qemu_environment insert show_nat text_eq lit
shown_environ = refl

abbrev wanted_machine : Criteria
wanted_machine = record { name = some (lit "vm"); with_ssh = true; vmstore = some (lit "/vms") }

abbrev same_path : Text → Text
same_path p = p

inspect-IsQemu_example :
    (i : TransientInstance) × (inspect same_path wanted_machine process
      ≡ ok (if is_wanted same_path wanted_machine (lit "/vms") vm then some i else none))
    × (i.qemu_pid ≡ 41)
    × (i.start_time ≡ 7)
    × (i.name ≡ text (lit "vm"))
    × (i.ssh_port ≡ (if config_requires_ssh needs then number 2222 else null))
inspect-IsQemu_example =
    inspect-IsQemu environ 5 environ-IsDict environ-IsVariable same_path wanted_machine (lit "/vms")
      40 vm entry 41 7 process written process-IsQemu

wanted : is_wanted same_path wanted_machine (lit "/vms") vm ≡ true
unfolding is_wanted config_requires_ssh config_requires_ssh_console text_eq lit
wanted = refl
