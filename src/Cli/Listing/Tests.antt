-- ===== src/Cli/Listing/Tests.antt =====
-- transient/cli.py, `ps_impl` and `image_ls_impl`: the tables of a store with a machine, and the theorem there.
use transient.Base.{
  List, Result, Text, [], false, lit, none, ok, refl, some, split, starts_with, text_eq, true, ℕ,
  ◌++◌, ◌∷◌, ◌≡◌,
}
use transient.Base.Decimal.{read_nat, show_nat}
use transient.Base.Dict.{lookup, insert}
use transient.Configuration.{Needs, config_requires_ssh, config_requires_ssh_console}
use transient.Scan.{Json, text, number, decoded, Proc, item, int, scan_procs}
use transient.Scan.Search.{Clock}
use transient.Store.State.{Store, Tools, CreateConfig, is_dot_name}
use transient.Store.Name.{storage_safe_encode, storage_safe_decode}
use transient.Store.Backend.{backend_info, backend_image_list}
use transient.Store.Spec.{image_spec, match_spec}
use transient.Store.Frontend.{parse_frontend_name, is_backend_image_name}
use transient.Store.Vm.{
  lock_vmstate_by_name, vmstate_exists, dir_exists, get_vmstate_by_name, frontend_infos,
  frontend_info, backend_of, find_primary_image, vm_state,
}
use transient.Store.Vm.Listing.{vmstates}
use transient.Cli.Listing.{
  started_row, offline_row, PsArgs, Table, ps_headers, ps_impl, image_ls_impl,
}
use transient.Cli.Listing.Rows.{Lists, ps_impl-Lists}

-- A process of a machine that has no port
abbrev process : Proc
process = record {
  proc = lit "41";
  is_dir = true;
  environ = some (lit "__TRANSIENT_PROCESS=1" ++ (0 ∷ lit "__TRANSIENT_DATA_FD=5"));
  start_time = ok 7;
  proc_data = λ fd. decoded (
      (lit "name", text (lit "run"))
      ∷ (lit "vmstore", text (lit "/vms"))
      ∷ (lit "primary_image", text (lit "img"))
      ∷ (lit "transient_pid", number 40)
      ∷ []);
}

abbrev clock : Clock
clock t = (1, process ∷ [])

abbrev args : PsArgs
args = record { pid = true; ssh = true; all = true; vmstore = lit "/vms" }

abbrev tools : Tools
tools = record {
  fetch = λ p source. (source, none);
  on_disk = λ b. b;
  convert = λ b. ok b;
  readable = λ b. true;
  create_overlay = λ b. ok b;
  fresh_name = λ s. lit "vm";
  meanwhile = λ s. s;
  dump_config = λ config. ok config.image;
  load_config = λ written.
      ok (record { name = some (lit "vm"); image = written; extra_image = []; fields = [] });
  list_dir = λ files. files;
  rename_dir = λ s. none;
  leave_tempdir = λ s. none;
  rmtree = λ dir. none;
}

abbrev config : CreateConfig
config = record { name = some (lit "vm"); image = lit "img"; extra_image = []; fields = [] }

abbrev store : List Text → Store
store locked = record {
  images = (lit "img", record { content = lit "x"; read_only = true }) ∷ [];
  working = [];
  vms =
      (
        lit "vm",
        record {
          config = some config.image;
          files = (lit "vm-0-img", record { backing = lit "img"; content = [] }) ∷ [];
        },
      )
      ∷ [];
  locked = locked;
}

abbrev same_path : Text → Text
same_path p = p

abbrev shown_time : ℕ → Text
shown_time t = lit "now"

abbrev str : Json → Text
str (number n) = show_nat n
str j = []

abbrev needs : CreateConfig → Needs
needs c = record {
  name = c.name;
  copy_in_before = [];
  copy_out_after = [];
  shared_folder = lit "/srv" ∷ [];
  ssh_console = false;
  ssh_command = none;
  ssh_with_serial = false;
}

abbrev running : List Json
running =
    text (lit "run")
    ∷ text (lit "img")
    ∷ text (lit "Started now")
    ∷ text (lit "40")
    ∷ text (lit "False")
    ∷ []

abbrev waiting : List Json
waiting =
    text (lit "vm") ∷ text (lit "img") ∷ text (lit "Offline") ∷ text [] ∷ text (lit "True") ∷ []

all_machines :
    ps_impl same_path shown_time str needs tools clock args (store [])
    ≡ some (ok (record { headers = ps_headers args; rows = running ∷ waiting ∷ [] }))
unfolding ps_impl lit scan_procs insert text_eq item int read_nat started_row show_nat vmstates
    starts_with lock_vmstate_by_name vmstate_exists dir_exists is_dot_name storage_safe_encode
    storage_safe_decode get_vmstate_by_name frontend_infos frontend_info parse_frontend_name split
    backend_of backend_info find_primary_image vm_state image_spec match_spec lookup offline_row
    config_requires_ssh config_requires_ssh_console
all_machines = refl

-- A machine that is locked is not listed as one that is offline.
one_locked :
    ps_impl same_path shown_time str needs tools clock args (store (lit "vm" ∷ []))
    ≡ some (ok (record { headers = ps_headers args; rows = running ∷ [] }))
unfolding ps_impl lit scan_procs insert text_eq item int read_nat started_row show_nat vmstates
    starts_with lock_vmstate_by_name vmstate_exists dir_exists is_dot_name storage_safe_encode
    storage_safe_decode
one_locked = refl

images :
    image_ls_impl tools (λ image. record { virtual_size = 2048; actual_size = 3 }) (store [])
    ≡ ok ((lit "img" ∷ lit "2.00 KiB" ∷ lit "3.00 B" ∷ []) ∷ [])
unfolding image_ls_impl lit backend_image_list is_backend_image_name backend_info lookup text_eq
    storage_safe_decode
images = refl

ps_impl-Lists_example :
    (result : Result Table) × (ps_impl same_path shown_time str needs tools clock args (store [])
      ≡ some result)
    × Lists same_path shown_time str needs tools clock args (store []) result
ps_impl-Lists_example = ps_impl-Lists same_path shown_time str needs tools clock args (store [])
