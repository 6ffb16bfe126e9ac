-- ===== src/Cli/Machines/Tests.antt =====
-- transient/cli.py: a machine that is made and started, and the theorem there; cp on its disk.
use transient.Base.{
  ◌≡◌, refl, true, none, some, [], ◌∷◌, Text, lit, text_eq, has_char, split, transient_error,
  Result, ok, err,
}
use transient.Base.Dict.{Dict, lookup, insert, has_key}
use transient.Configuration.{
  Value, string, single, items, run_config_from_create_and_start, merge_fields, merge_field,
  add_items,
}
use transient.Store.Name.{storage_safe_encode}
use transient.Store.State.{Store, Tools, CreateConfig, is_dot_name}
use transient.Store.Vm.{create_vmstate, vmstate_exists, dir_exists, lock_vmstate_by_name}
use transient.Cli.{last_apart, group_sources, add_path, two_parts}
use transient.Cli.Machines.{CommandArgs, cp_impl, copy_each, log_level, warning, info, debug}

abbrev given : Dict Value
given =
    (lit "name", single (string (lit "vm")))
    ∷ (lit "image", single (string (lit "img")))
    ∷ (lit "ssh_option", items (lit "a" ∷ []))
    ∷ []

abbrev config : CreateConfig
config = record { name = some (lit "vm"); image = lit "img"; extra_image = []; fields = given }

abbrev tools : Tools
tools = record {
  fetch = λ p source. (source, none);
  on_disk = λ b. b;
  convert = λ b. ok b;
  readable = λ b. true;
  create_overlay = λ b. ok b;
  fresh_name = λ s. lit "fresh";
  meanwhile = λ s. s;
  dump_config = λ config. ok config.image;
  load_config = λ written. ok config;
  list_dir = λ files. files;
  rename_dir = λ s. none;
  leave_tempdir = λ s. none;
  rmtree = λ dir. none;
}

abbrev store : Store
store = record { images = []; working = []; vms = []; locked = [] }

abbrev asked : Dict Value
asked = (lit "name", single (string (lit "vm"))) ∷ (lit "ssh_option", items (lit "b" ∷ [])) ∷ []

abbrev args : Dict Value → CommandArgs
args fields = record { file = none; all_args = fields; supplied = [] }

abbrev load : Dict Value → Result CreateConfig
load fields = ok config

abbrev load_start : Dict Value → Result (Text × Dict Value)
load_start fields = ok (lit "vm", fields)

abbrev after : Store
after = (create_vmstate tools config store).1

-- What the run gets
merged :
    run_config_from_create_and_start (λ fields. ok fields) given asked
    ≡ ok (
        (lit "name", single (string (lit "vm")))
        ∷ (lit "image", single (string (lit "img")))
        ∷ (lit "ssh_option", items (lit "a" ∷ lit "b" ∷ []))
        ∷ [])
unfolding run_config_from_create_and_start merge_fields merge_field add_items lookup insert lit
    text_eq
merged = refl

levels : (log_level 0 ≡ warning) × (log_level 1 ≡ info) × (log_level 3 ≡ debug)
unfolding log_level
levels = (refl, refl, refl)

-- Copying stops at the first machine that is not there.
nowhere :
    cp_impl tools (λ image steps. ok tt) (lit "a:/x" ∷ lit "out" ∷ []) store
    ≡ (err (transient_error (lit "No VM with name 'a' found")), [])
unfolding cp_impl copy_each lit has_char last_apart group_sources two_parts split add_path lookup
    insert lock_vmstate_by_name vmstate_exists dir_exists is_dot_name storage_safe_encode has_key
nowhere = refl
