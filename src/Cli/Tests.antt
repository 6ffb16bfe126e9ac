-- ===== src/Cli/Tests.antt =====
-- transient/cli.py on concrete arguments, and the theorems at them.
use transient.Base.{
  ◌≡◌, refl, true, false, none, some, List, [], ◌∷◌, ◌++◌, any, Text, lit, text_eq, starts_with,
  split, ok, map_result,
}
use transient.Base.Dict.{Dict, lookup, insert}
use transient.Store.Name.{storage_safe_encode, storage_safe_decode}
use transient.Store.Spec.{image_spec, match_spec}
use transient.Store.Frontend.{parse_frontend_name}
use transient.Store.State.{VmDir, Store, Tools, is_dot_name}
use transient.Store.Backend.{backend_info, path_exists}
use transient.Store.Vm.{
  FrontendInfo, VmState, find_primary_image, vm_state, backend_of, frontend_info, frontend_infos,
  get_vmstate_by_name, has_backend,
}
use transient.Cli.InUse.{is_listed, UsesImage}
use transient.Cli.Removal.{image_rm-Keeps}
use transient.Base.Decimal.{read_nat}
use transient.Cli.{
  image_rm, separator_index, split_arguments, two_parts, add_path, group_sources, copy_steps,
  copy_out,
}
use transient.Cli.Copying.{paths_of, paths_in, group_sources_lem}

abbrev args : List Text
args = lit "run" ∷ lit "box" ∷ []

-- All behind the first "--" is for QEMU.
splitting :
    split_arguments (lit "transient" ∷ args ++ (lit "--" ∷ lit "-m" ∷ lit "--" ∷ []))
    ≡ (args, lit "-m" ∷ lit "--" ∷ [])
unfolding split_arguments separator_index text_eq lit
splitting = refl

abbrev sources : List Text
sources = lit "a:/x" ∷ lit "b:/y" ∷ lit "a:/z" ∷ []

abbrev planned : Dict (List Text)
planned = (lit "a", lit "/x" ∷ lit "/z" ∷ []) ∷ (lit "b", lit "/y" ∷ []) ∷ []

planning : group_sources sources [] ≡ ok planned
unfolding group_sources two_parts add_path lookup insert split lit text_eq
planning = refl

group_sources_lem_example :
    (pairs : List (Text × Text)) × (map_result two_parts sources ≡ ok pairs)
    × ((vm : Text) → paths_of vm planned ≡ paths_of vm [] ++ paths_in vm pairs)
group_sources_lem_example = group_sources_lem sources [] planned planning

steps :
    map_result
      (λ p. ok (copy_steps p))
      (record { copy_config = planned; destination = lit "d"; copy_to_vm = false } ∷ [])
    ≡ ok (
        (copy_out (lit "a") (lit "/x") (lit "d")
          ∷ copy_out (lit "a") (lit "/z") (lit "d")
          ∷ copy_out (lit "b") (lit "/y") (lit "d")
          ∷ [])
        ∷ [])
unfolding copy_steps lit
steps = refl

abbrev tools : Tools
tools = record {
  fetch = λ p t. ([], none);
  on_disk = λ b. b;
  convert = λ b. ok b;
  readable = λ b. true;
  create_overlay = λ b. ok [];
  fresh_name = λ s. lit "fresh";
  meanwhile = λ s. s;
  dump_config = λ config. ok config.image;
  load_config =
      λ written. ok (record { name = none; image = written; extra_image = []; fields = [] });
  list_dir = λ files. files;
  rename_dir = λ s. none;
  leave_tempdir = λ s. none;
  rmtree = λ dir. none;
}

abbrev box_vm : VmDir
box_vm = record {
  config = some (lit "box");
  files = (lit "vm1-0-box", record { backing = lit "box"; content = [] }) ∷ [];
}

-- Two images, and a machine over the first.
abbrev store : Store
store = record {
  images =
      (lit "box", record { content = 1 ∷ []; read_only = true })
      ∷ (lit "spare", record { content = 2 ∷ []; read_only = true })
      ∷ [];
  working = [];
  vms = (lit "vm1", box_vm) ∷ [];
  locked = [];
}

abbrev disk : FrontendInfo
disk = record {
  vm_name = lit "vm1";
  disk_number = 0;
  backend_image_name = lit "box";
  backend = some (record { file = lit "box"; identifier = lit "box" });
  content = [];
}

abbrev state : VmState
state = record {
  name = lit "vm1";
  images = disk ∷ [];
  config = record { name = none; image = lit "box"; extra_image = []; fields = [] };
  primary_image = disk;
}

loads : get_vmstate_by_name tools (lit "vm1") store ≡ some state
unfolding get_vmstate_by_name frontend_infos frontend_info parse_frontend_name backend_of
    backend_info path_exists vm_state find_primary_image image_spec match_spec lookup
    storage_safe_encode storage_safe_decode split text_eq lit read_nat is_dot_name
loads = refl

listed : is_listed (lit "vm1") store.vms ≡ true
unfolding storage_safe_decode text_eq lit starts_with
listed = refl

over : any (has_backend tools (lit "box")) state.images ≡ true
unfolding has_backend text_eq lit
over = refl

in_use : UsesImage tools store (lit "vm1") (lit "box")
in_use = record { state = state; listed = listed; loads = loads; over = over }

image_rm-Keeps_example :
    (lookup (lit "box") (image_rm tools false (lit "spare" ∷ lit "box" ∷ []) store).1.images
      ≡ lookup (lit "box") store.images)
    × UsesImage tools
        (image_rm tools false (lit "spare" ∷ lit "box" ∷ []) store).1
        (lit "vm1")
        (lit "box")
image_rm-Keeps_example =
    image_rm-Keeps tools (lit "vm1") (lit "box") (lit "spare" ∷ lit "box" ∷ []) store in_use
