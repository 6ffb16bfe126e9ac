-- ===== src/Cli.antt =====
-- transient/cli.py: the split of the command line, and the commands that copy, stop and remove.
pub mod Copying
pub mod InUse
pub mod Removal
pub mod Ssh
pub mod Listing
pub mod Machines
pub mod Arguments
pub mod Tests
use transient.Base.{
  ◌>>=◌, ℕ, suc, Bool, true, false, not, ◌&&◌, ◌||◌, Option, none, some, List, [], ◌∷◌, ◌++◌, map,
  if◌then◌else◌, take, drop, any, all, is_empty, flat_map, Text, lit, text_eq, has_char, join,
  split, transient_error, value_error, Result, ok, err, and_then,
}
use transient.Base.Dict.{Dict, lookup, insert}
use transient.Store.State.{Store, Tools}
use transient.Store.Backend.{BackendInfo, backend_image_list, delete_image}
use transient.Store.Vm.{
  lock_vmstate_by_name, unsafe_rm_vmstate_by_name, rm_vmstate_by_name, backend_image_in_use,
}

abbrev pub shifted : Option ℕ → Option ℕ
shifted none = none
shifted (some i) = some (suc i)

-- `sys.argv.index("--")`
unfoldable pub separator_index : List Text → Option ℕ
separator_index [] = none
separator_index (arg ∷ argv) =
    let later = shifted (separator_index argv) in if text_eq arg (lit "--") then some 0 else later

abbrev pub split_at : List Text → Option ℕ → List Text × List Text
split_at argv none = (drop 1 argv, [])
split_at argv (some i) = (drop 1 (take i argv), drop (suc i) argv)

-- The split in `main`: the arguments of the program, and those of QEMU.
unfoldable pub split_arguments : List Text → List Text × List Text
split_arguments argv = split_at argv (separator_index argv)

abbrev pub colon : ℕ
colon = b':'

-- `first, second = text.split(":")`
unfoldable pub two_parts : Text → Result (Text × Text)
two_parts text = elim (split colon text) [
  | [] ↦ err value_error
  | first ∷ rest ↦ elim rest [
    | [] ↦ err value_error
    | second ∷ more ↦ if is_empty more then ok (first, second) else err value_error
  ]
]

-- One more path for a virtual machine.
unfoldable pub add_path : Text → Text → Dict (List Text) → Dict (List Text)
add_path vm path config = elim (lookup vm config) [
  | none ↦ insert vm (path ∷ []) config
  | some paths ↦ insert vm (paths ++ (path ∷ [])) config
]

-- The loop over the sources, if the destination is not in a virtual machine.
unfoldable pub group_sources : List Text → Dict (List Text) → Result (Dict (List Text))
group_sources [] config = ok config
group_sources (source ∷ sources) config = do
  (vm, path) ← two_parts source
  group_sources sources (add_path vm path config)

-- What `cp_impl` copies: the paths for each virtual machine, the other side, and the direction.
pub record CopyPlan : Type 0 where
  pub copy_config : Dict (List Text)
  pub destination : Text
  pub copy_to_vm : Bool

abbrev pub in_vm : Text → Bool
in_vm = has_char colon

-- `args.path[:-1]` and `args.path[-1]`, behind the first path.
unfoldable pub last_apart : Text → List Text → List Text × Text
last_apart path [] = ([], path)
last_apart path (next ∷ paths) = let (init, end) = last_apart next paths in (path ∷ init, end)

abbrev checked_plan : List Text → Text → Result CopyPlan
checked_plan sources end =
    if not (in_vm end) && not (all in_vm sources)
    then err
        (transient_error (lit "If destination is not a VM path, all source paths must be VM paths"))
    else if in_vm end && any in_vm sources
    then err
        (transient_error (lit "If destination is a VM path, all source paths must not be VM paths"))
    else if in_vm end
    then (do
      (vm, destination) ← two_parts end
      ok (record {
        copy_config = insert vm sources [];
        destination = destination;
        copy_to_vm = true;
      }))
    else (do
      config ← group_sources sources []
      ok (record { copy_config = config; destination = end; copy_to_vm = false }))

-- `cp_impl` up to the loop over `copy_config`.
unfoldable pub copy_plan : List Text → Result CopyPlan
copy_plan [] = err (transient_error (lit "Missing destination argument"))
copy_plan (path ∷ []) = err (transient_error (lit "Missing destination argument"))
copy_plan (path ∷ next ∷ paths) =
    let (sources, end) = last_apart path (next ∷ paths) in checked_plan sources end

-- What the loop over `copy_config` asks of the image editors, in order.
pub data CopyStep : Type 0 where
  copy_in copy_out : Text → Text → Text → CopyStep

-- For one machine
abbrev pub steps_of : CopyPlan → Text → List Text → List CopyStep
steps_of plan vm paths =
    map
      (λ path.
        if plan.copy_to_vm
        then copy_in vm path plan.destination
        else copy_out vm path plan.destination)
      paths

unfoldable pub copy_steps : CopyPlan → List CopyStep
copy_steps plan = flat_map (λ (vm, paths). steps_of plan vm paths) plan.copy_config

-- The fields of a running instance that `__terminate_vm` reads.
pub record Instance : Type 0 where
  pub transient_pid : ℕ
  pub stateless : Bool

module _ (tools : Tools) where
  -- `__terminate_vm`, with the instances that `scan` finds. The result has the process that SIGTERM is
  -- sent to, if any; `kill` only changes what is logged. `after` is the store once the process has
  -- had its time. The message for several instances ends with the store, which is left out of it.
  unfoldable pub terminate_vm :
      Text
      → List Instance
      → Bool
      → Bool
      → (Store → Store)
      → Store
      → Option ℕ × Result (Unit {0}) × Store
  terminate_vm name [] kill verify after s = (
    none,
    err (transient_error (lit "No running VM found with the name '" ++ (name ++ lit "'"))),
    s,
  )
  terminate_vm name (vm ∷ _ ∷ _) kill verify after s = (
    none,
    err (
        transient_error
          (lit "Multiple running VMs with the name '" ++ (name ++ lit "' in the store"))),
    s,
  )
  terminate_vm name (vm ∷ []) kill verify after s =
      if not verify || vm.stateless then (some vm.transient_pid, ok tt, s) else (
        some vm.transient_pid,
        elim (lock_vmstate_by_name tools name (after s)) [ err e ↦ err e | ok state ↦ ok tt ],
        after s,
      )

  -- `rm_impl`; `stopped` is the store after the attempt to stop the machine, whose errors are logged.
  unfoldable pub rm : Bool → (Text → Store → Store) → List Text → Store → Result (Unit {0}) × Store
  rm force stopped [] s = (ok tt, s)
  rm true stopped (name ∷ names) s =
      and_then (unsafe_rm_vmstate_by_name tools name (stopped name s))
        (λ _ t. rm true stopped names t)
  rm false stopped (name ∷ names) s =
      and_then (rm_vmstate_by_name tools name s) (λ _ t. rm false stopped names t)

  in_use_message : BackendInfo → List Text → Text
  in_use_message item vms =
      lit "Backend '" ++ (item.identifier ++ (lit "' is in use by " ++ join (lit ", ") vms))

  -- The inner loop of `image_rm_impl`
  unfoldable pub remove_images : Bool → List BackendInfo → Store → Result (Unit {0}) × Store
  unfolding in_use_message
  remove_images force [] s = (ok tt, s)
  remove_images force (item ∷ images) s =
      let vms_using_image = backend_image_in_use tools item s in
      if not (is_empty vms_using_image) && not force
      then (err (transient_error (in_use_message item vms_using_image)), s)
      else and_then (delete_image item.file s) (λ _ t. remove_images force images t)

  abbrev remove_listed : Bool → Text → Result (List BackendInfo) → Store → Result (Unit {0}) × Store
  remove_listed force name (err e) s = (err e, s)
  remove_listed force name (ok []) s =
      (err (transient_error (lit "No image in backend with name '" ++ (name ++ lit "'"))), s)
  remove_listed force name (ok (item ∷ images)) s = remove_images force (item ∷ images) s

  -- `image_rm_impl`
  unfoldable pub image_rm : Bool → List Text → Store → Result (Unit {0}) × Store
  image_rm force [] s = (ok tt, s)
  image_rm force (name ∷ names) s =
      and_then (remove_listed force name (backend_image_list tools (some name) s) s)
        (λ _ t. image_rm force names t)
