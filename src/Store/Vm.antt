-- ===== src/Store/Vm.antt =====
-- transient/store.py: `VmPersistentState` and `VmStore`.
pub mod Abstract
pub mod Create
pub mod Files
pub mod Images
pub mod Load
pub mod Listing
pub mod Loads
pub mod Refine
use transient.Base.{
  Exn, ◌>>=◌, and_then, ℕ, suc, Bool, false, not, ◌||◌, Option, none, some, List, [], ◌∷◌, ◌++◌,
  map, if◌then◌else◌, filter, any, Text, lit, text_eq, starts_with, transient_error, lock_held,
  assertion_error, file_not_found, Result, ok, err,
}
use transient.Base.Dict.{Dict, lookup, insert, erase, has_key}
use transient.Store.Name.{storage_safe_encode, storage_safe_decode}
use transient.Store.Spec.{image_spec}
use transient.Store.Frontend.{frontend_name, parse_frontend_name}
use transient.Store.State.{Bytes, Overlay, CreateConfig, VmDir, Store, Tools, is_dot_name}
use transient.Store.Backend.{BackendInfo, backend_info, path_exists, retrieve_image}

-- `FrontendImageInfo`; `backend` is none if the backing image is gone.
pub record FrontendInfo : Type 0 where
  pub vm_name : Text
  pub disk_number : ℕ
  pub backend_image_name : Text
  pub backend : Option BackendInfo
  pub content : Bytes

-- `VmPersistentState`
pub record VmState : Type 0 where
  pub name : Text
  pub images : List FrontendInfo
  pub config : CreateConfig
  pub primary_image : FrontendInfo

-- `os.path.exists(self.__vm_dir(name))`
unfoldable pub dir_exists : Text → Store → Bool
dir_exists file s = is_dot_name file || has_key file s.vms

-- `vmstate_exists`
unfoldable pub vmstate_exists : Text → Store → Bool
vmstate_exists name s = dir_exists (storage_safe_encode name) s

-- The loop of `__find_primary_image`; the specification is read in it, so only if there is an image.
unfoldable pub find_primary_image : Text → Text → List FrontendInfo → Result FrontendInfo
find_primary_image name config_image [] =
    err (transient_error (lit "Unable to find primary image for '" ++ (name ++ lit "'")))
find_primary_image name config_image (image ∷ images) = do
  spec ← image_spec config_image
  if text_eq image.backend_image_name spec.name
      then ok image
      else find_primary_image name config_image images

-- `VmPersistentState.__init__`
unfoldable pub vm_state : Text → List FrontendInfo → CreateConfig → Result VmState
vm_state name images config = do
  primary ← find_primary_image name config.image images
  ok (record { name = name; images = images; config = config; primary_image = primary })

module _ (tools : Tools) where
  -- `self.backend`: a backing image that cannot be read is an error if it is there.
  unfoldable pub backend_of : Store → Text → Result (Option BackendInfo)
  backend_of s file = elim (backend_info tools s file) [
    | ok info ↦ ok (some info)
    | err e ↦ if path_exists s file then err e else ok none
  ]

  -- `FrontendImageInfo.__init__`
  unfoldable pub frontend_info : Store → Text → Overlay → Result FrontendInfo
  frontend_info s filename overlay = do
    n ← parse_frontend_name filename
    b ← backend_of s overlay.backing
    ok (record {
      vm_name = n.vm_name;
      disk_number = n.disk_number;
      backend_image_name = n.backend_image_name;
      backend = b;
      content = overlay.content;
    })

  -- The loop over the files of a VM's directory.
  unfoldable pub frontend_infos : Store → Dict Overlay → Result (List FrontendInfo)
  frontend_infos s [] = ok []
  frontend_infos s ((filename, overlay) ∷ files) = do
    image ← frontend_info s filename overlay
    images ← frontend_infos s files
    ok (image ∷ images)

  abbrev pub or_none : Result VmState → Option VmState
  or_none (ok state) = some state
  or_none (err e) = none

  abbrev pub load_dir : Text → Store → Option VmDir → Option VmState
  load_dir name s none = none
  load_dir name s (some dir) = elim dir.config [
    | none ↦ none
    | some written ↦ or_none (do
      config ← tools.load_config written
      images ← frontend_infos s (tools.list_dir dir.files)
      vm_state name images config)
  ]

  -- `get_vmstate_by_name`: whatever is raised while the state is read, there is none.
  unfoldable pub get_vmstate_by_name : Text → Store → Option VmState
  get_vmstate_by_name name s = load_dir name s (lookup (storage_safe_encode name) s.vms)

  -- What a new VM's directory gets for one image: its file, and the overlay over the backing image.
  abbrev made : Text → Dict Overlay → Text → Result Bytes → Result (Dict Overlay)
  made filename files backing (err e) = err e
  made filename files backing (ok content) =
      ok (insert filename (record { backing = backing; content = content }) files)

  -- `__create_vm_image`, in a directory that holds `files`. The information about the new image, which
  -- is not used, is read from the file, and its failure is a failure of the call.
  abbrev checked : Store → Text → Result (Dict Overlay) → Result (Dict Overlay)
  checked s filename (err e) = err e
  checked s filename (ok files) = elim (lookup filename files) [
    | none ↦ err file_not_found
    | some overlay ↦ do _ ← frontend_info s filename overlay; ok files
  ]

  abbrev over_image :
      Text → ℕ → Dict Overlay → Result BackendInfo × Store → Result (Dict Overlay) × Store
  over_image vm_name num files (err e, s) = (err e, s)
  over_image vm_name num files (ok info, s) =
      let filename = frontend_name vm_name num info.identifier in
      (
        checked s filename (
            if has_key filename files
            then ok files
            else made filename files info.file (tools.create_overlay info.file)),
        s,
      )

  unfoldable pub create_vm_image :
      Text → Text → ℕ → Dict Overlay → Store → Result (Dict Overlay) × Store
  create_vm_image spec vm_name num files s =
      over_image vm_name num files (retrieve_image tools spec s)

  -- The images of a new VM, from number `num` on.
  unfoldable pub create_images :
      Text → ℕ → List Text → Dict Overlay → Store → Result (Dict Overlay) × Store
  create_images vm_name num [] files s = (ok files, s)
  create_images vm_name num (spec ∷ specs) files s =
      and_then (create_vm_image spec vm_name num files s)
        (λ files' s'. create_images vm_name (suc num) specs files' s')

  -- The end of `create_vmstate`, once the directory has its new name.
  abbrev left : Text → Option Exn → Result Text
  left name none = ok name
  left name (some e) = err e

  -- The directory gets its name, if it can be renamed.
  abbrev renamed : Text → VmDir → Store → Option Exn → Result Text × Store
  renamed name dir s (some e) = (err e, s)
  renamed name dir s none =
      let t = record s { vms = insert (storage_safe_encode name) dir s.vms } in
      (left name (tools.leave_tempdir t), t)

  -- `__create_vm_config`, and what follows it
  abbrev written_to : Text → Dict Overlay → Store → Result Text → Result Text × Store
  written_to name files s (err e) = (err e, s)
  written_to name files s (ok written) =
      renamed name (record { config = some written; files = files }) s (tools.rename_dir s)

  abbrev placed : Text → CreateConfig → Result (Dict Overlay) × Store → Result Text × Store
  placed name config (err e, s) = (err e, s)
  placed name config (ok files, s) = written_to name files s (tools.dump_config config)

  abbrev vm_name_of : CreateConfig → Store → Text
  vm_name_of config s = elim config.name [ none ↦ tools.fresh_name s | some name ↦ name ]

  -- `create_vmstate`. The directory is made under a temporary name, which is removed if anything is
  -- raised, and renamed at the end; what is raised behind that leaves the new directory there.
  unfoldable pub create_vmstate : CreateConfig → Store → Result Text × Store
  create_vmstate config s =
      let name = vm_name_of config s in
      if vmstate_exists name s
      then (err (transient_error (lit "A VM with name " ++ (name ++ lit " already exists"))), s)
      else placed name config (create_images name 0 (config.image ∷ config.extra_image) [] s)

  -- `lock_vmstate_by_name`, up to its `yield`.
  unfoldable pub lock_vmstate_by_name : Text → Store → Result VmState
  lock_vmstate_by_name name s =
      let file = storage_safe_encode name in
      if not (vmstate_exists name s)
      then err (transient_error (lit "No VM with name '" ++ (name ++ lit "' found")))
      else elim (lookup file s.vms) [
        | none ↦
            err
              (transient_error (lit "VM with name '" ++ (name ++ lit "' is missing configuration")))
        | some dir ↦ elim dir.config [
          | none ↦
              err (
                transient_error
                  (lit "VM with name '" ++ (name ++ lit "' is missing configuration")))
          | some written ↦
              if any (text_eq file) s.locked
              then err (lock_held name)
              else elim (get_vmstate_by_name name s) [
                | none ↦ err assertion_error
                | some state ↦ ok state
              ]
        ]
      ]

  -- The directory is gone, or what is left of it is there.
  abbrev pub rmtree_of : Text → Store → Option (VmDir × Exn) → Result (Unit {0}) × Store
  rmtree_of file s none = (ok tt, record s { vms = erase file s.vms })
  rmtree_of file s (some (dir, e)) = (err e, record s { vms = insert file dir s.vms })

  -- `shutil.rmtree` of a directory of the VM store; the store's own directory, or its parent, takes
  -- every VM with it.
  unfoldable pub remove_dir : Text → Store → Result (Unit {0}) × Store
  remove_dir file s =
      if is_dot_name file then (ok tt, record s { vms = [] }) else elim (lookup file s.vms) [
        | none ↦ (err file_not_found, s)
        | some dir ↦ rmtree_of file s (tools.rmtree dir)
      ]

  -- `unsafe_rm_vmstate_by_name` and `rm_vmstate`
  unfoldable pub unsafe_rm_vmstate_by_name : Text → Store → Result (Unit {0}) × Store
  unsafe_rm_vmstate_by_name name s = remove_dir (storage_safe_encode name) s

  -- `rm_vmstate_by_name`
  unfoldable pub rm_vmstate_by_name : Text → Store → Result (Unit {0}) × Store
  rm_vmstate_by_name name s = elim (lock_vmstate_by_name name s) [
    | err e ↦ (err e, s)
    | ok state ↦ remove_dir (storage_safe_encode name) s
  ]

  -- The loop of `unlocked_vmstates` over the directories, without those that begin with a dot.
  unfoldable pub states_of : Store → Dict VmDir → List VmState
  states_of s [] = []
  states_of s ((file, _) ∷ rest) =
      let more = states_of s rest in
      if starts_with file (lit ".")
      then more
      else elim (get_vmstate_by_name (storage_safe_decode file) s) [
        | none ↦ more
        | some state ↦ state ∷ more
      ]

  -- `unlocked_vmstates`
  unfoldable pub unlocked_vmstates : Store → List VmState
  unlocked_vmstates s = states_of s s.vms

  -- `frontend_image.backend == backend_image`: images are equal if their paths are.
  unfoldable pub has_backend : Text → FrontendInfo → Bool
  has_backend file image = elim image.backend [ none ↦ false | some info ↦ text_eq info.file file ]

  -- `backend_image_in_use`
  unfoldable pub backend_image_in_use : BackendInfo → Store → List Text
  backend_image_in_use image s =
      map (λ (v : VmState). v.name)
        (filter (λ (v : VmState). any (has_backend image.file) v.images) (unlocked_vmstates s))
