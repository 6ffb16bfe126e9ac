-- ===== src/Store/Vm/Load.antt =====
-- transient/store.py: a virtual machine that `create_vmstate` made is loaded by `get_vmstate_by_name`.
use transient.Store.Frontend.RoundTrip.{parse_frontend_name-frontend_name}
use mathlib.Core.Path.{subst}
use transient.Base.{
  Reorders, reorder_cons, reorder_nil, reorder_swap, reorder_trans, ℕ, suc, ◌≡◌, refl, sym, ap, ◌⊎◌,
  inl, inr, some, List, [], ◌∷◌, between, Bool-cases, All, Text, text_eq, text_eq_sound,
  text_eq_refl, Result, ok,
}
use transient.Base.Dict.{lookup}
use transient.Store.Vm.Images.{and_then-ok}
use transient.Base.{ok-injective}
use transient.Base.Utf8.{IsScalar}
use transient.Base.Dict.{lookup-insert, insert, Dict}
use transient.Store.Spec.{ImageSpec, image_spec}
use transient.Store.Frontend.{FrontendName, frontend_name, parse_frontend_name}
use transient.Store.State.{CreateConfig, VmDir, Overlay, Store, Tools}
use transient.Store.Backend.Retrieve.{KeepsImages}
use transient.Store.Vm.{
  vm_name_of, storage_safe_encode, create_vmstate, get_vmstate_by_name, load_dir, VmState,
  find_primary_image, vm_state, FrontendInfo, frontend_infos, create_vm_image, create_images,
}
use transient.Store.Vm.Create.{
  created, create_vmstate-Created, failed, not_left, Whole, Created, create_vm_image-KeepsImages,
}
use transient.Store.Vm.Loads.{IsScalarSpec, info_of, Loads-frontend_info, AllLoad, AllLoad-Kept}
use transient.Store.Vm.Files.{create_vm_image-Made, Made-AllLoad}

-- What the file of a configuration holds is loaded as that configuration.
abbrev pub IsStored : Tools → CreateConfig → Type 0
IsStored tools config =
    (written : Text) → tools.dump_config config ≡ ok written → tools.load_config written ≡ ok config

-- A file of the name is in the directory.
abbrev Named : Text → Dict Overlay → Type 0
Named filename [] = ⊥
Named filename ((j, o) ∷ files) = (j ≡ filename) ⊎ Named filename files

lookup-Named :
    (filename : Text) (files : Dict Overlay) (o : Overlay)
    → lookup filename files ≡ some o
    → Named filename files
unfolding lookup
lookup-Named filename [] o h = cc
lookup-Named filename ((j, p) ∷ files) o h = elim (Bool-cases (text_eq j filename)) [
  | inl e ↦ inl (text_eq_sound j filename e)
  | inr e ↦ inr (lookup-Named filename files o (rw (e, lookup) at h))
]

Named-Reorders :
    (filename : Text) {files files' : Dict Overlay}
    → Reorders files files'
    → Named filename files
    → Named filename files'
Named-Reorders filename reorder_nil h = h
Named-Reorders filename (reorder_cons x d) (inl h) = inl h
Named-Reorders filename (reorder_cons x d) (inr h) = inr (Named-Reorders filename d h)
Named-Reorders filename (reorder_swap x y l) (inl h) = inr (inl h)
Named-Reorders filename (reorder_swap x y l) (inr (inl h)) = inl h
Named-Reorders filename (reorder_swap x y l) (inr (inr h)) = inr (inr h)
Named-Reorders filename (reorder_trans d d') h =
    Named-Reorders filename d' (Named-Reorders filename d h)

AllLoad-Reorders :
    (tools : Tools) (s : Store) {files files' : Dict Overlay}
    → Reorders files files'
    → AllLoad tools s files
    → AllLoad tools s files'
unfolding AllLoad
AllLoad-Reorders tools s reorder_nil a = a
AllLoad-Reorders tools s (reorder_cons x d) a = (a.0, AllLoad-Reorders tools s d a.1)
AllLoad-Reorders tools s (reorder_swap x y l) a = (a.1.0, (a.0, a.1.1))
AllLoad-Reorders tools s (reorder_trans d d') a =
    AllLoad-Reorders tools s d' (AllLoad-Reorders tools s d a)

-- An image of the name is among the images.
abbrev HasName : Text → List FrontendInfo → Type 0
HasName name [] = ⊥
HasName name (image ∷ images) = (image.backend_image_name ≡ name) ⊎ HasName name images

find_primary_image-HasName :
    (name config_image : Text) (spec : ImageSpec) (images : List FrontendInfo)
    → image_spec config_image ≡ ok spec
    → HasName spec.name images
    → (primary : FrontendInfo) × (find_primary_image name config_image images ≡ ok primary)
      × (primary.backend_image_name ≡ spec.name)
unfolding find_primary_image
find_primary_image-HasName name config_image spec [] parsed h = absurd h
find_primary_image-HasName name config_image spec (image ∷ images) parsed h =
    elim (Bool-cases (text_eq image.backend_image_name spec.name)) [
      | inl e ↦ (image, rw (parsed, e, find_primary_image) refl, text_eq_sound _ _ e)
      | inr e ↦ elim h [
        | inl same ↦ cc (rw (same, text_eq_refl) at e)
        | inr later ↦
            let (primary, found, is_primary) =
              find_primary_image-HasName name config_image spec images parsed later in
            (primary, rw (parsed, e, found, find_primary_image) refl, is_primary)
      ]
    ]

module _ (tools : Tools) (waits : (s : Store) → KeepsImages s (tools.meanwhile s)) where
  -- All files of the directory load.
  create_images-AllLoad :
      (vm_name : Text) (num : ℕ) (specs : List Text) (files files' : Dict Overlay) (s t : Store)
      → All IsScalar vm_name
      → All IsScalarSpec specs
      → AllLoad tools s files
      → create_images tools vm_name num specs files s ≡ (ok files', t)
      → AllLoad tools t files'
  unfolding create_images
  create_images-AllLoad vm_name num [] files files' s t hv hs a h =
      let same : files ≡ files' = ok-injective (ap (λ p. p.0) h) in
      let at : s ≡ t = ap (λ p. p.1) h in rw (← same, ← at) a
  create_images-AllLoad vm_name num (spec ∷ specs) files files' s t hv hs a h =
      let (between, u, one, rest) =
        and_then-ok (create_vm_image tools spec vm_name num files s) _ files' t h in
      let m = create_vm_image-Made tools spec vm_name num files between s u one in
      let k : KeepsImages s u =
        subst (λ p. KeepsImages s p.1) one
          (create_vm_image-KeepsImages tools waits spec vm_name num files s) in
      let a' =
        Made-AllLoad tools spec vm_name num files between u hv hs.0 m
          (AllLoad-Kept tools s u files k.kept a) in
      create_images-AllLoad vm_name (suc num) specs between files' u t hv hs.1 a' rest

  -- The information about the files of a directory that loads.
  infos-load :
      (s : Store) (files : Dict Overlay)
      → AllLoad tools s files
      → (images : List FrontendInfo) × (frontend_infos tools s files ≡ ok images)
  unfolding frontend_infos AllLoad
  infos-load s [] a = ([], refl)
  infos-load s ((filename, o) ∷ files) a =
      let (images, e) = infos-load s files a.1 in
      (
        info_of tools s filename o a.0 ∷ images,
        rw (Loads-frontend_info tools s filename o a.0, e, frontend_infos),
      )

  -- A file of the name gives an image of the name that is in it.
  infos-named :
      (s : Store) (head : Text) (n : FrontendName) (files : Dict Overlay)
      (images : List FrontendInfo)
      → parse_frontend_name head ≡ ok n
      → Named head files
      → AllLoad tools s files
      → frontend_infos tools s files ≡ ok images
      → HasName n.backend_image_name images
  unfolding AllLoad frontend_infos info_of
  infos-named s head n [] images p h a e = absurd h
  infos-named s head n ((j, o) ∷ files) images p h a e =
      let (others, x) = infos-load s files a.1 in
      let split : images ≡ info_of tools s j o a.0 ∷ others =
        sym
          (ok-injective (cc (rw (Loads-frontend_info tools s j o a.0, x, frontend_infos) at e))) in
      rw split (elim h [
        | inl same ↦
            let names : a.0.n ≡ n = ok-injective (cc (a.0.named, p, ap parse_frontend_name same)) in
            inl (ap (λ (m : FrontendName). m.backend_image_name) names)
        | inr later ↦ inr (infos-named s head n files others p later a.1 x)
      ])

  load_dir-some :
      (name written : Text) (s : Store) (dir : VmDir) (config : CreateConfig)
      (images : List FrontendInfo) (state : VmState)
      → dir.config ≡ some written
      → tools.load_config written ≡ ok config
      → frontend_infos tools s (tools.list_dir dir.files) ≡ ok images
      → vm_state name images config ≡ ok state
      → load_dir tools name s (some dir) ≡ some state
  load_dir-some name written s dir config images state c l i v = rw (c, l, i, v) refl

  -- A virtual machine as it is loaded.
  pub record Loaded (config : CreateConfig) (name : Text) (t : Store) : Type 0 where
    pub state : VmState
    pub spec : ImageSpec
    pub loaded : get_vmstate_by_name tools name t ≡ some state
    pub name_eq : state.name ≡ name
    pub config_eq : state.config ≡ config
    pub spec_eq : image_spec config.image ≡ ok spec
    pub primary : state.primary_image.backend_image_name ≡ spec.name

  Whole-Loaded :
      ((files : Dict Overlay) → Reorders files (tools.list_dir files))
      → (config : CreateConfig) (name : Text) (s t : Store) → IsStored tools config
      → vm_name_of tools config s ≡ name
      → All IsScalar name
      → All IsScalarSpec (config.image ∷ config.extra_image)
      → Whole tools waits config s t
      → Loaded config name t
  unfolding get_vmstate_by_name AllLoad vm_state
  Whole-Loaded lists config name s t stored same hv hs w =
      let first = w.images.0 in
      let r = first.retrieved in
      let spec = r.spec in
      let dir : VmDir = record { config = some w.written; files = w.files } in
      let final : Store = record w.before { vms = insert (storage_safe_encode name) dir s.vms } in
      let head = frontend_name name 0 spec.name in
      let there : Named head w.files =
        lookup-Named head w.files first.overlay
          (rw (← same, ← r.identifier_eq (hs.0 spec r.spec_eq)) first.there) in
      let loads : AllLoad tools w.before w.files =
        create_images-AllLoad name 0 (config.image ∷ config.extra_image) [] w.files s w.before hv hs
          tt (rw same at w.built) in
      let listed : AllLoad tools final (tools.list_dir w.files) =
        AllLoad-Reorders tools final (lists w.files)
          (AllLoad-Kept tools w.before final w.files (λ f i k. k) loads) in
      let (images, e) = infos-load final (tools.list_dir w.files) listed in
      let n : FrontendName = record {
        vm_name = name;
        disk_number = 0;
        backend_image_name = spec.name;
      } in
      let (primary, found, is_primary) =
        find_primary_image-HasName name config.image spec images r.spec_eq (
          infos-named final head n (tools.list_dir w.files) images
            (parse_frontend_name-frontend_name name 0 spec.name hv (hs.0 spec r.spec_eq))
            (Named-Reorders head (lists w.files) there) listed e) in
      rw w.shape (
        rw same (record {
          state = record { name = name; images = images; config = config; primary_image = primary };
          spec = spec;
          loaded =
              rw (lookup-insert, text_eq_refl, get_vmstate_by_name)
                (load_dir-some name w.written final dir config images _ refl
                  (stored w.written w.dumped) e (rw (found, vm_state) refl));
          name_eq = refl;
          config_eq = refl;
          spec_eq = r.spec_eq;
          primary = is_primary;
        }))

  Created-Loaded :
      ((files : Dict Overlay) → Reorders files (tools.list_dir files))
      → (config : CreateConfig) (name : Text) (s t : Store) (r : Result Text)
      → IsStored tools config
      → r ≡ ok name
      → All IsScalar name
      → All IsScalarSpec (config.image ∷ config.extra_image)
      → Created tools waits config s r t
      → Loaded config name t
  Created-Loaded lists config name s t r stored h hv hs (failed e x k) = cc
  Created-Loaded lists config name s t r stored h hv hs (not_left e x k w) = cc
  Created-Loaded lists config name s t r stored h hv hs (created x w) =
      Whole-Loaded lists config name s t stored (ok-injective (cc (x, h))) hv hs w

  -- A virtual machine that `create_vmstate` has made under a name can be loaded by that name, in whatever order
  -- the directory lists its files: the state has the name and the configuration that were given, and its primary
  -- image is one of the image of that configuration. The text that the configuration is written as is taken to be
  -- loaded as the same configuration, the listing of a directory to be a permutation of its files, the
  -- name and the names of the images to hold no surrogates, and other processes to change
  -- neither images nor virtual machines meanwhile, though they may add images.
  pub get_vmstate_by_name-create_vmstate :
      ((files : Dict Overlay) → Reorders files (tools.list_dir files))
      → (config : CreateConfig) (name : Text) (s t : Store) → IsStored tools config
      → create_vmstate tools config s ≡ (ok name, t)
      → All IsScalar name
      → All IsScalarSpec (config.image ∷ config.extra_image)
      → Loaded config name t
  get_vmstate_by_name-create_vmstate lists config name s t stored h hv hs =
      Created-Loaded lists config name s t (create_vmstate tools config s).0 stored
        (ap (λ p. p.0) h) hv hs
        (subst
          (λ (p : Result Text × Store).
            Created tools waits config s (create_vmstate tools config s).0 p.1)
          h (create_vmstate-Created tools waits config s))
