-- ===== src/Cli/InUse.antt =====
-- transient/store.py: a virtual machine that uses an image, and the removal of another image.
use transient.Base.{
  ok-injective, ◌≡◌, refl, sym, ap, ◌∙◌, inl, inr, Bool, true, false, not, ◌&&◌, ◌||◌, Option, none,
  some, List, [], ◌∷◌, map, arith, Bool-cases, filter, any, is_empty, Text, lit, text_eq,
  text_eq_sound, text_eq_refl, starts_with, Result, ok, err, ◌>>=◌, >>=-eq-ok,
}
use transient.Base.Dict.{Dict, lookup, erase, has_key, lookup-erase}
use transient.Store.Name.{storage_safe_encode, storage_safe_decode}
use transient.Store.Frontend.{parse_frontend_name}
use transient.Store.State.{Overlay, CreateConfig, VmDir, Store, Tools}
use transient.Store.Backend.{BackendInfo, backend_info, path_exists}
use transient.Store.Vm.{
  find_primary_image, FrontendInfo, VmState, backend_of, frontend_info, frontend_infos, load_dir,
  or_none, vm_state, get_vmstate_by_name, states_of, unlocked_vmstates, has_backend,
  backend_image_in_use,
}

-- A directory of the store from which a machine of that name is loaded, when the store is listed.
abbrev pub is_listed : Text → Dict VmDir → Bool
is_listed name vms =
    any (λ e. not (starts_with e.0 (lit ".")) && text_eq (storage_safe_decode e.0) name) vms

module _ (tools : Tools) where
  -- A virtual machine that is listed and loads, and one of whose disks is over the backend image `file`.
  pub record UsesImage (s : Store) (name : Text) (file : Text) : Type 0 where
    pub state : VmState
    pub listed : is_listed name s.vms ≡ true
    pub loads : get_vmstate_by_name tools name s ≡ some state
    pub over : any (has_backend tools file) state.images ≡ true

  abbrev uses : Text → VmState → Bool
  uses file v = any (has_backend tools file) v.images

  states_of-uses :
      (s : Store) (name file : Text) (state : VmState) (vms : Dict VmDir)
      → get_vmstate_by_name tools name s ≡ some state
      → uses file state ≡ true
      → is_listed name vms ≡ true
      → any (uses file) (states_of tools s vms) ≡ true
  unfolding states_of
  states_of-uses s name file state [] l u h = cc
  states_of-uses s name file state ((f, d) ∷ vms) l u h =
      elim (Bool-cases (starts_with f (lit "."))) [
        | inl dot ↦ rw dot (states_of-uses s name file state vms l u (ground (arith, dot, h)))
        | inr plain ↦ elim (Bool-cases (text_eq (storage_safe_decode f) name)) [
          | inl same ↦ rw (plain, text_eq_sound (storage_safe_decode f) name same, l, u) refl
          | inr other ↦ rw plain (
              later (get_vmstate_by_name tools (storage_safe_decode f) s) (states_of tools s vms)
                (states_of-uses s name file state vms l u (ground (arith, plain, other, h))))
        ]
      ]
    where
      later :
          (r : Option VmState) (more : List VmState)
          → any (uses file) more ≡ true
          → any
              (uses file)
              (elim r as (λ _. List VmState) [ none ↦ more | some state ↦ state ∷ more ])
            ≡ true
      later none more k = k
      later (some st) more k = rw k (or_true (uses file st))
        where
          or_true : (b : Bool) → (b || true) ≡ true
          or_true true = refl
          or_true false = refl

  -- The names that are reported are those of the machines that use the image.
  in_use-any :
      (info : BackendInfo) (vs : List VmState)
      → is_empty (map (λ (v : VmState). v.name) (filter (uses info.file) vs))
        ≡ not (any (uses info.file) vs)
  in_use-any info [] = refl
  in_use-any info (v ∷ vs) = ground (arith, in_use-any info vs)

  pub UsesImage-in_use :
      (s : Store) (name : Text) (info : BackendInfo)
      → UsesImage s name info.file
      → is_empty (backend_image_in_use tools info s) ≡ false
  unfolding backend_image_in_use unlocked_vmstates
  UsesImage-in_use s name info u = rw (
    in_use-any info (states_of tools s s.vms),
    states_of-uses s name info.file u.state s.vms u.loads u.over u.listed,
  )

  -- The store without one image.
  abbrev pub without : Text → Store → Store
  without g s = record s { images = erase g s.images }

  -- A backing image that is not the removed one is found as before.
  backend_of-without :
      (s : Store) (g file : Text) (b : Option BackendInfo)
      → text_eq g file ≡ false
      → backend_of tools (without g s) file ≡ backend_of tools s file
  unfolding backend_of backend_info path_exists has_key
  backend_of-without s g file b e = ground (arith, lookup-erase file g s.images, e)

  -- A disk over an image that is there has that image as its backend.
  backend_of_there :
      (s : Store) (g : Text) (b : Option BackendInfo)
      → has_key g s.images ≡ true
      → backend_of tools s g ≡ ok b
      → elim b as (λ _. Bool) [ none ↦ false | some info ↦ text_eq info.file g ] ≡ true
  unfolding backend_of backend_info path_exists has_key
  backend_of_there s g b k h = ground (arith, k, h, text_eq_refl g)

  module _ (s : Store) (g : Text) (there : has_key g s.images ≡ true) where
    other_backend :
        (file : Text) (b : Option BackendInfo)
        → backend_of tools s file ≡ ok b
        → elim b as (λ _. Bool) [ none ↦ false | some info ↦ text_eq info.file g ] ≡ false
        → text_eq g file ≡ false
    other_backend file b h k = elim (Bool-cases (text_eq g file)) [
      | inr e ↦ e
      | inl e ↦
          let same = text_eq_sound g file e in
          let found = backend_of_there s g b there (ap (λ f. backend_of tools s f) same ∙ h) in
          absurd (ground (arith, found, k))
    ]

    frontend_info-without :
        (filename : Text) (o : Overlay) (image : FrontendInfo)
        → frontend_info tools s filename o ≡ ok image
        → has_backend tools g image ≡ false
        → frontend_info tools (without g s) filename o ≡ ok image
    unfolding frontend_info has_backend
    frontend_info-without filename o image h k =
        let (n, named, rest) = >>=-eq-ok (parse_frontend_name filename) _ h in
        let (b, backed, made) = >>=-eq-ok (backend_of tools s o.backing) _ rest in
        let k' = ap (λ (i : FrontendInfo). has_backend tools g i) (ok-injective made) ∙ k in
        rw (named, backend_of-without s g o.backing b (other_backend o.backing b backed k'), backed)
          made

    frontend_infos-without :
        (files : Dict Overlay) (images : List FrontendInfo)
        → frontend_infos tools s files ≡ ok images
        → any (has_backend tools g) images ≡ false
        → frontend_infos tools (without g s) files ≡ ok images
    unfolding frontend_infos
    frontend_infos-without [] images h k = h
    frontend_infos-without ((filename, o) ∷ files) images h k =
        let (image, first, rest) = >>=-eq-ok (frontend_info tools s filename o) _ h in
        let (others, later, made) = >>=-eq-ok (frontend_infos tools s files) _ rest in
        let k' = ap (any (has_backend tools g)) (ok-injective made) ∙ k in
        rw
          (
            frontend_info-without filename o image first (ground (arith, k')),
            frontend_infos-without files others later (ground (arith, k')),
          )
          made

    vm_state-images :
        (name : Text) (images : List FrontendInfo) (config : CreateConfig) (state : VmState)
        → vm_state name images config ≡ ok state
        → state.images ≡ images
    unfolding vm_state
    vm_state-images name images config state h =
        let (primary, found, made) = >>=-eq-ok (find_primary_image name config.image images) _ h in
        ap (λ (v : VmState). v.images) (sym (ok-injective made))

    or_none_ok :
        (r : Result VmState) (state : VmState) → or_none tools r ≡ some state → r ≡ ok state
    or_none_ok (ok v) state h = cc
    or_none_ok (err e) state h = cc

    loaded-without :
        (name : Text) (files : Dict Overlay) (config : CreateConfig) (state : VmState)
        → (frontend_infos tools s files >>= λ images. vm_state name images config) ≡ ok state
        → any (has_backend tools g) state.images ≡ false
        → (frontend_infos tools (without g s) files >>= λ images. vm_state name images config)
          ≡ ok state
    loaded-without name files config state h k =
        let (images, found, made) = >>=-eq-ok (frontend_infos tools s files) _ h in
        let k' =
          ap (any (has_backend tools g)) (sym (vm_state-images name images config state made))
          ∙ k in
        rw (frontend_infos-without files images found k') made

    load_dir-without :
        (name : Text) (state : VmState) (d : Option VmDir)
        → any (has_backend tools g) state.images ≡ false
        → load_dir tools name s d ≡ some state
        → load_dir tools name (without g s) d ≡ some state
    load_dir-without name state none k h = cc
    load_dir-without name state (some dir) k h = with_config dir.config h
      where
        with_config :
            (c : Option Text)
            → elim c as (λ _. Option VmState) [
              | none ↦ none
              | some written ↦ or_none tools (
                  tools.load_config written >>= λ config.
                  frontend_infos tools s (tools.list_dir dir.files) >>= λ images.
                  vm_state name images config)
            ]
              ≡ some state
            → elim c as (λ _. Option VmState) [
              | none ↦ none
              | some written ↦ or_none tools (
                  tools.load_config written >>= λ config.
                  frontend_infos tools (without g s) (tools.list_dir dir.files) >>= λ images.
                  vm_state name images config)
            ]
              ≡ some state
        with_config none l = cc
        with_config (some written) l =
            let (config, read, rest) =
              >>=-eq-ok (tools.load_config written) _ (or_none_ok _ state l) in
            let still : (tools.load_config written >>= λ config.
            frontend_infos tools (without g s) (tools.list_dir dir.files) >>= λ images.
            vm_state name images config)
                ≡ ok state =
              rw read (loaded-without name (tools.list_dir dir.files) config state rest k) in
            ap (or_none tools) still

    pub get_vmstate_by_name-without :
        (name : Text) (state : VmState)
        → get_vmstate_by_name tools name s ≡ some state
        → any (has_backend tools g) state.images ≡ false
        → get_vmstate_by_name tools name (without g s) ≡ some state
    unfolding get_vmstate_by_name
    get_vmstate_by_name-without name state h k =
        load_dir-without name state (lookup (storage_safe_encode name) s.vms) k h
