-- ===== src/Store/Vm/Refine.antt =====
-- transient/store.py: `VmStore` implements a finite map from names to configurations.
use transient.Base.{
  ◌≡◌, refl, sym, ap, ◌∙◌, ◌≢◌, ◌⊎◌, inl, inr, Bool, true, false, Option, none, some, List, [], ◌∷◌,
  arith, if◌then◌else◌, Bool-cases, Option-cases, all, All, Text, text_eq, text_eq_sound,
  text_eq_refl, Exn, Result, ok, err,
}
use transient.Base.Utf8.{IsScalar}
use transient.Base.Dict.{insert, erase, lookup-insert, lookup-erase, Dict, lookup, has_key}
use transient.Store.Name.{storage_safe_encode}
use transient.Store.Name.RoundTrip.{storage_safe_encode_inj}
use transient.Store.State.{Overlay, Tools, CreateConfig, VmDir, Store}
use transient.Store.Backend.Retrieve.{KeepsImages}
use transient.Store.Vm.Create.{Whole, not_left, Created, failed, created, create_vmstate-Created}
use transient.Store.Vm.{
  VmState, create_vmstate, vm_name_of, lock_vmstate_by_name, remove_dir, rm_vmstate_by_name,
  dir_exists, vmstate_exists,
}
use transient.Store.Vm.Abstract.{
  config_of, view, VmOp, create, remove, IsVmName, IsVmOp, Allowed, Adds, Removes, SameVms, Runs,
  done, after,
}

-- Two names are stored alike exactly if they are equal.
text_eq-storage_safe_encode :
    (a b : Text)
    → All IsScalar a
    → All IsScalar b
    → text_eq (storage_safe_encode a) (storage_safe_encode b) ≡ text_eq b a
text_eq-storage_safe_encode a b ha hb = elim (Bool-cases (text_eq b a)) [
  | inl e ↦ rw (e, text_eq_sound b a e) (text_eq_refl (storage_safe_encode a))
  | inr e ↦ elim (Bool-cases (text_eq (storage_safe_encode a) (storage_safe_encode b))) [
    | inl k ↦
        let same =
          storage_safe_encode_inj a b ha hb
            (text_eq_sound (storage_safe_encode a) (storage_safe_encode b) k) in
        absurd (ground (arith, e, text_eq_refl a, same))
    | inr k ↦ rw (e, k)
  ]
]

has_key-false : (file : Text) (vms : Dict VmDir) → has_key file vms ≡ false → lookup file vms ≡ none
unfolding has_key
has_key-false file vms h = go (lookup file vms) refl h
  where
    go :
        (r : Option VmDir)
        → lookup file vms ≡ r
        → elim r [ none ↦ false | some v ↦ true ] ≡ false
        → lookup file vms ≡ none
    go none same k = same
    go (some d) same k = cc

vmstate_exists-false :
    (name : Text) (s : Store) → vmstate_exists name s ≡ false → view s name ≡ none
unfolding vmstate_exists dir_exists
vmstate_exists-false name s h =
    ap config_of (has_key-false (storage_safe_encode name) s.vms (ground (arith, h)))

module _ (tools : Tools) (waits : (s : Store) → KeepsImages s (tools.meanwhile s)) where
  abbrev named : Text → Result (Unit {0}) × Store → Result Text × Store
  named name (ok u, t) = (ok name, t)
  named name (err e, t) = (err e, t)

  -- An operation on a store, which gives the name of the machine.
  abbrev pub apply : VmOp → Store → Result Text × Store
  apply (create config) s = create_vmstate tools config s
  apply (remove name) s = named name (rm_vmstate_by_name tools name s)

  Whole-Adds :
      (config : CreateConfig) (s t : Store)
      → All IsScalar (vm_name_of tools config s)
      → Whole tools waits config s t
      → Adds tools.dump_config (view s) config (vm_name_of tools config s) (view t)
  Whole-Adds config s t n w =
      let name = vm_name_of tools config s in
      (
        vmstate_exists-false name s w.free,
        chosen config.name,
        w.written,
        w.dumped,
        λ m hm.
            rw
              (
                w.shape,
                lookup-insert (storage_safe_encode m) (storage_safe_encode name)
                    (record { config = some w.written; files = w.files }) s.vms,
                text_eq-storage_safe_encode name m n hm,
              )
              (pick (text_eq m name) (lookup (storage_safe_encode m) s.vms) w.written w.files),
      )
    where
      chosen :
          (c : Option Text)
          → (c ≡ none) ⊎ (c ≡ some (elim c [ none ↦ tools.fresh_name s | some name ↦ name ]))
      chosen none = inl refl
      chosen (some name) = inr refl

      pick :
          (b : Bool) (d : Option VmDir) (written : Text) (files : Dict Overlay)
          → config_of (if b then some (record { config = some written; files = files }) else d)
            ≡ (if b then some written else config_of d)
      pick true d written files = refl
      pick false d written files = refl

  create-Allowed :
      (config : CreateConfig) (s : Store) (r : Result Text) (t : Store)
      → All IsScalar (vm_name_of tools config s)
      → Created tools waits config s r t
      → Allowed tools.dump_config (view s) (create config) r (view t)
  create-Allowed config s r t n (failed e re k) =
      rw re (inl (λ m hm. ap (λ vms. config_of (lookup (storage_safe_encode m) vms)) k.vms_eq))
  create-Allowed config s r t n (created re w) = rw re (Whole-Adds config s t n w)
  create-Allowed config s r t n (not_left e re x w) =
      rw re (inr (vm_name_of tools config s, Whole-Adds config s t n w))

  -- Only a machine that is there, with its configuration, can be locked.
  lock_vmstate_by_name-view :
      (name : Text) (s : Store) (state : VmState)
      → lock_vmstate_by_name tools name s ≡ ok state
      → view s name ≢ none
  unfolding lock_vmstate_by_name
  lock_vmstate_by_name-view name s state h = elim (Bool-cases (vmstate_exists name s)) [
    | inr gone ↦ λ v. ground (arith, gone, h)
    | inl there ↦ λ v. ground (arith, there, h, v)
  ]

  erased :
      (name : Text) (s : Store)
      → All IsScalar name
      → (m : Text) → All IsScalar m
      → config_of (lookup (storage_safe_encode m) (erase (storage_safe_encode name) s.vms))
        ≡ (if text_eq m name then none else view s m)
  erased name s scalar m hm =
      rw
        (
          lookup-erase (storage_safe_encode m) (storage_safe_encode name) s.vms,
          text_eq-storage_safe_encode name m scalar hm,
        )
        (pick (text_eq m name) (lookup (storage_safe_encode m) s.vms))
    where
      pick :
          (b : Bool) (d : Option VmDir)
          → config_of (if b then none else d) ≡ (if b then none else config_of d)
      pick true d = refl
      pick false d = refl

  -- Of a directory whose removal failed there is left its configuration, or the machine is gone.
  remains :
      (name : Text) (s : Store) (dir rest : VmDir)
      → All IsScalar name
      → view s name ≢ none
      → lookup (storage_safe_encode name) s.vms ≡ some dir
      → (rest.config ≡ none) ⊎ (rest.config ≡ dir.config)
      → SameVms (view s) (view (record s { vms = insert (storage_safe_encode name) rest s.vms }))
        ⊎ Removes tools.dump_config
            (view s)
            name
            (view (record s { vms = insert (storage_safe_encode name) rest s.vms }))
  remains name s dir rest scalar there at h = elim h [
    | inl gone ↦ inr (there, λ m hm. now m hm ∙ as_removed m (text_eq m name) gone)
    | inr same ↦ inl (λ m hm. now m hm ∙ as_it_was m hm (text_eq m name) refl same)
  ]
    where
      now :
          (m : Text)
          → All IsScalar m
          → view (record s { vms = insert (storage_safe_encode name) rest s.vms }) m
            ≡ config_of (if text_eq m name then some rest else lookup (storage_safe_encode m) s.vms)
      now m hm =
          rw
            (
              lookup-insert (storage_safe_encode m) (storage_safe_encode name) rest s.vms,
              text_eq-storage_safe_encode name m scalar hm,
            )
            refl

      as_removed :
          (m : Text) (b : Bool)
          → rest.config ≡ none
          → config_of (if b then some rest else lookup (storage_safe_encode m) s.vms)
            ≡ (if b then none else view s m)
      as_removed m true gone = gone
      as_removed m false gone = refl

      as_it_was :
          (m : Text)
          → All IsScalar m
          → (b : Bool) → text_eq m name ≡ b
          → rest.config ≡ dir.config
          → config_of (if b then some rest else lookup (storage_safe_encode m) s.vms) ≡ view s m
      as_it_was m hm true e same = rw (text_eq_sound m name e) (same ∙ sym (ap config_of at))
      as_it_was m hm false e same = refl

  remove_dir-Allowed :
      ((d rest : VmDir) (e : Exn)
        → tools.rmtree d ≡ some (rest, e)
        → (rest.config ≡ none) ⊎ (rest.config ≡ d.config))
      → (name : Text) (s : Store) → IsVmName name
      → view s name ≢ none
      → Allowed tools.dump_config
          (view s)
          (remove name)
          (named name (remove_dir tools (storage_safe_encode name) s)).0
          (view (named name (remove_dir tools (storage_safe_encode name) s)).1)
  unfolding remove_dir
  remove_dir-Allowed leaves name s (scalar, plain) there =
      elim (Option-cases (lookup (storage_safe_encode name) s.vms)) [
        | inl e ↦ rw (plain, e) (inl (λ m hm. refl))
        | inr (dir, e) ↦ elim (Option-cases (tools.rmtree dir)) [
          | inl all ↦ rw (plain, e, all) (there, erased name s scalar)
          | inr ((rest, x), some_of_it) ↦
              rw (plain, e, some_of_it)
                (remains name s dir rest scalar there e (leaves dir rest x some_of_it))
        ]
      ]

  remove-Allowed :
      ((d rest : VmDir) (e : Exn)
        → tools.rmtree d ≡ some (rest, e)
        → (rest.config ≡ none) ⊎ (rest.config ≡ d.config))
      → (name : Text) (s : Store) → IsVmName name
      → Allowed tools.dump_config
          (view s)
          (remove name)
          (apply (remove name) s).0
          (view (apply (remove name) s).1)
  unfolding rm_vmstate_by_name
  remove-Allowed leaves name s valid = go (lock_vmstate_by_name tools name s) refl
    where
      go :
          (r : Result VmState)
          → lock_vmstate_by_name tools name s ≡ r
          → Allowed tools.dump_config
              (view s)
              (remove name)
              (named name (elim r as (λ _. Result (Unit {0}) × Store) [
                | err e ↦ (err e, s)
                | ok state ↦ remove_dir tools (storage_safe_encode name) s
              ])).0
              (view
                (named name (elim r as (λ _. Result (Unit {0}) × Store) [
                  | err e ↦ (err e, s)
                  | ok state ↦ remove_dir tools (storage_safe_encode name) s
                ])).1)
      go (err e) same = inl (λ m hm. refl)
      go (ok state) same =
          remove_dir-Allowed leaves name s valid (lock_vmstate_by_name-view name s state same)

  abbrev pub apply_all : List VmOp → Store → Store
  apply_all [] s = s
  apply_all (op ∷ ops) s = apply_all ops (apply op s).1

  apply-Allowed :
      ((s : Store) → All IsScalar (tools.fresh_name s))
      → ((d rest : VmDir) (e : Exn)
          → tools.rmtree d ≡ some (rest, e)
          → (rest.config ≡ none) ⊎ (rest.config ≡ d.config))
      → (op : VmOp) (s : Store) → IsVmOp op
      → Allowed tools.dump_config (view s) op (apply op s).0 (view (apply op s).1)
  apply-Allowed fresh leaves (remove name) s valid = remove-Allowed leaves name s valid
  apply-Allowed fresh leaves (create config) s valid =
      create-Allowed config s (create_vmstate tools config s).0 (create_vmstate tools config s).1
        (scalar config.name valid) (create_vmstate-Created tools waits config s)
    where
      scalar :
          (c : Option Text)
          → ((name : Text) → c ≡ some name → All IsScalar name)
          → All IsScalar (elim c [ none ↦ tools.fresh_name s | some name ↦ name ])
      scalar none v = fresh s
      scalar (some name) v = v name refl

  -- Seen by names, the store of virtual machines is a finite map from names to the texts of configurations: any
  -- sequence of creations and removals does to the map what the map allows, whatever fails on the way. A creation
  -- that fails has changed nothing, or it has added the machine; a removal that fails has changed nothing, or the
  -- machine is gone; other machines are never touched. Of a directory that `shutil.rmtree` fails to remove it is
  -- taken to leave the file of the configuration or not, unchanged. The names hold no surrogates, as do the
  -- fresh ones, and a removed one is not the store's own directory; other processes are taken to change
  -- neither images nor virtual machines meanwhile, but may add images.
  pub apply_all-Runs :
      ((s : Store) → All IsScalar (tools.fresh_name s))
      → ((d rest : VmDir) (e : Exn)
          → tools.rmtree d ≡ some (rest, e)
          → (rest.config ≡ none) ⊎ (rest.config ≡ d.config))
      → (ops : List VmOp) (s : Store) → All IsVmOp ops
      → Runs tools.dump_config (view s) ops (view (apply_all ops s))
  apply_all-Runs fresh leaves [] s valid = done
  apply_all-Runs fresh leaves (op ∷ ops) s (v, vs) =
      after (apply op s).0 (view (apply op s).1) (apply-Allowed fresh leaves op s v)
        (apply_all-Runs fresh leaves ops (apply op s).1 vs)
