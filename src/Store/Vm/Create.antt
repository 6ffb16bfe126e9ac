-- ===== src/Store/Vm/Create.antt =====
-- transient/store.py: `VmStore.create_vmstate` makes the whole virtual machine, or none of it.
use transient.Base.{
  ℕ, suc, ◌≡◌, refl, inl, inr, false, Option, none, some, List, [], ◌∷◌, Bool-cases, Option-cases,
  Text, Exn, Result, ok, err, Result-cases, and_then,
}
use transient.Store.Vm.{left, written_to}
use transient.Store.Vm.Images.{Images, create_images-Images}
use transient.Base.Dict.{Dict, insert}
use transient.Store.Name.{storage_safe_encode}
use transient.Store.State.{Overlay, CreateConfig, Store, Tools}
use transient.Store.Backend.{BackendInfo}
use transient.Store.Backend.Retrieve.{
  KeepsImages, KeepsImages-refl, KeepsImages-trans, retrieve_image-KeepsImages,
}
use transient.Store.Vm.{
  vmstate_exists, create_vm_image, create_images, create_vmstate, over_image, placed, vm_name_of,
}

module _ (tools : Tools) (waits : (s : Store) → KeepsImages s (tools.meanwhile s)) where
  over_image-state :
      (vm_name : Text) (num : ℕ) (files : Dict Overlay) (r : Result BackendInfo × Store)
      → (over_image tools vm_name num files r).1 ≡ r.1
  over_image-state vm_name num files (ok info, s) = refl
  over_image-state vm_name num files (err e, s) = refl

  pub create_vm_image-KeepsImages :
      (spec vm_name : Text) (num : ℕ) (files : Dict Overlay) (s : Store)
      → KeepsImages s (create_vm_image tools spec vm_name num files s).1
  unfolding create_vm_image
  create_vm_image-KeepsImages spec vm_name num files s =
      rw over_image-state (retrieve_image-KeepsImages tools waits spec s)

  and_then-KeepsImages :
      {A B : Type 0} {s : Store} (r : Result A × Store) (f : A → Store → Result B × Store)
      → KeepsImages s r.1
      → ((a : A) (t : Store) → KeepsImages t (f a t).1)
      → KeepsImages s (and_then r f).1
  and_then-KeepsImages (ok a, t) f k g = KeepsImages-trans k (g a t)
  and_then-KeepsImages (err e, t) f k g = k

  pub create_images-KeepsImages :
      (vm_name : Text) (num : ℕ) (specs : List Text) (files : Dict Overlay) (s : Store)
      → KeepsImages s (create_images tools vm_name num specs files s).1
  unfolding create_images
  create_images-KeepsImages vm_name num [] files s = KeepsImages-refl s
  create_images-KeepsImages vm_name num (spec ∷ specs) files s =
      and_then-KeepsImages (create_vm_image tools spec vm_name num files s) _
        (create_vm_image-KeepsImages spec vm_name num files s)
        (λ files' t. create_images-KeepsImages vm_name (suc num) specs files' t)

  -- The whole machine: its directory has the text of its configuration and an image for each specification, and
  -- is the only new one, in a store that has lost no image.
  pub record Whole (config : CreateConfig) (s t : Store) : Type 0 where
    pub files : Dict Overlay
    pub written : Text
    pub before : Store
    pub free : vmstate_exists (vm_name_of tools config s) s ≡ false
    pub images :
        Images tools (vm_name_of tools config s) 0 (config.image ∷ config.extra_image) files before
    pub built :
        create_images tools (vm_name_of tools config s) 0 (config.image ∷ config.extra_image) [] s
        ≡ (ok files, before)
    pub dumped : tools.dump_config config ≡ ok written
    pub keeps : KeepsImages s before
    pub shape : t ≡ record before {
      vms =
          insert
            (storage_safe_encode (vm_name_of tools config s))
            (record { config = some written; files = files })
            s.vms;
    }

  -- How `create_vmstate` ends.
  pub data Created (config : CreateConfig) (s : Store) (r : Result Text) (t : Store) : Type 0 where
    failed : (e : Exn) → r ≡ err e → KeepsImages s t → Created config s r t
    created : r ≡ ok (vm_name_of tools config s) → Whole config s t → Created config s r t
    not_left :
        (e : Exn)
        → r ≡ err e
        → tools.leave_tempdir t ≡ some e
        → Whole config s t
        → Created config s r t

  renamed-Created :
      (config : CreateConfig) (s u : Store) (files : Dict Overlay) (written : Text)
      → vmstate_exists (vm_name_of tools config s) s ≡ false
      → create_images tools (vm_name_of tools config s) 0 (config.image ∷ config.extra_image) [] s
        ≡ (ok files, u)
      → KeepsImages s u
      → tools.dump_config config ≡ ok written
      → Created config s
          (written_to tools (vm_name_of tools config s) files u (ok written)).0
          (written_to tools (vm_name_of tools config s) files u (ok written)).1
  renamed-Created config s u files written x h k d = elim (Option-cases (tools.rename_dir u)) [
    | inr (e, stops) ↦ rw stops (failed e refl k)
    | inl goes ↦ rw goes (ends (tools.leave_tempdir final) refl)
  ]
    where
      final : Store
      final = record u {
        vms =
            insert (storage_safe_encode (vm_name_of tools config s))
              (record { config = some written; files = files }) u.vms;
      }

      whole : Whole config s final
      whole = record {
        files = files;
        written = written;
        before = u;
        free = x;
        images =
            (create_images-Images tools create_vm_image-KeepsImages (vm_name_of tools config s) 0
              (config.image ∷ config.extra_image) [] files s u h).0;
        built = h;
        dumped = d;
        keeps = k;
        shape = rw k.vms_eq refl;
      }

      ends :
          (o : Option Exn)
          → tools.leave_tempdir final ≡ o
          → Created config s (left tools (vm_name_of tools config s) o) final
      ends none e = created refl whole
      ends (some x) e = not_left x refl e whole

  placed-Created :
      (config : CreateConfig) (s : Store) (p : Result (Dict Overlay) × Store)
      → vmstate_exists (vm_name_of tools config s) s ≡ false
      → create_images tools (vm_name_of tools config s) 0 (config.image ∷ config.extra_image) [] s
        ≡ p
      → KeepsImages s p.1
      → Created config s
          (placed tools (vm_name_of tools config s) config p).0
          (placed tools (vm_name_of tools config s) config p).1
  placed-Created config s (err e, u) x h k = failed e refl k
  placed-Created config s (ok files, u) x h k = elim (Result-cases (tools.dump_config config)) [
    | inr (e, d) ↦ rw d (failed e refl k)
    | inl (written, d) ↦ rw d (renamed-Created config s u files written x h k d)
  ]

  -- A virtual machine is created whole or not at all, whatever the network, `qemu-img`, the directories and the
  -- specifications do. `create_vmstate` raises, and then the virtual machines are as they were; or it
  -- returns the name, which was not taken, and adds one directory under it to virtual machines that are otherwise
  -- unchanged, with the text of the configuration and, for each specification, a file that is named by the
  -- machine, the number of the specification and its image, which is in the backend; or it raises although it
  -- has added this directory whole, since the temporary directory could not be made again. Images of
  -- the backend are never lost or changed. Other processes are taken to change neither images nor
  -- virtual machines meanwhile, but may add images.
  pub create_vmstate-Created :
      (config : CreateConfig) (s : Store)
      → Created config s (create_vmstate tools config s).0 (create_vmstate tools config s).1
  unfolding create_vmstate
  create_vmstate-Created config s =
      elim (Bool-cases (vmstate_exists (vm_name_of tools config s) s)) [
        | inl e ↦ rw (e, create_vmstate) (failed _ refl (KeepsImages-refl s))
        | inr e ↦
            rw (e, create_vmstate)
              (placed-Created config s _ e refl (
                create_images-KeepsImages (vm_name_of tools config s) 0
                  (config.image ∷ config.extra_image) [] s))
      ]
