-- ===== src/Store/Vm/Files.antt =====
-- transient/store.py: the files that `create_vmstate` puts in the directory of a virtual machine can be
-- loaded.
use transient.Base.{
  ℕ, ◌≡◌, refl, ap, ◌∙◌, inl, inr, Bool, true, false, arith, if◌then◌else◌, All, Text, Result, ok,
  err, Result-cases,
}
use transient.Base.Utf8.{IsScalar}
use transient.Base.Dict.{Dict, insert, has_key}
use transient.Store.Name.{storage_safe_encode}
use transient.Store.Frontend.{frontend_name}
use transient.Store.Frontend.RoundTrip.{parse_frontend_name-frontend_name}
use transient.Store.State.{Bytes, Overlay, Store, Tools}
use transient.Store.Backend.{BackendInfo, backend_info, retrieve_image}
use transient.Store.Backend.Retrieve.{Retrieved, retrieve_image-Retrieved}
use transient.Store.Vm.{create_vm_image, over_image, checked, made}
use transient.Store.Vm.Loads.{IsScalarSpec, Loads, Found-backend_info, AllLoad, AllLoad-insert}

module _ (tools : Tools) where
  checked-ok :
      (s : Store) (filename : Text) (r : Result (Dict Overlay)) (files : Dict Overlay)
      → checked tools s filename r ≡ ok files
      → r ≡ ok files
  checked-ok s filename (err e) files h = cc
  checked-ok s filename (ok files') files h = ground arith

  -- The directory as it was, or with one more file.
  pub data Added (vm_name : Text) (num : ℕ) (b : BackendInfo) (files files' : Dict Overlay)
      : Type 0 where
    already :
        files' ≡ files
        → has_key (frontend_name vm_name num b.identifier) files ≡ true
        → Added vm_name num b files files'
    new_file :
        (content : Bytes)
        → files'
          ≡ insert
              (frontend_name vm_name num b.identifier)
              (record { backing = b.file; content = content })
              files
        → Added vm_name num b files files'

  if_made :
      (vm_name : Text) (num : ℕ) (b : BackendInfo) (files files' : Dict Overlay) (t : Bool)
      → has_key (frontend_name vm_name num b.identifier) files ≡ t
      → (if t
          then ok files
          else made tools
              (frontend_name vm_name num b.identifier)
              files
              b.file
              (tools.create_overlay b.file))
        ≡ ok files'
      → Added vm_name num b files files'
  if_made vm_name num b files files' true k h = already (ground arith) k
  if_made vm_name num b files files' false k h = elim (Result-cases (tools.create_overlay b.file)) [
    | inl (content, e) ↦ new_file content (ground (arith, e, h))
    | inr (x, e) ↦ absurd (ground (arith, e, h))
  ]

  over_image-Added :
      (vm_name : Text) (num : ℕ) (files files' : Dict Overlay) (s t : Store) (b : BackendInfo)
      → over_image tools vm_name num files (ok b, s) ≡ (ok files', t)
      → (s ≡ t) × Added vm_name num b files files'
  over_image-Added vm_name num files files' s t b h = (
    ap (λ p. p.1) h,
    if_made vm_name num b files files' _ refl (checked-ok s _ _ files' (ap (λ p. p.0) h)),
  )

  -- The parts of an image that was made.
  pub record Made (spec vm_name : Text) (num : ℕ) (files files' : Dict Overlay) (t : Store)
      : Type 0 where
    pub b : BackendInfo
    pub retrieved : Retrieved tools spec b t
    pub added : Added vm_name num b files files'

  over_image-Made :
      (spec vm_name : Text) (num : ℕ) (files files' : Dict Overlay) (s t : Store)
      (p : Result BackendInfo × Store)
      → retrieve_image tools spec s ≡ p
      → over_image tools vm_name num files p ≡ (ok files', t)
      → Made spec vm_name num files files' t
  over_image-Made spec vm_name num files files' s t (err e, u) r h = cc (ap (λ q. q.0) h)
  over_image-Made spec vm_name num files files' s t (ok b, u) r h =
      let (same, a) = over_image-Added vm_name num files files' u t b h in
      record {
        b = b;
        retrieved = rw (← same) (retrieve_image-Retrieved tools spec s u b r);
        added = a;
      }

  pub create_vm_image-Made :
      (spec vm_name : Text) (num : ℕ) (files files' : Dict Overlay) (s t : Store)
      → create_vm_image tools spec vm_name num files s ≡ (ok files', t)
      → Made spec vm_name num files files' t
  unfolding create_vm_image
  create_vm_image-Made spec vm_name num files files' s t h =
      over_image-Made spec vm_name num files files' s t _ refl h

  made-Loads :
      (spec vm_name : Text) (num : ℕ) (b : BackendInfo) (t : Store) (content : Bytes)
      → All IsScalar vm_name
      → IsScalarSpec spec
      → Retrieved tools spec b t
      → Loads tools t
          (frontend_name vm_name num b.identifier)
          (record { backing = b.file; content = content })
  made-Loads spec vm_name num b t content hv hs r =
      let v = hs r.spec r.spec_eq in
      let same : b.file ≡ storage_safe_encode r.spec.name =
        ap (λ (i : BackendInfo). i.file) r.found.info_eq in
      record {
        n = record { vm_name = vm_name; disk_number = num; backend_image_name = b.identifier };
        b = b;
        named =
            parse_frontend_name-frontend_name vm_name num b.identifier hv
              (rw (r.identifier_eq v) v);
        backed =
            ap (backend_info tools t) same
            ∙ Found-backend_info tools t (storage_safe_encode r.spec.name) b r.found;
      }

  pub Made-AllLoad :
      (spec vm_name : Text) (num : ℕ) (files files' : Dict Overlay) (t : Store)
      → All IsScalar vm_name
      → IsScalarSpec spec
      → Made spec vm_name num files files' t
      → AllLoad tools t files
      → AllLoad tools t files'
  Made-AllLoad spec vm_name num files files' t hv hs m a = go m.added
    where
      go : Added vm_name num m.b files files' → AllLoad tools t files'
      go (already e k) = rw e a
      go (new_file content e) = rw e (
          AllLoad-insert tools t _ _ files
            (made-Loads spec vm_name num m.b t content hv hs m.retrieved) a)
