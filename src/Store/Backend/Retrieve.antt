-- ===== src/Store/Backend/Retrieve.antt =====
-- transient/store.py: what `retrieve_image` leaves in the backend.
use transient.Base.Utf8.{IsScalar}
use transient.Store.Name.RoundTrip.{storage_safe_decode-storage_safe_encode}
use transient.Base.{
  ◌∙◌, All, ap, inr, inl, Bool-cases, Option-cases, true, ◌≡◌, refl, false, Option, none, some,
  arith, Text, text_eq_iff, Exn, Result, ok, err,
}
use transient.Base.Dict.{Dict, lookup, insert, has_key, lookup-insert}
use transient.Store.State.{Bytes, Image, Store, Tools}
use transient.Store.Backend.{
  fill, lock_working, storage_safe_encode, storage_safe_decode, image_spec, with_spec, Protocol,
  backend_info, BackendInfo, retrieve_image, ImageSpec, then_info, protocol_retrieve, path_exists,
  store_image, fetched, converted,
}

-- The images of one store are there, unchanged, in another, whose VMs and locks are the same.
pub record KeepsImages (s t : Store) : Type 0 where
  pub kept :
      (file : Text) (i : Image) → lookup file s.images ≡ some i → lookup file t.images ≡ some i
  pub vms_eq : t.vms ≡ s.vms
  pub locked_eq : t.locked ≡ s.locked

pub KeepsImages-refl : (s : Store) → KeepsImages s s
KeepsImages-refl s = record { kept = λ file i h. h; vms_eq = refl; locked_eq = refl }

pub KeepsImages-trans : {s t u : Store} → KeepsImages s t → KeepsImages t u → KeepsImages s u
KeepsImages-trans a b = record {
  kept = λ file i h. b.kept file i (a.kept file i h);
  vms_eq = b.vms_eq ∙ a.vms_eq;
  locked_eq = b.locked_eq ∙ a.locked_eq;
}

pub not_there : (s : Store) (file : Text) → path_exists s file ≡ false → lookup file s.images ≡ none
unfolding path_exists has_key
not_there s file h = ground arith

path_exists-same :
    (s : Store) (working : Dict Bytes) (file : Text)
    → path_exists s file ≡ false
    → path_exists (record s { working = working }) file ≡ false
unfolding path_exists
path_exists-same s working file h = h

insert-KeepsImages :
    (s t : Store) (file : Text) (i : Image)
    → lookup file s.images ≡ none
    → t.images ≡ insert file i s.images
    → t.vms ≡ s.vms
    → t.locked ≡ s.locked
    → KeepsImages s t
insert-KeepsImages s t file i absent e v l = record {
  kept = λ other j h.
      rw e (ground (arith, lookup-insert other file i s.images, text_eq_iff file other));
  vms_eq = v;
  locked_eq = l;
}

module _ (tools : Tools) (waits : (s : Store) → KeepsImages s (tools.meanwhile s)) where
  fetched-KeepsImages :
      (file : Text) (bytes : Bytes) (s : Store) (failure : Option Exn)
      → path_exists s file ≡ false
      → KeepsImages s (fetched tools file bytes s failure).1
  unfolding store_image
  fetched-KeepsImages file bytes s (some e) h = KeepsImages-refl s
  fetched-KeepsImages file bytes s none h = go (tools.convert (tools.on_disk bytes))
    where
      go : (r : Result Bytes) → KeepsImages s (converted tools file s r).1
      go (err e) = KeepsImages-refl s
      go (ok content) = insert-KeepsImages s _ file _ (not_there s file h) refl refl refl

  lock_working-KeepsImages : (file : Text) (s : Store) → KeepsImages s (lock_working tools file s)
  unfolding lock_working
  lock_working-KeepsImages file s =
      let k = waits s in record { kept = k.kept; vms_eq = k.vms_eq; locked_eq = k.locked_eq }

  fill-KeepsImages :
      (proto : Protocol) (source file : Text) (s : Store)
      → path_exists s file ≡ false
      → KeepsImages s (fill tools proto source file s).1
  unfolding fill
  fill-KeepsImages proto source file s h =
      KeepsImages-trans (record { kept = λ f i e. e; vms_eq = refl; locked_eq = refl })
        (fetched-KeepsImages file _ _ _ (path_exists-same s _ file h))

  protocol_retrieve-KeepsImages :
      (proto : Protocol) (source file : Text) (s : Store)
      → KeepsImages s (protocol_retrieve tools proto source file s).1
  unfolding protocol_retrieve
  protocol_retrieve-KeepsImages proto source file s =
      elim (Bool-cases (path_exists (lock_working tools file s) file)) [
        | inl e ↦ rw (e, protocol_retrieve) (lock_working-KeepsImages file s)
        | inr e ↦
            rw (e, protocol_retrieve)
              (KeepsImages-trans (lock_working-KeepsImages file s)
                (fill-KeepsImages proto source file (lock_working tools file s) e))
      ]

  then_info-state : (file : Text) (r : Result (Unit {0}) × Store) → (then_info tools file r).1 ≡ r.1
  then_info-state file (ok u, s) = refl
  then_info-state file (err e, s) = refl

  with_spec-KeepsImages : (r : Result ImageSpec) (s : Store) → KeepsImages s (with_spec tools r s).1
  with_spec-KeepsImages (err e) s = KeepsImages-refl s
  with_spec-KeepsImages (ok spec) s =
      elim (Bool-cases (path_exists s (storage_safe_encode spec.name))) [
        | inl e ↦ rw e (KeepsImages-refl s)
        | inr e ↦
            rw (e, then_info-state)
              (protocol_retrieve-KeepsImages spec.source_proto spec.source
                (storage_safe_encode spec.name) s)
      ]

  -- Whatever the specification, the network and `qemu-img` do, retrieving an image leaves each image
  -- of the backend as it was, and the virtual machines and locks too, if the processes that this one
  -- waits for do.
  pub retrieve_image-KeepsImages :
      (text : Text) (s : Store) → KeepsImages s (retrieve_image tools text s).1
  unfolding retrieve_image
  retrieve_image-KeepsImages text s = with_spec-KeepsImages (image_spec text) s

module _ (tools : Tools) where
  -- What `BackendImageInfo` finds.
  pub record Found (s : Store) (file : Text) (info : BackendInfo) : Type 0 where
    pub image : Image
    pub stored : lookup file s.images ≡ some image
    pub is_readable : tools.readable image.content ≡ true
    pub info_eq : info ≡ record { file = file; identifier = storage_safe_decode file }

  pub backend_info-Found :
      (s : Store) (file : Text) (info : BackendInfo)
      → backend_info tools s file ≡ ok info
      → Found s file info
  unfolding backend_info
  backend_info-Found s file info h = elim (Option-cases (lookup file s.images)) [
    | inl e ↦ absurd (ground (arith, e, h))
    | inr (i, e) ↦ record {
      image = i;
      stored = e;
      is_readable = ground (arith, e, h);
      info_eq = ground (arith, e, h);
    }
  ]

  then_info-ok :
      (file : Text) (r : Result (Unit {0}) × Store) (t : Store) (info : BackendInfo)
      → then_info tools file r ≡ (ok info, t)
      → backend_info tools t file ≡ ok info
  then_info-ok file (ok u, s) t info h =
      let same : s ≡ t = ap (λ p. p.1) h in rw (← same) (ap (λ p. p.0) h)
  then_info-ok file (err e, s) t info h = cc (ap (λ p. p.0) h)

  with_spec-ok :
      (spec : ImageSpec) (s t : Store) (info : BackendInfo)
      → with_spec tools (ok spec) s ≡ (ok info, t)
      → backend_info tools t (storage_safe_encode spec.name) ≡ ok info
  with_spec-ok spec s t info h = elim (Bool-cases (path_exists s (storage_safe_encode spec.name))) [
    | inl e ↦
        let h' : (backend_info tools s (storage_safe_encode spec.name), s) ≡ (ok info, t) =
          rw e at h in
        let same : s ≡ t = ap (λ p. p.1) h' in rw (← same) (ap (λ p. p.0) h')
    | inr e ↦ then_info-ok _ _ t info (rw e at h)
  ]

  exists_of_Found :
      (s : Store) (file : Text) (info : BackendInfo) → Found s file info → path_exists s file ≡ true
  unfolding path_exists has_key
  exists_of_Found s file info f = ground (arith, f.stored)

  -- The image of a specification is in the backend, and is what a retrieval gives.
  pub record Retrieved (text : Text) (info : BackendInfo) (t : Store) : Type 0 where
    pub spec : ImageSpec
    pub spec_eq : image_spec text ≡ ok spec
    pub found : Found t (storage_safe_encode spec.name) info
    pub identifier_eq : All IsScalar spec.name → info.identifier ≡ spec.name
    pub again : retrieve_image tools text t ≡ (ok info, t)

  spec_ok :
      (r : Result ImageSpec) (s t : Store) (info : BackendInfo)
      → with_spec tools r s ≡ (ok info, t)
      → (spec : ImageSpec) × (r ≡ ok spec) × (with_spec tools (ok spec) s ≡ (ok info, t))
  spec_ok (ok spec) s t info h = (spec, refl, h)
  spec_ok (err e) s t info h = cc (ap (λ p. p.0) h)

  again_of_info :
      (text : Text) (spec : ImageSpec) (t : Store) (info : BackendInfo)
      → image_spec text ≡ ok spec
      → path_exists t (storage_safe_encode spec.name) ≡ true
      → backend_info tools t (storage_safe_encode spec.name) ≡ ok info
      → retrieve_image tools text t ≡ (ok info, t)
  unfolding retrieve_image
  again_of_info text spec t info a b c = rw (a, b, c, retrieve_image)

  -- After a retrieval that succeeds, the specification is valid, the result describes the readable image
  -- stored under the encoded name, its identifier is the name of the specification (if that holds no
  -- surrogates), and retrieving the image again gives the same result and changes nothing.
  pub retrieve_image-Retrieved :
      (text : Text) (s t : Store) (info : BackendInfo)
      → retrieve_image tools text s ≡ (ok info, t)
      → Retrieved text info t
  unfolding retrieve_image
  retrieve_image-Retrieved text s t info h =
      let (spec, parsed, run) = spec_ok (image_spec text) s t info h in
      let file = storage_safe_encode spec.name in
      let i = with_spec-ok spec s t info run in
      let f = backend_info-Found t file info i in
      record {
        spec = spec;
        spec_eq = parsed;
        found = f;
        identifier_eq = λ v.
            ap (λ (b : BackendInfo). b.identifier) f.info_eq
            ∙ storage_safe_decode-storage_safe_encode spec.name v;
        again = again_of_info text spec t info parsed (exists_of_Found t file info f) i;
      }
