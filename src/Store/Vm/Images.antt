-- ===== src/Store/Vm/Images.antt =====
-- transient/store.py: `create_vmstate` makes an image for each specification.
use transient.Base.{
  ok-injective, ℕ, suc, ◌≡◌, refl, ap, ◌∙◌, inl, inr, true, some, List, [], ◌∷◌, between,
  Bool-cases, Option-cases, Text, text_eq, text_eq_refl, Result, ok, err, and_then,
}
use mathlib.Core.Path.{subst}
use transient.Base.Dict.{Dict, lookup, insert, has_key, lookup-insert}
use transient.Store.Frontend.{frontend_name}
use transient.Store.State.{Overlay, Store, Tools}
use transient.Store.Backend.{BackendInfo}
use transient.Store.Backend.Retrieve.{KeepsImages, Retrieved}
use transient.Store.Vm.{create_vm_image, create_images}
use transient.Store.Vm.Loads.{Kept}
use transient.Store.Vm.Files.{Added, already, new_file, Made, create_vm_image-Made}

pub and_then-ok :
    {A B : Type 0} (p : Result A × Store) (f : A → Store → Result B × Store) (b : B) (t : Store)
    → and_then p f ≡ (ok b, t)
    → (a : A) × (u : Store) × (p ≡ (ok a, u)) × (f a u ≡ (ok b, t))
and_then-ok (ok a, u) f b t h = (a, u, refl, h)
and_then-ok (err e, u) f b t h = cc (ap (λ q. q.0) h)

-- Every file that is there stays there.
abbrev pub Grows : Dict Overlay → Dict Overlay → Type 0
Grows files files' =
    (file : Text) (o : Overlay)
    → lookup file files ≡ some o
    → (o' : Overlay) × (lookup file files' ≡ some o')

insert-Grows :
    (file : Text) (o : Overlay) (files : Dict Overlay) → Grows files (insert file o files)
insert-Grows file o files f p h = elim (Bool-cases (text_eq file f)) [
  | inl e ↦ (o, lookup-insert f file o files ∙ rw e refl)
  | inr e ↦ (p, lookup-insert f file o files ∙ rw e h)
]

module _ (tools : Tools) where
  -- The directory has an image of a specification, with the number of the image: the specification was retrieved
  -- into the backend, where the image still is, and a file is named by the machine, the number and the image.
  pub record HasImage (vm_name spec : Text) (num : ℕ) (files : Dict Overlay) (t : Store)
      : Type 0 where
    pub b : BackendInfo
    pub store : Store
    pub retrieved : Retrieved tools spec b store
    pub kept : Kept store t
    pub overlay : Overlay
    pub there : lookup (frontend_name vm_name num b.identifier) files ≡ some overlay

  -- An image for each specification, numbered from `num` on.
  abbrev pub Images : Text → ℕ → List Text → Dict Overlay → Store → Type 0
  Images vm_name num [] files t = Unit
  Images vm_name num (spec ∷ specs) files t =
      HasImage vm_name spec num files t × Images vm_name (suc num) specs files t

  HasImage-Grows :
      (vm_name spec : Text) (num : ℕ) (files files' : Dict Overlay) (s t : Store)
      → Grows files files'
      → Kept s t
      → HasImage vm_name spec num files s
      → HasImage vm_name spec num files' t
  HasImage-Grows vm_name spec num files files' s t g k i =
      let (o', there) = g (frontend_name vm_name num i.b.identifier) i.overlay i.there in
      record {
        b = i.b;
        store = i.store;
        retrieved = i.retrieved;
        kept = λ file image e. k file image (i.kept file image e);
        overlay = o';
        there = there;
      }

  has_key-lookup :
      (file : Text) (files : Dict Overlay)
      → has_key file files ≡ true
      → (o : Overlay) × (lookup file files ≡ some o)
  unfolding has_key
  has_key-lookup file files h = elim (Option-cases (lookup file files)) [
    | inl e ↦ cc (rw (e, has_key) at h)
    | inr (o, e) ↦ (o, e)
  ]

  Added-Grows :
      (vm_name : Text) (num : ℕ) (b : BackendInfo) (files files' : Dict Overlay)
      → Added tools vm_name num b files files'
      → Grows files files'
        × ((o : Overlay) × (lookup (frontend_name vm_name num b.identifier) files' ≡ some o))
  Added-Grows vm_name num b files files' (already e k) =
      let (o, there) = has_key-lookup (frontend_name vm_name num b.identifier) files k in
      (rw e (λ f p h. (p, h)), (o, rw e there))
  Added-Grows vm_name num b files files' (new_file content e) =
      let file = frontend_name vm_name num b.identifier in
      let o : Overlay = record { backing = b.file; content = content } in
      (
        rw e (insert-Grows file o files),
        (o, rw e (lookup-insert file file o files ∙ rw (text_eq_refl file) refl)),
      )

  Made-HasImage :
      (spec vm_name : Text) (num : ℕ) (files files' : Dict Overlay) (t : Store)
      → Made tools spec vm_name num files files' t
      → Grows files files' × HasImage vm_name spec num files' t
  Made-HasImage spec vm_name num files files' t m =
      let (grows, (o, there)) = Added-Grows vm_name num m.b files files' m.added in
      (
        grows,
        record {
          b = m.b;
          store = t;
          retrieved = m.retrieved;
          kept = λ file image e. e;
          overlay = o;
          there = there;
        },
      )

  module _
      (keeps : (spec vm_name : Text) (num : ℕ) (files : Dict Overlay) (s : Store)
        → KeepsImages s (create_vm_image tools spec vm_name num files s).1) where
    pub create_images-Images :
        (vm_name : Text) (num : ℕ) (specs : List Text) (files files' : Dict Overlay) (s t : Store)
        → create_images tools vm_name num specs files s ≡ (ok files', t)
        → Images vm_name num specs files' t × Grows files files' × Kept s t
    unfolding create_images
    create_images-Images vm_name num [] files files' s t h =
        let same : files ≡ files' = ok-injective (ap (λ p. p.0) h) in
        let at : s ≡ t = ap (λ p. p.1) h in
        (tt, rw (← same) (λ f o e. (o, e)), rw (← at) (λ f i e. e))
    create_images-Images vm_name num (spec ∷ specs) files files' s t h =
        let (between, u, one, rest) =
          and_then-ok (create_vm_image tools spec vm_name num files s) _ files' t h in
        let m = create_vm_image-Made tools spec vm_name num files between s u one in
        let k : KeepsImages s u =
          subst (λ p. KeepsImages s p.1) one (keeps spec vm_name num files s) in
        let (grows, image) = Made-HasImage spec vm_name num files between u m in
        let (images, grows', kept') =
          create_images-Images vm_name (suc num) specs between files' u t rest in
        (
          (HasImage-Grows vm_name spec num between files' u t grows' kept' image, images),
          λ f o e. let (o', e') = grows f o e in grows' f o' e',
          λ f i e. kept' f i (k.kept f i e),
        )
