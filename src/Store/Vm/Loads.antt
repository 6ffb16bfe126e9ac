-- ===== src/Store/Vm/Loads.antt =====
-- transient/store.py: when the files of a virtual machine's directory can be loaded, and what keeps it so.
use transient.Base.{
  ◌≡◌, inl, inr, some, [], ◌∷◌, arith, Bool-cases, All, Text, text_eq, text_eq_sound, ok,
}
use transient.Base.Utf8.{IsScalar}
use transient.Base.Dict.{Dict, lookup, insert}
use transient.Store.Spec.{ImageSpec, image_spec}
use transient.Store.Frontend.{FrontendName, parse_frontend_name}
use transient.Store.State.{Image, Overlay, Store, Tools}
use transient.Store.Backend.{BackendInfo, backend_info}
use transient.Store.Backend.Retrieve.{Found, backend_info-Found}
use transient.Store.Vm.{FrontendInfo, backend_of, frontend_info}

-- The names of a specification, if it is valid, hold no surrogates.
abbrev pub IsScalarSpec : Text → Type 0
IsScalarSpec text = (spec : ImageSpec) → image_spec text ≡ ok spec → All IsScalar spec.name

-- The images of one store are there, unchanged, in another.
abbrev pub Kept : Store → Store → Type 0
Kept s t = (file : Text) (i : Image) → lookup file s.images ≡ some i → lookup file t.images ≡ some i

module _ (tools : Tools) where
  -- A file of a VM's directory that can be loaded, and whose backing image is there.
  pub record Loads (s : Store) (filename : Text) (overlay : Overlay) : Type 0 where
    pub n : FrontendName
    pub b : BackendInfo
    pub named : parse_frontend_name filename ≡ ok n
    pub backed : backend_info tools s overlay.backing ≡ ok b

  pub Found-backend_info :
      (s : Store) (file : Text) (b : BackendInfo)
      → Found tools s file b
      → backend_info tools s file ≡ ok b
  unfolding backend_info
  Found-backend_info s file b f = ground (arith, f.stored, f.is_readable, f.info_eq)

  backend_info-Kept :
      (s t : Store) (file : Text) (b : BackendInfo)
      → Kept s t
      → backend_info tools s file ≡ ok b
      → backend_info tools t file ≡ ok b
  unfolding backend_info
  backend_info-Kept s t file b k h =
      let f = backend_info-Found tools s file b h in
      ground (arith, f.stored, k file f.image f.stored)

  pub Loads-Kept :
      (s t : Store) (filename : Text) (o : Overlay)
      → Kept s t
      → Loads s filename o
      → Loads t filename o
  Loads-Kept s t filename o k l = record {
    n = l.n;
    b = l.b;
    named = l.named;
    backed = backend_info-Kept s t o.backing l.b k l.backed;
  }

  unfoldable pub info_of :
      (s : Store) (filename : Text) (o : Overlay) → Loads s filename o → FrontendInfo
  info_of s filename o l = record {
    vm_name = l.n.vm_name;
    disk_number = l.n.disk_number;
    backend_image_name = l.n.backend_image_name;
    backend = some l.b;
    content = o.content;
  }

  pub Loads-frontend_info :
      (s : Store) (filename : Text) (o : Overlay) (l : Loads s filename o)
      → frontend_info tools s filename o ≡ ok (info_of s filename o l)
  unfolding frontend_info backend_of info_of
  Loads-frontend_info s filename o l = ground (arith, l.named, l.backed)

  unfoldable pub AllLoad : Store → Dict Overlay → Type 0
  AllLoad s [] = Unit
  AllLoad s ((filename, o) ∷ files) = Loads s filename o × AllLoad s files

  pub AllLoad-Kept :
      (s t : Store) (files : Dict Overlay) → Kept s t → AllLoad s files → AllLoad t files
  unfolding AllLoad
  AllLoad-Kept s t [] k a = tt
  AllLoad-Kept s t ((filename, o) ∷ files) k a =
      (Loads-Kept s t filename o k a.0, AllLoad-Kept s t files k a.1)

  pub AllLoad-insert :
      (s : Store) (filename : Text) (o : Overlay) (files : Dict Overlay)
      → Loads s filename o
      → AllLoad s files
      → AllLoad s (insert filename o files)
  unfolding AllLoad insert
  AllLoad-insert s filename o [] l a = (l, tt)
  AllLoad-insert s filename o ((j, p) ∷ files) l a = elim (Bool-cases (text_eq j filename)) [
    | inl e ↦ let same : j ≡ filename = text_eq_sound j filename e in rw e (rw same l, a.1)
    | inr e ↦ rw e (a.0, AllLoad-insert s filename o files l a.1)
  ]
