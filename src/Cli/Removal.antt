-- ===== src/Cli/Removal.antt =====
-- transient/cli.py: `image rm` keeps the images that virtual machines use.
use transient.Base.{
  ◌≡◌, refl, ap, ◌∙◌, inl, inr, true, false, none, some, List, [], ◌∷◌, if◌then◌else◌, Bool-cases,
  any, is_empty, Text, text_eq, text_eq_sound, Result, ok, err, and_then,
}
use transient.Base.Dict.{lookup, has_key, lookup-erase}
use transient.Store.State.{Store, Tools}
use transient.Store.Backend.{BackendInfo, delete_image, backend_image_list}
use transient.Store.Vm.{has_backend, backend_image_in_use}
use transient.Cli.{remove_images, remove_listed, image_rm}
use transient.Cli.InUse.{UsesImage, UsesImage-in_use, without, get_vmstate_by_name-without}

module _ (tools : Tools) where
  -- Removing an image that is not in use keeps a machine that uses another one.
  UsesImage-without :
      (s : Store) (g name file : Text)
      → has_key g s.images ≡ true
      → (u : UsesImage tools s name file) → any (has_backend tools g) u.state.images ≡ false
      → UsesImage tools (without tools g s) name file
  UsesImage-without s g name file there u k = record {
    state = u.state;
    listed = u.listed;
    loads = get_vmstate_by_name-without tools s g there name u.state u.loads k;
    over = u.over;
  }

  -- What is kept of an image in use: the image, and that it is in use.
  abbrev Keeps : Text → Text → Store → Store → Type 0
  Keeps name file s t = (lookup file t.images ≡ lookup file s.images) × UsesImage tools t name file

  -- An image that is not reported as in use is not under any disk of a machine.
  free_of :
      (s : Store) (name file : Text) (info : BackendInfo)
      → (u : UsesImage tools s name file) → is_empty (backend_image_in_use tools info s) ≡ true
      → any (has_backend tools info.file) u.state.images ≡ false
  free_of s name file info u free =
      elim (Bool-cases (any (has_backend tools info.file) u.state.images)) [
        | inr e ↦ e
        | inl e ↦
            let used =
              UsesImage-in_use tools s name info
                (record { state = u.state; listed = u.listed; loads = u.loads; over = e }) in
            cc
      ]

  not_the_one :
      (s : Store) (name file : Text) (info : BackendInfo)
      → (u : UsesImage tools s name file) → any (has_backend tools info.file) u.state.images ≡ false
      → text_eq info.file file ≡ false
  not_the_one s name file info u k = elim (Bool-cases (text_eq info.file file)) [
    | inr e ↦ e
    | inl e ↦
        let same = text_eq_sound info.file file e in
        let over = ap (λ f. any (has_backend tools f) u.state.images) same ∙ u.over in cc
  ]

  delete_image-Keeps :
      (name file : Text) (info : BackendInfo) (s : Store)
      → UsesImage tools s name file
      → is_empty (backend_image_in_use tools info s) ≡ true
      → Keeps name file s (delete_image info.file s).1
  unfolding delete_image
  delete_image-Keeps name file info s u free = elim (Bool-cases (has_key info.file s.images)) [
    | inr gone ↦ rw gone (refl, u)
    | inl there ↦
        let k = free_of s name file info u free in
        rw there (
          lookup-erase file info.file s.images
              ∙ ap (λ b. if b then none else lookup file s.images)
                  (not_the_one s name file info u k),
          UsesImage-without s info.file name file there u k,
        )
  ]

  and_then-Keeps :
      (name file : Text) (s : Store) (r : Result (Unit {0}) × Store)
      → (f : Unit {0} → Store → Result (Unit {0}) × Store) → Keeps name file s r.1
      → ((t : Store) → UsesImage tools t name file → Keeps name file t (f tt t).1)
      → Keeps name file s (and_then r f).1
  and_then-Keeps name file s (err e, t) f k g = k
  and_then-Keeps name file s (ok u, t) f (same, uses_t) g =
      let (same', uses') = g t uses_t in (same' ∙ same, uses')

  remove_images-Keeps :
      (name file : Text) (infos : List BackendInfo) (s : Store)
      → UsesImage tools s name file
      → Keeps name file s (remove_images tools false infos s).1
  unfolding remove_images
  remove_images-Keeps name file [] s u = (refl, u)
  remove_images-Keeps name file (info ∷ infos) s u =
      elim (Bool-cases (is_empty (backend_image_in_use tools info s))) [
        | inr used ↦ rw used (refl, u)
        | inl free ↦ rw free (
            and_then-Keeps name file s (delete_image info.file s)
              (λ _ t. remove_images tools false infos t)
              (delete_image-Keeps name file info s u free)
              (λ t v. remove_images-Keeps name file infos t v))
      ]

  remove_listed-Keeps :
      (name file wanted : Text) (r : Result (List BackendInfo)) (s : Store)
      → UsesImage tools s name file
      → Keeps name file s (remove_listed tools false wanted r s).1
  remove_listed-Keeps name file wanted (err e) s u = (refl, u)
  remove_listed-Keeps name file wanted (ok []) s u = (refl, u)
  remove_listed-Keeps name file wanted (ok (info ∷ infos)) s u =
      remove_images-Keeps name file (info ∷ infos) s u

  -- Without --force, `image rm` never removes an image that a virtual machine uses, whatever names it is
  -- given and whatever fails on the way: if a machine is listed and loads, and has a disk over the image,
  -- then afterwards the image is as it was, and the machine still loads and still uses it.
  pub image_rm-Keeps :
      (name file : Text) (wanted : List Text) (s : Store)
      → UsesImage tools s name file
      → (lookup file (image_rm tools false wanted s).1.images ≡ lookup file s.images)
        × UsesImage tools (image_rm tools false wanted s).1 name file
  unfolding image_rm
  image_rm-Keeps name file [] s u = (refl, u)
  image_rm-Keeps name file (w ∷ wanted) s u =
      and_then-Keeps name file s
        (remove_listed tools false w (backend_image_list tools (some w) s) s)
        (λ _ t. image_rm tools false wanted t)
        (remove_listed-Keeps name file w (backend_image_list tools (some w) s) s u)
        (λ t v. image_rm-Keeps name file wanted t v)
