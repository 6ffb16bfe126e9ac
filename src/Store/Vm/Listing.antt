-- ===== src/Store/Vm/Listing.antt =====
-- transient/store.py, `VmStore.vmstates`: the virtual machines that nobody has locked.
use transient.Base.{
  ok-injective, ◌≡◌, refl, sym, ap, ◌∙◌, inl, inr, Bool, true, false, not, ◌||◌, Option, none, some,
  List, [], ◌∷◌, arith, if◌then◌else◌, Bool-cases, filter, any, Text, lit, text_eq, starts_with,
  Exn, lock_held, assertion_error, Result, ok, err, ◌>>=◌, >>=-eq-ok,
}
use transient.Store.State.{Store, Tools, VmDir, CreateConfig, is_dot_name}
use transient.Base.Dict.{Dict, lookup, has_key}
use transient.Store.Name.{storage_safe_encode, storage_safe_decode}
use transient.Store.Vm.{
  find_primary_image, VmState, FrontendInfo, vm_state, frontend_infos, or_none, load_dir,
  get_vmstate_by_name, dir_exists, vmstate_exists, lock_vmstate_by_name, states_of,
  unlocked_vmstates,
}

abbrev pub is_unlocked : Store → VmState → Bool
is_unlocked s v = not (any (text_eq (storage_safe_encode v.name)) s.locked)

module _ (tools : Tools) where
  -- The loop of `vmstates` over the directories, without those that begin with a dot. Whatever is raised, a
  -- held lock or another exception, the next one follows.
  unfoldable pub lockable_states_of : Store → Dict VmDir → List VmState
  lockable_states_of s [] = []
  lockable_states_of s ((file, _) ∷ rest) =
      let more = lockable_states_of s rest in
      if starts_with file (lit ".")
      then more
      else elim (lock_vmstate_by_name tools (storage_safe_decode file) s) [
        | err e ↦ more
        | ok state ↦ state ∷ more
      ]

  unfoldable pub vmstates : Store → List VmState
  unfolding lockable_states_of
  vmstates s = lockable_states_of s s.vms

  -- What the two ways of reading a machine give
  data Reads (s : Store) : Option VmState → Result VmState → Type 0 where
    neither : (e : Exn) → Reads s none (err e)
    both : (v : VmState) → is_unlocked s v ≡ true → Reads s (some v) (ok v)
    held : (v : VmState) (e : Exn) → is_unlocked s v ≡ false → Reads s (some v) (err e)

  vm_state-name :
      (name : Text) (images : List FrontendInfo) (config : CreateConfig) (v : VmState)
      → vm_state name images config ≡ ok v
      → v.name ≡ name
  unfolding vm_state
  vm_state-name name images config v h =
      let (primary, found, made) = >>=-eq-ok (find_primary_image name config.image images) _ h in
      ap (λ (w : VmState). w.name) (sym (ok-injective made))

  or_none-some : (r : Result VmState) (v : VmState) → or_none tools r ≡ some v → r ≡ ok v
  or_none-some (ok w) v h = cc
  or_none-some (err e) v h = cc

  load_dir-name :
      (name : Text) (s : Store) (dir : Option VmDir) (v : VmState)
      → load_dir tools name s dir ≡ some v
      → v.name ≡ name
  load_dir-name name s none v h = cc
  load_dir-name name s (some dir) v h = of_config dir.config h
    where
      of_config :
          (c : Option Text)
          → elim c [
            | none ↦ none
            | some written ↦ or_none tools (do
              config ← tools.load_config written
              images ← frontend_infos tools s (tools.list_dir dir.files)
              vm_state name images config)
          ]
            ≡ some v
          → v.name ≡ name
      of_config none h = cc
      of_config (some written) h =
          let (config, read, rest) = >>=-eq-ok (tools.load_config written) _ (or_none-some _ v h) in
          let (images, some_images, made) =
            >>=-eq-ok (frontend_infos tools s (tools.list_dir dir.files)) _ rest in
          vm_state-name name images config v made

  get_vmstate_by_name-name :
      (name : Text) (s : Store) (v : VmState)
      → get_vmstate_by_name tools name s ≡ some v
      → v.name ≡ name
  unfolding get_vmstate_by_name
  get_vmstate_by_name-name name s v h =
      load_dir-name name s (lookup (storage_safe_encode name) s.vms) v h

  vmstate_exists-lookup :
      (name : Text) (s : Store) (dir : VmDir)
      → lookup (storage_safe_encode name) s.vms ≡ some dir
      → vmstate_exists name s ≡ true
  unfolding vmstate_exists dir_exists has_key
  vmstate_exists-lookup name s dir h = either_way (is_dot_name _) (rw (has_key, h) refl)
    where
      either_way : (b : Bool) {c : Bool} → c ≡ true → (b || c) ≡ true
      either_way b h = ground (arith, h)

  -- The end of the reading, once it is known whether the directory is locked
  read_end :
      (name : Text) (s : Store) (o : Option VmState)
      → ((v : VmState) → o ≡ some v → v.name ≡ name)
      → (e : Exn) (f : Exn)
      → Reads s o (
          if any (text_eq (storage_safe_encode name)) s.locked
          then err e
          else elim o [ none ↦ err f | some state ↦ ok state ])
  read_end name s none named e f =
      elim (Bool-cases (any (text_eq (storage_safe_encode name)) s.locked)) [
        | inl l ↦ rw l (neither e)
        | inr l ↦ rw l (neither f)
      ]
  read_end name s (some v) named e f =
      elim (Bool-cases (any (text_eq (storage_safe_encode name)) s.locked)) [
        | inl l ↦ rw l (held v e (rw (named v refl, l) refl))
        | inr l ↦ rw l (both v (rw (named v refl, l) refl))
      ]

  nothing_there :
      (name : Text) (s : Store) (o : Option VmDir)
      → lookup (storage_safe_encode name) s.vms ≡ o
      → load_dir tools name s o ≡ none
      → get_vmstate_by_name tools name s ≡ none
  unfolding get_vmstate_by_name
  nothing_there name s o e h = ap (load_dir tools name s) e ∙ h

  reads :
      (name : Text) (s : Store)
      → Reads s (get_vmstate_by_name tools name s) (lock_vmstate_by_name tools name s)
  unfolding lock_vmstate_by_name
  reads name s = go (lookup (storage_safe_encode name) s.vms) refl (vmstate_exists-lookup name s)
    where
      of_config :
          (dir : VmDir)
          → lookup (storage_safe_encode name) s.vms ≡ some dir
          → vmstate_exists name s ≡ true
          → (c : Option Text) → dir.config ≡ c
          → Reads s (get_vmstate_by_name tools name s) (lock_vmstate_by_name tools name s)
      of_config dir e there none p =
          rw (nothing_there name s (some dir) e (rw p refl), e, there, p) (neither _)
      of_config dir e there (some config) p =
          rw (e, there, p)
            (read_end name s (get_vmstate_by_name tools name s) (get_vmstate_by_name-name name s)
              (lock_held name) assertion_error)

      go :
          (o : Option VmDir)
          → lookup (storage_safe_encode name) s.vms ≡ o
          → ((dir : VmDir) → o ≡ some dir → vmstate_exists name s ≡ true)
          → Reads s (get_vmstate_by_name tools name s) (lock_vmstate_by_name tools name s)
      go none e there = elim (Bool-cases (vmstate_exists name s)) [
        | inl x ↦ rw (nothing_there name s none e refl, e, x) (neither _)
        | inr x ↦ rw (nothing_there name s none e refl, e, x) (neither _)
      ]
      go (some dir) e there = of_config dir e (there dir refl) dir.config refl

  lockable_states_of-filter :
      (s : Store) (dirs : Dict VmDir)
      → lockable_states_of s dirs ≡ filter (is_unlocked s) (states_of tools s dirs)
  unfolding lockable_states_of states_of
  lockable_states_of-filter s [] = refl
  lockable_states_of-filter s ((file, dir) ∷ rest) =
      elim (Bool-cases (starts_with file (lit "."))) [
        | inl e ↦ rw e (lockable_states_of-filter s rest)
        | inr e ↦ rw e (
            go (states_of tools s rest) (lockable_states_of-filter s rest)
              (reads (storage_safe_decode file) s))
      ]
    where
      go :
          {more : List VmState} (found : List VmState) {o : Option VmState} {r : Result VmState}
          → more ≡ filter (is_unlocked s) found
          → Reads s o r
          → elim r [ err e ↦ more | ok state ↦ state ∷ more ]
            ≡ filter (is_unlocked s) (elim o [ none ↦ found | some state ↦ state ∷ found ])
      go found same (neither e) = same
      go found same (both v unlocked) = rw unlocked (ap (λ r. v ∷ r) same)
      go found same (held v e locked) = rw locked same

  -- `vmstates` gives the machines of `unlocked_vmstates` that nobody has locked, in the same order: a lock
  -- that is held hides no other machine, and what can be read without the lock can be read with it.
  pub vmstates_lem : (s : Store) → vmstates s ≡ filter (is_unlocked s) (unlocked_vmstates tools s)
  unfolding vmstates unlocked_vmstates
  vmstates_lem s = lockable_states_of-filter s s.vms

  -- What can be read without the lock is what the lock gives, if nobody holds it.
  pub lock_vmstate_by_name-get_vmstate_by_name :
      (name : Text) (s : Store) (v : VmState)
      → get_vmstate_by_name tools name s ≡ some v
      → is_unlocked s v ≡ true
      → lock_vmstate_by_name tools name s ≡ ok v
  lock_vmstate_by_name-get_vmstate_by_name name s v h unlocked = go (reads name s) h
    where
      go : {o : Option VmState} {r : Result VmState} → Reads s o r → o ≡ some v → r ≡ ok v
      go (neither e) h = cc
      go (both w open_now) h = ap ok cc
      go (held w e locked) h = absurd (cc)
