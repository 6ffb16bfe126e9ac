-- ===== src/Build/Builder/Publish.antt =====
-- transient/build.py: `ImageBuilder.build` publishes the image in its last step, or not at all.
use transient.Base.{
  ℕ, suc, ◌≡◌, refl, inl, inr, Bool, true, false, Option, none, some, List, [], ◌∷◌, ◌++◌,
  append_assoc, Text, lit, Exn, index_error, Result, ok, err, Result-cases,
}
use transient.Base.Io.{World, perform, continue, ◌>>=◌}
use transient.Base.Io.Traces.{
  Added, Emits, Emits-pure, Emits-raise, Emits-perform, Emits-bind, Emits-catch, Emits-for_each,
  Emits-if,
}
use transient.Build.Instruction.{Instruction, Disk, Partition}
use transient.Build.Command.{combine_commands}
use transient.Build.Builder.{
  working_path, copy_file, create_image, publish, Action, run_command, make_readonly, rename,
  Builder, Build, act, step_line, run_commands, run_in_guest, run_in_chroot, found, disk_step,
  print_from, prepare_new_image, prepare_chroot, chroot_mounts, prepare_partitions, mount_partition,
  prepare_chroot_early, inspect_guest_chroot, ensure_chroot, run_instructions, destination_path,
  build_image, build,
}

-- The actions that publish nothing: files are copied and images created only at the working path, and none is
-- made read-only or renamed.
abbrev pub IsQuiet : Text → Action → Type 0
IsQuiet path (copy_file _ new) = new ≡ path
IsQuiet path (create_image new _) = new ≡ path
IsQuiet path (make_readonly _) = ⊥
IsQuiet path (rename _ _) = ⊥
IsQuiet path _ = Unit

module _ (w : World Action Text) (b : Builder) where
  -- The actions of this builder that publish nothing.
  abbrev pub Quiet : Action → Type 0
  Quiet = IsQuiet (working_path w b)

  Quiet-act : (a : Action) → Quiet a → Emits Quiet (act w b a)
  unfolding act
  Quiet-act a q = Emits-bind _ _ (Emits-perform w a q) (λ _. Emits-pure tt)

  Quiet-step_line : (n : ℕ) (i : Instruction) → Emits Quiet (step_line w b n i)
  unfolding step_line
  Quiet-step_line n i = Quiet-act _ tt

  Quiet-run_commands : (i : Instruction) → Emits Quiet (run_commands w b i)
  unfolding run_commands
  Quiet-run_commands i = Emits-for_each _ _ (λ c. Quiet-act (run_command c) tt)

  Quiet-run_in_guest :
      (cmd : Text) (allowfail : Bool) → Emits Quiet (run_in_guest w b cmd allowfail)
  unfolding run_in_guest
  Quiet-run_in_guest cmd true = Emits-catch _ _ (Quiet-act _ tt)
  Quiet-run_in_guest cmd false = Quiet-act _ tt

  Quiet-run_in_chroot :
      (cmd : Text) (allowfail : Bool) → Emits Quiet (run_in_chroot w b cmd allowfail)
  unfolding run_in_chroot
  Quiet-run_in_chroot cmd true = Emits-catch _ _ (Quiet-act _ tt)
  Quiet-run_in_chroot cmd false = Quiet-act _ tt

  Quiet-found : (o : Option (ℕ × Instruction × Disk)) → Emits Quiet (found o)
  unfolding found
  Quiet-found none = Emits-raise index_error
  Quiet-found (some d) = Emits-pure d

  Quiet-disk_step : Emits Quiet (disk_step w b)
  unfolding disk_step
  Quiet-disk_step = Quiet-found _

  Quiet-print_from : (n : ℕ) (is : List Instruction) → Emits Quiet (print_from w b n is)
  unfolding print_from
  Quiet-print_from n [] = Emits-pure tt
  Quiet-print_from n (Instruction.from s ∷ is) = Quiet-step_line n _
  Quiet-print_from n (_ ∷ is) = Quiet-print_from (suc n) is

  Quiet-prepare_new_image : Emits Quiet (prepare_new_image w b)
  unfolding prepare_new_image
  Quiet-prepare_new_image = Emits-bind _ _ (Quiet-print_from 0 b.instructions) λ _.
      Emits-bind _ _
        (Emits-if _ _ _
          (Emits-bind _ _ Quiet-disk_step
            λ (n, i, d). Emits-bind _ _ (Quiet-step_line n i) λ _. Quiet-act _ refl)
          (Emits-bind _ _ (Emits-perform w _ tt) λ _. Quiet-act _ refl))
        λ _. Emits-pure _

  Quiet-prepare_partitions :
      (n : ℕ) (is : List Instruction) → Emits Quiet (prepare_partitions w b n is)
  unfolding prepare_partitions
  Quiet-prepare_partitions n [] = Emits-pure tt
  Quiet-prepare_partitions n (Instruction.partition p ∷ is) =
      Emits-bind _ _ (Quiet-step_line n (Instruction.partition p)) λ _.
        Emits-bind _ _ (Quiet-run_commands (Instruction.partition p))
          λ _. Quiet-prepare_partitions (suc n) is
  Quiet-prepare_partitions n (_ ∷ is) = Quiet-prepare_partitions (suc n) is

  Quiet-mount_partition : (p : Text × Partition) → Emits Quiet (mount_partition w b p)
  unfolding mount_partition
  Quiet-mount_partition (m, p) =
      Emits-bind _ _ (Quiet-run_in_guest _ true) λ _. Quiet-run_in_guest _ false

  Quiet-prepare_chroot_early : Emits Quiet (prepare_chroot_early w b)
  unfolding prepare_chroot_early
  Quiet-prepare_chroot_early = Emits-bind _ _ Quiet-disk_step λ (n, i, d).
      Emits-bind _ _ (Quiet-run_commands i) λ _.
        Emits-bind _ _ (Quiet-prepare_partitions 0 b.instructions)
          λ _. Emits-for_each _ _ Quiet-mount_partition

  Quiet-ensure_chroot : (ready : Bool) → Emits Quiet (ensure_chroot w b ready)
  unfolding ensure_chroot prepare_chroot
  Quiet-ensure_chroot true = Emits-pure tt
  Quiet-ensure_chroot false =
      Emits-bind _ _ (Quiet-run_in_guest (combine_commands (chroot_mounts w b) true) true)
        λ _. Quiet-run_in_chroot (lit "load_policy -i") true

  Quiet-plain :
      (n : ℕ) (i : Instruction) (rest : Build (Unit {0}))
      → Emits Quiet rest
      → Emits Quiet (step_line w b n i >>= λ _. run_commands w b i >>= λ _. rest)
  Quiet-plain n i rest k =
      Emits-bind _ _ (Quiet-step_line n i) λ _. Emits-bind _ _ (Quiet-run_commands i) λ _. k

  Quiet-run_instructions :
      (n : ℕ) (ready : Bool) (is : List Instruction) → Emits Quiet (run_instructions w b n ready is)
  unfolding run_instructions inspect_guest_chroot
  Quiet-run_instructions n ready [] = Emits-pure tt
  Quiet-run_instructions n ready (Instruction.from _ ∷ is) = Quiet-run_instructions (suc n) ready is
  Quiet-run_instructions n ready (Instruction.disk _ ∷ is) = Quiet-run_instructions (suc n) ready is
  Quiet-run_instructions n ready (Instruction.partition _ ∷ is) =
      Quiet-run_instructions (suc n) ready is
  Quiet-run_instructions n ready (Instruction.inspect ∷ is) =
      Emits-bind _ _ (Quiet-ensure_chroot ready) λ _.
        Emits-bind _ _ (Quiet-step_line n _)
          λ _. Emits-bind _ _ (Quiet-act _ tt) λ _. Quiet-run_instructions (suc n) true is
  Quiet-run_instructions n ready (Instruction.run cmd ∷ is) =
      Emits-bind _ _ (Quiet-ensure_chroot ready)
        λ _. Quiet-plain n _ _ (Quiet-run_instructions (suc n) true is)
  Quiet-run_instructions n ready (Instruction.copy _ _ ∷ is) =
      Quiet-plain n _ _ (Quiet-run_instructions (suc n) ready is)
  Quiet-run_instructions n ready (Instruction.add _ _ ∷ is) =
      Quiet-plain n _ _ (Quiet-run_instructions (suc n) ready is)

  Quiet-build_image : Emits Quiet (build_image w b)
  unfolding build_image
  Quiet-build_image = Emits-bind _ _ Quiet-prepare_new_image λ image.
      Emits-bind _ _ (Quiet-act _ tt) λ _.
        Emits-bind _ _ (Emits-if _ _ _ Quiet-prepare_chroot_early (Emits-pure tt)) λ _.
          Emits-bind _ _ (Quiet-run_instructions 0 false b.instructions)
            λ _. Emits-bind _ _ (Quiet-act _ tt) λ _. Emits-pure image

-- How `publish` can end: with no action, since the name is refused; with the image read-only; or with
-- the rename.
data Ended (w : World Action Text) (b : Builder) (image : Text) (h : List Action) (r : Result Text)
    (after : List Action) : Type 0 where
  refused : (e : Exn) → r ≡ err e → after ≡ h → Ended w b image h r after
  stopped :
      (e : Exn) → r ≡ err e → after ≡ h ++ (make_readonly image ∷ []) → Ended w b image h r after
  reached :
      (destination : Text)
      → destination_path w b ≡ ok destination
      → ((d : Text) → r ≡ ok d → d ≡ destination)
      → after ≡ h ++ (make_readonly image ∷ rename image destination ∷ [])
      → Ended w b image h r after

module _ (w : World Action Text) (b : Builder) where
  publish-Ended :
      (image : Text) (h : List Action)
      → Ended w b image h (publish w b image h).0 (publish w b image h).1
  unfolding publish act perform ◌>>=◌
  publish-Ended image h = elim (Result-cases (destination_path w b)) [
    | inr (e, no_path) ↦ rw (no_path, publish) (refused e refl refl)
    | inl (d, path) ↦ elim (Result-cases (w h (make_readonly image))) [
      | inr (e, x) ↦ rw (path, x, publish) (stopped e refl refl)
      | inl (a, x) ↦ elim (Result-cases (w (h ++ (make_readonly image ∷ [])) (rename image d))) [
        | inr (e, y) ↦ rw (path, x, y, publish) (reached d path (λ d' p. cc) (append_assoc h _ _))
        | inl (u, y) ↦ rw (path, x, y, publish) (reached d path (λ d' p. cc) (append_assoc h _ _))
      ]
    ]
  ]

  -- How `build` can end, by its result and its actions.
  pub data Ending (h : List Action) (r : Result Text) (after : List Action) : Type 0 where
    unpublished : (e : Exn) → r ≡ err e → Added (Quiet w b) h after → Ending h r after
    stopped_before :
        (e : Exn) (image : Text) (built : List Action)
        → r ≡ err e
        → Added (Quiet w b) h built
        → build_image w b h ≡ (ok image, built)
        → after ≡ built ++ (make_readonly image ∷ [])
        → Ending h r after
    renamed :
        (image destination : Text) (built : List Action)
        → destination_path w b ≡ ok destination
        → ((d : Text) → r ≡ ok d → d ≡ destination)
        → Added (Quiet w b) h built
        → build_image w b h ≡ (ok image, built)
        → after ≡ built ++ (make_readonly image ∷ rename image destination ∷ [])
        → Ending h r after

  of_Ended :
      (image : Text) (h built : List Action) (r : Result Text) (after : List Action)
      → Added (Quiet w b) h built
      → build_image w b h ≡ (ok image, built)
      → Ended w b image built r after
      → Ending h r after
  of_Ended image h built r after q e (refused x p a) = unpublished x p (rw a q)
  of_Ended image h built r after q e (stopped x p a) = stopped_before x image built p q e a
  of_Ended image h built r after q e (reached d path same a) = renamed image d built path same q e a

  continued :
      (h : List Action) (r : Result Text) (built : List Action)
      → build_image w b h ≡ (r, built)
      → Added (Quiet w b) h built
      → Ending h (continue r (publish w b) built).0 (continue r (publish w b) built).1
  continued h (err e) built p q = unpublished e refl q
  continued h (ok image) built p q = of_Ended image h built _ _ q p (publish-Ended image built)

  -- Whatever the environment answers, `build` ends in one of three ways: it raises and has made no
  -- image read-only and renamed nothing; it raises after every step of the build succeeded, having
  -- made the new image read-only; or every step succeeded and its last two actions make the new image
  -- read-only and rename it to the destination, which is then the result if there is one. Until then the
  -- builder has copied a file or created an image only at the working path.
  pub build-Ending : (h : List Action) → Ending h (build w b h).0 (build w b h).1
  unfolding build ◌>>=◌
  build-Ending h =
      let (r, built) = build_image w b h in continued h r built refl ((Quiet-build_image w b).at h)
