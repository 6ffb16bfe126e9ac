-- ===== src/Editor/Guest.antt =====
-- transient/editor.py: a command of the guest, `run_command_in_guest`.
use transient.Base.{
  ◌≡◌, refl, ap, ◌∙◌, true, false, Option, none, List, [], ◌∷◌, ◌++◌, arith, Text, Result, ok, err,
}
use transient.Base.Io.{caught}
use transient.Editor.{Finished, EditAction, ssh_command, EditWorld, output_of, run_command_in_guest}

module _ (world : EditWorld) where
  output_of-eq-ok :
      (cmd : Text) (f : Finished) (out : Option Text) → output_of cmd f ≡ ok out → f.returncode ≡ 0
  unfolding output_of
  output_of-eq-ok cmd f out h = grind (arith, h)

  -- A command is performed once; if it gives a value, its return code is 0.
  pub run_command_in_guest_lem :
      (cmd : Text) (h : List EditAction)
      → (r : Result (Option Text)) × (run_command_in_guest world cmd false h
          ≡ (r, h ++ (ssh_command cmd ∷ [])))
        × ((out : Option Text)
            → r ≡ ok out
            → (f : Finished) × (world h (ssh_command cmd) ≡ ok f) × (f.returncode ≡ 0))
  unfolding run_command_in_guest
  run_command_in_guest_lem cmd h = go (world h (ssh_command cmd)) refl
    where
      go :
          (w : Result Finished)
          → world h (ssh_command cmd) ≡ w
          → (r : Result (Option Text)) × (run_command_in_guest world cmd false h
              ≡ (r, h ++ (ssh_command cmd ∷ [])))
            × ((out : Option Text)
                → r ≡ ok out
                → (f : Finished) × (world h (ssh_command cmd) ≡ ok f) × (f.returncode ≡ 0))
      go (err e) same = (err e, rw same refl, λ out k. cc)
      go (ok f) same =
          (output_of cmd f, rw same refl, λ out k. (f, same, output_of-eq-ok cmd f out k))

  caught-ok : (r : Result (Option Text)) → (out : Option Text) × (caught (λ e. none) r ≡ ok out)
  caught-ok (ok out) = (out, refl)
  caught-ok (err e) = (none, refl)

  run_command_in_guest-caught :
      (cmd : Text) (h : List EditAction)
      → run_command_in_guest world cmd true h ≡ (
        caught (λ _. none) (run_command_in_guest world cmd false h).0,
        (run_command_in_guest world cmd false h).1,
      )
  unfolding run_command_in_guest
  run_command_in_guest-caught cmd h = refl

  pub run_command_in_guest-allowfail :
      (cmd : Text) (h : List EditAction)
      → (out : Option Text) × (run_command_in_guest world cmd true h
          ≡ (ok out, h ++ (ssh_command cmd ∷ [])))
  run_command_in_guest-allowfail cmd h =
      let (r, e, _) = run_command_in_guest_lem cmd h in
      let (out, k) = caught-ok r in
      (
        out,
        run_command_in_guest-caught cmd h
            ∙ ap (λ p. (caught (λ _. none) p.0, p.1)) e
            ∙ ap (λ q. (q, h ++ (ssh_command cmd ∷ []))) k,
      )
