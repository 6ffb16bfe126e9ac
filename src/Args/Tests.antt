-- ===== src/Args/Tests.antt =====
-- transient/args.py and `main` at concrete arguments, and the theorem at them.
use transient.Base.{
  ◌≡◌, refl, [], ◌∷◌, lit, text_eq, transient_error, key_error, attribute_error, ok, err,
}
use transient.Base.Dict.{Dict, lookup, erase}
use transient.Args.{
  Arg, word, words, count, Namespaces, cli_command_mappings, TransientArgs, transient_args,
  is_user_set, exited, raised, main,
}

-- `transient -vv image rm --force name`, as argparse gives it
abbrev fields : Dict Arg
fields =
    (lit "verbose", count 2)
    ∷ (lit "root_command", word (lit "image"))
    ∷ (lit "image_command", word (lit "rm"))
    ∷ (lit "images", words (lit "debian" ∷ []))
    ∷ []

abbrev given : Namespaces
given = record { parsed = fields; user_supplied = fields }

abbrev made : TransientArgs
made = record {
  args = record {
    parsed = (lit "images", words (lit "debian" ∷ [])) ∷ [];
    user_supplied = (lit "images", words (lit "debian" ∷ [])) ∷ [];
  };
  verbosity = count 2;
  callback = lit "image_rm_impl";
}

located : transient_args cli_command_mappings [] given ≡ ok made
unfolding transient_args lookup erase text_eq lit
located = refl

-- A field that the user set, in a namespace without a field called `name`
asked_for_name : is_user_set (lit "images") made.args ≡ err attribute_error
unfolding is_user_set lookup text_eq lit
asked_for_name = refl

failed :
    main (λ transient qemu. err (transient_error [])) (lit "transient" ∷ lit "run" ∷ []) ≡ exited 1
unfolding main
failed = refl

not_caught :
    main (λ transient qemu. err key_error) (lit "transient" ∷ lit "run" ∷ []) ≡ raised key_error
unfolding main
not_caught = refl
