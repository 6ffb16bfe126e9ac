-- ===== src/Args/Parsers.antt =====
-- transient/args.py, `define_parsers`: the arguments of each parser. The help texts are left out.
use transient.Base.{ℕ, Bool, none, some, List, [], ◌∷◌, ◌++◌, if◌then◌else◌, Text, lit}
use transient.Args.{Arg, nothing, count, word, words}
use transient.Args.Argument.{
  str_type, store, counted, version, Argument, optional, positional, str_arg, int_arg, true_arg,
  append_arg, one, help_argument,
}

unfoldable pub root_parser : List Argument
root_parser =
    help_argument
    ∷ optional (one (lit "--version")) version none none nothing nothing
    ∷ optional (lit "--verbose" ∷ lit "-v" ∷ []) counted none none (count 0) nothing
    ∷ []

-- The directories that are the defaults of two options.
pub record Directories : Type 0 where
  pub vmstore : Text
  pub backend : Text

abbrev pub ssh_default_total_timeout : ℕ
ssh_default_total_timeout = 90

abbrev pub qmp_default_timeout : ℕ
qmp_default_timeout = 10

module _ (dirs : Directories) (include_defaults : Bool) where
  abbrev pub set_default : Arg → Arg
  set_default value = if include_defaults then value else nothing

  -- The default `SUPPRESS` of `--verbose`, which leaves the attribute out, is written as no value.
  unfoldable pub common_parser : List Argument
  common_parser =
      optional (lit "--verbose" ∷ lit "-v" ∷ []) counted none none nothing nothing
      ∷ str_arg (one (lit "--vmstore")) (set_default (word dirs.vmstore))
      ∷ str_arg (one (lit "--image-backend")) (set_default (word dirs.backend))
      ∷ []

  unfoldable pub common_ssh_parser : List Argument
  common_ssh_parser =
      str_arg (one (lit "--ssh-user")) (set_default (word (lit "vagrant")))
      ∷ str_arg (one (lit "--ssh-bin-name")) (set_default (word (lit "ssh")))
      ∷ int_arg (one (lit "--ssh-timeout")) (set_default (count ssh_default_total_timeout))
      ∷ str_arg (lit "--ssh-command" ∷ lit "--cmd" ∷ []) nothing
      ∷ append_arg (lit "--ssh-option" ∷ lit "-o" ∷ []) (set_default (words []))
      ∷ []

  unfoldable pub common_run_parser : List Argument
  unfolding common_ssh_parser common_parser
  common_run_parser =
      common_ssh_parser
      ++ (common_parser
          ++ (true_arg (lit "--ssh-console" ∷ lit "--ssh" ∷ [])
              ∷ true_arg (lit "--ssh-with-serial" ∷ lit "--sshs" ∷ [])
              ∷ str_arg (one (lit "--sftp-bin-name")) (set_default (word (lit "sftp-server")))
              ∷ int_arg (one (lit "--ssh-port")) nothing
              ∷ str_arg (one (lit "--ssh-net-driver")) (set_default (word (lit "virtio-net-pci")))
              ∷ true_arg (one (lit "--no-virtio-scsi"))
              ∷ int_arg (one (lit "--shutdown-timeout")) (set_default (count 20))
              ∷ str_arg (one (lit "--qemu-bin-name"))
                  (set_default (word (lit "qemu-system-x86_64")))
              ∷ int_arg (one (lit "--qmp-timeout")) (set_default (count qmp_default_timeout))
              ∷ append_arg (lit "--shared-folder" ∷ lit "-s" ∷ []) (set_default (words []))
              ∷ str_arg (one (lit "--config")) nothing
              ∷ []))

  unfoldable pub common_oneshot_parser : List Argument
  common_oneshot_parser =
      append_arg (lit "--copy-in-before" ∷ lit "-b" ∷ []) (set_default (words []))
      ∷ append_arg (lit "--copy-out-after" ∷ lit "-a" ∷ []) (set_default (words []))
      ∷ int_arg (one (lit "--copy-timeout")) nothing
      ∷ true_arg (one (lit "--rsync"))
      ∷ []

  unfoldable pub common_create_parser : List Argument
  common_create_parser = append_arg (one (lit "--extra-image")) (set_default (words [])) ∷ []

  abbrev pub qemu_args_argument : Argument
  qemu_args_argument =
      optional (one (lit "--qemu_args")) store (some (lit "*")) (some str_type) nothing nothing

  -- What `create` and `run` add
  abbrev pub image_and_name : List Argument
  image_and_name =
      positional (lit "image") none (some str_type)
      ∷ str_arg (one (lit "--name")) nothing
      ∷ qemu_args_argument
      ∷ []

  unfoldable pub create_parser : List Argument
  unfolding common_run_parser common_create_parser
  create_parser = help_argument ∷ (common_run_parser ++ (common_create_parser ++ image_and_name))

  unfoldable pub run_parser : List Argument
  unfolding common_run_parser common_oneshot_parser common_create_parser
  run_parser =
      help_argument
      ∷ (common_run_parser ++ (common_oneshot_parser ++ (common_create_parser ++ image_and_name)))

  unfoldable pub start_parser : List Argument
  unfolding common_run_parser common_oneshot_parser
  start_parser =
      help_argument
      ∷ (common_run_parser
          ++ (common_oneshot_parser
              ++ (positional (lit "name") none (some str_type) ∷ qemu_args_argument ∷ [])))

  unfoldable pub rm_parser : List Argument
  unfolding common_parser
  rm_parser =
      help_argument
      ∷ (common_parser
          ++ (true_arg (lit "--force" ∷ lit "-f" ∷ [])
              ∷ positional (lit "name") (some (lit "+")) none
              ∷ []))

  unfoldable pub stop_parser : List Argument
  unfolding common_parser
  stop_parser =
      help_argument
      ∷ (common_parser
          ++ (true_arg (lit "--kill" ∷ lit "-k" ∷ [])
              ∷ positional (lit "name") (some (lit "+")) none
              ∷ []))

  unfoldable pub ssh_parser : List Argument
  unfolding common_parser common_ssh_parser
  ssh_parser =
      help_argument
      ∷ (common_parser
          ++ (common_ssh_parser
              ++ (true_arg (lit "--wait" ∷ lit "-w" ∷ [])
                  ∷ positional (lit "name") none none
                  ∷ [])))

  unfoldable pub ps_parser : List Argument
  unfolding common_parser
  ps_parser =
      help_argument
      ∷ (common_parser
          ++ (true_arg (lit "-a" ∷ lit "--all" ∷ [])
              ∷ true_arg (one (lit "--ssh"))
              ∷ true_arg (one (lit "--pid"))
              ∷ []))

  unfoldable pub commit_parser : List Argument
  unfolding common_parser
  commit_parser =
      help_argument
      ∷ (common_parser
          ++ (positional (lit "vm") none (some str_type)
              ∷ positional (lit "name") none (some str_type)
              ∷ []))

  unfoldable pub image_ls_parser : List Argument
  unfolding common_parser
  image_ls_parser = help_argument ∷ common_parser

  -- The two timeouts of `image build` and of `cp`
  abbrev pub timeouts : List Argument
  timeouts =
      int_arg (one (lit "--qmp-timeout")) (set_default (count qmp_default_timeout))
      ∷ int_arg (one (lit "--ssh-timeout")) (set_default (count ssh_default_total_timeout))
      ∷ []

  unfoldable pub image_build_parser : List Argument
  unfolding common_parser
  image_build_parser =
      help_argument
      ∷ (common_parser
          ++ (positional (lit "build_dir") none (some str_type)
              ∷ str_arg (lit "--file" ∷ lit "-f" ∷ []) nothing
              ∷ str_arg (one (lit "--name")) nothing
              ∷ (timeouts ++ (true_arg (one (lit "--local")) ∷ []))))

  unfoldable pub image_rm_parser : List Argument
  unfolding common_parser
  image_rm_parser =
      help_argument
      ∷ (common_parser
          ++ (positional (lit "name") (some (lit "+")) none
              ∷ true_arg (lit "--force" ∷ lit "-f" ∷ [])
              ∷ []))

  unfoldable pub cp_parser : List Argument
  unfolding common_parser
  cp_parser =
      help_argument
      ∷ (common_parser
          ++ (positional (lit "path") (some (lit "+")) none
              ∷ (timeouts ++ (true_arg (one (lit "--rsync")) ∷ []))))
