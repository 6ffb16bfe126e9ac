-- ===== src/Args.antt =====
-- transient/args.py: `TransientArgs`, and transient/cli.py: the commands and `main`. What argparse makes of
-- the arguments is given as two dictionaries.
pub mod Argument
pub mod Fields
pub mod Parsers
pub mod Tests
use transient.Base.{
  ℕ, Bool, true, false, not, ◌&&◌, Option, none, some, List, ◌++◌, if◌then◌else◌, Text, lit,
  text_eq, Exn, transient_error, process_error, lock_held, key_error, attribute_error,
  file_not_found, Result, ok, err, ◌>>=◌,
}
use transient.Cli.{split_arguments}
use transient.Base.Dict.{Dict, lookup, insert, erase, has_key}

-- A value of a namespace of argparse.
pub data Arg : Type 0 where
  nothing : Arg
  count : ℕ → Arg
  flag : Bool → Arg
  word : Text → Arg
  words : List Text → Arg

-- `command_mappings`: a callback, with whether it takes QEMU's arguments, or a table of more commands.
mutual
  pub data Mapping : Type 0 where
    command : Text → Bool → Mapping
    commands : Table → Mapping

  pub data Table : Type 0 where
    last : Table
    entry : Text → Mapping → Table → Table

-- `CLI_COMMAND_MAPPINGS`, with the names of the callbacks
abbrev pub cli_command_mappings : Mapping
cli_command_mappings = commands (
    entry (lit "create") (command (lit "create_impl") true) (
      entry (lit "run") (command (lit "run_impl") true) (
        entry (lit "rm") (command (lit "rm_impl") false) (
          entry (lit "ssh") (command (lit "ssh_impl") false) (
            entry (lit "start") (command (lit "start_impl") true) (
              entry (lit "stop") (command (lit "stop_impl") false) (
                entry (lit "ps") (command (lit "ps_impl") false) (
                  entry (lit "commit") (command (lit "commit_impl") false) (
                    entry (lit "cp") (command (lit "cp_impl") false) (
                      entry (lit "image")
                        (commands (
                          entry (lit "ls") (command (lit "image_ls_impl") false) (
                            entry (lit "build") (command (lit "image_build_impl") false)
                              (entry (lit "rm") (command (lit "image_rm_impl") false) last))))
                        last))))))))))

-- The attributes that the constructor changes.
pub record Namespaces : Type 0 where
  pub parsed : Dict Arg
  pub user_supplied : Dict Arg

-- `__remove_arg`
unfoldable pub remove_arg : Text → Namespaces → Result Namespaces
unfolding has_key erase
remove_arg name args =
    if has_key name args.parsed && has_key name args.user_supplied
    then ok
        (record { parsed = erase name args.parsed; user_supplied = erase name args.user_supplied })
    else err attribute_error

-- `__add_arg`
unfoldable pub add_arg : Text → Arg → Namespaces → Namespaces
unfolding insert
add_arg name value args = record {
  parsed = insert name value args.parsed;
  user_supplied = insert name value args.user_supplied;
}

abbrev pub names_key : Text → Arg → Bool
names_key key (word name) = text_eq key name
names_key key value = false

-- A callback, whether it takes QEMU's arguments, and the namespaces that are left.
abbrev pub Located : Type 0
Located = Text × Bool × Namespaces

-- `getattr` of what a namespace may have
abbrev pub attribute : Option Arg → Result Arg
attribute none = err attribute_error
attribute (some value) = ok value

-- The loop that looks for the callback, from `mapping` on.
unfoldable mutual
  unfolding remove_arg

  pub locate : Mapping → Text → Namespaces → Result Located
  locate (command callback needs_qemu) field args = ok (callback, needs_qemu, args)
  locate (commands table) field args =
      attribute (lookup field args.parsed) >>= λ name. locate_in table name field args

  pub locate_in : Table → Arg → Text → Namespaces → Result Located
  locate_in last name field args = err key_error
  locate_in (entry key mapping table) name field args =
      let next = locate_in table name field args in
      let found = remove_arg field args >>= λ left. locate mapping (key ++ lit "_command") left in
      if names_key key name then found else next

-- A `TransientArgs`, once it is made.
pub record TransientArgs : Type 0 where
  pub args : Namespaces
  pub verbosity : Arg
  pub callback : Text

-- `TransientArgs.__init__`, after the two calls of argparse
unfoldable pub transient_args : Mapping → List Text → Namespaces → Result TransientArgs
unfolding locate remove_arg add_arg lookup
transient_args mapping qemu_args args =
    attribute (lookup (lit "verbose") args.parsed) >>= λ verbosity.
    remove_arg (lit "verbose") args >>= λ left.
    locate mapping (lit "root_command") left >>= λ found. ok (record {
      args = if found.1 then add_arg (lit "qemu_args") (words qemu_args) found.2 else found.2;
      verbosity = verbosity;
      callback = found.0;
    })

-- `is_user_set`: the attribute that is read is the one called `name`.
unfoldable pub is_user_set : Text → Namespaces → Result Bool
unfolding has_key lookup lit
is_user_set name args =
    if not (has_key name args.user_supplied)
    then ok false
    else elim (lookup (lit "name") args.user_supplied) [
      | none ↦ err attribute_error
      | some nothing ↦ ok false
      | some value ↦ ok true
    ]

-- How `main` ends: with an exit status, or with an exception that it does not catch. The errors of
-- configuration.py, which it catches too, are none of the classes told apart here.
pub data Exit : Type 0 where
  exited : ℕ → Exit
  raised : Exn → Exit

unfoldable pub main : (List Text → List Text → Result (Unit {0})) → List Text → Exit
unfolding split_arguments
main dispatch_command argv =
    let (transient, qemu) = split_arguments argv in
    elim (dispatch_command transient qemu) [
      | ok done ↦ exited 0
      | err (transient_error msg) ↦ exited 1
      | err (process_error e) ↦ exited 1
      | err (lock_held name) ↦ exited 1
      | err file_not_found ↦ exited 1
      | err e ↦ raised e
    ]
