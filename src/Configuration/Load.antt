-- ===== src/Configuration/Load.antt =====
-- transient/configuration.py: a configuration file is loaded, and how its errors are shown. The files, the
-- parser of TOML and the validation by marshmallow are parameters.
pub mod Lines
use transient.Base.{
  contains, ℕ, suc, Bool, not, Option, none, some, List, [], ◌∷◌, ◌++◌, if◌then◌else◌, Text, lit,
  join, replace_char, Exn, Result, ok, err,
}
use transient.Base.Decimal.{show_nat}
use transient.Base.Dict.{Dict, insert}
use transient.Configuration.{Value}

-- `error.normalized_messages()`: the messages of each field.
abbrev pub Messages : Type 0
Messages = List (Text × List Text)

-- `toml.loads`, or the text of its `TomlDecodeError`
pub data Parsed : Type 0 where
  decoded : Dict Value → Parsed
  not_toml : Text → Parsed

-- `schema.load`, or what its `ValidationError` says
pub data Validated {ℓ} (R : Type ℓ) : Type ℓ where
  valid : R → Validated R
  invalid : Messages → Validated R

-- How loading ends: with the configuration, `ConfigFileParsingError`, `ConfigFileOptionError`, or the
-- exception of opening the file.
pub data Loaded {ℓ} (R : Type ℓ) : Type ℓ where
  loaded : R → Loaded R
  parsing_error : Text → Text → Loaded R
  option_error : Messages → Text → Loaded R
  raised : Exn → Loaded R

-- `{name.replace("-", "_"): value for ...}`: of two names that become one, the later counts.
unfoldable pub rename_options : Dict Value → Dict Value → Dict Value
unfolding insert replace_char lit
rename_options [] config = config
rename_options ((name, value) ∷ parsed) config =
    rename_options parsed (insert (replace_char b'-' (lit "_") name) value config)

-- `__load_config_file`; the schema is told whether to leave fields out that are missing.
unfoldable pub load_config_file {ℓ} :
    {R : Type ℓ}
    → (Text → Result Text)
    → (Text → Parsed)
    → (Bool → Dict Value → Validated R)
    → Text
    → Bool
    → Loaded R
unfolding rename_options
load_config_file open_file loads load path set_defaults = elim (open_file path) [
  | err e ↦ raised e
  | ok contents ↦ elim (loads contents) [
    | not_toml error ↦ parsing_error error path
    | decoded parsed ↦ elim (load (not set_defaults) (rename_options parsed [])) [
      | invalid messages ↦ option_error messages path
      | valid config ↦ loaded config
    ]
  ]
]

-- The loop of `_line_number_of_option_in_config_file`
unfoldable pub line_number_from : ℕ → Text → List Text → Option ℕ
unfolding contains
line_number_from n option [] = none
line_number_from n option (line ∷ lines) =
    if contains option line then some n else line_number_from (suc n) option lines

unfoldable pub line_number_of_option : Text → List Text → Option ℕ
unfolding line_number_from
line_number_of_option option lines = line_number_from 1 option lines

abbrev shown_line : Option ℕ → Text
shown_line none = []
shown_line (some n) = show_nat n

abbrev option_text : Text → Text
option_text field = replace_char b'_' (lit "-") field

-- `ConfigFileParsingError.__str__`
unfoldable pub show_parsing_error : Text → Text → Text
unfolding lit
show_parsing_error error path =
    lit "Invalid configuration file '" ++ (path ++ (lit "'\n  " ++ error))

-- The loop of `ConfigFileOptionError.__str__`, over the lines of the file
unfoldable pub show_options : List Text → Messages → Text
unfolding line_number_of_option join lit
show_options lines [] = []
show_options lines ((field, errors) ∷ messages) =
    lit "\n  [line "
    ++ (shown_line (line_number_of_option (option_text field) lines)
        ++ (lit "]: "
            ++ (option_text field
                ++ (lit ": " ++ (join (lit " ") errors ++ show_options lines messages)))))

unfoldable pub show_option_error : List Text → Messages → Text → Text
unfolding show_options lit
show_option_error lines messages path =
    lit "Invalid configuration file '" ++ (path ++ (lit "'" ++ show_options lines messages))

-- `CLIArgumentError.__str__`
unfoldable pub show_arguments : Messages → Text
unfolding join lit
show_arguments [] = []
show_arguments ((arg, errors) ∷ messages) =
    lit "\n  " ++ (arg ++ (lit ": " ++ (join (lit " ") errors ++ show_arguments messages)))

unfoldable pub show_argument_error : Messages → Text
unfolding show_arguments lit
show_argument_error messages = lit "Invalid command line:" ++ show_arguments messages
