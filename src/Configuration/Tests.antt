-- ===== src/Configuration/Tests.antt =====
-- transient/configuration.py on concrete configurations.
use transient.Base.{
  contains, Text, [], false, if◌then◌else◌, lit, lstrip, ok, refl, replace_char, some, starts_with,
  text_eq, ◌∷◌, ◌≡◌, true, List, join,
}
use transient.Base.Dict.{IsDict, Dict, lookup, insert}
use transient.Configuration.{
  Value, string, nothing, items, single, merge_field, merge_fields, add_items, supply_field,
  supply_fields, run_config_from_create_and_start, create_transient_config,
}
use transient.Base.Decimal.{show_nat}
use transient.Args.{Arg, count}
use transient.Args.Parsers.{Directories}
use transient.Configuration.Schema.{int_field, bool_field, create_schema, start_schema, run_schema}
use transient.Configuration.Shape.{HasShape, IsFull}
use transient.Configuration.RunShape.{schema_of, Schemas, run_config_from_create_and_start-HasShape}
use transient.Configuration.Load.{
  decoded, not_toml, valid, loaded, parsing_error, load_config_file, rename_options,
  line_number_of_option, line_number_from, show_option_error, show_options,
}
use transient.Configuration.Load.Lines.{Names, line_number_of_option-Names}
use transient.Configuration.Supply.{IsKnown, supplied_over, create_transient_config_lem}
use transient.Configuration.Merge.{combined, run_config_from_create_and_start_lem}

abbrev created : Dict Value
created =
    (lit "name", single (string (lit "box")))
    ∷ (lit "ssh_option", items (lit "a" ∷ []))
    ∷ (lit "ssh_user", single (string (lit "vagrant")))
    ∷ []

abbrev started : Dict Value
started =
    (lit "ssh_option", items (lit "b" ∷ []))
    ∷ (lit "ssh_user", nothing)
    ∷ (lit "ssh_timeout", single (string (lit "9")))
    ∷ []

abbrev run : Dict Value
run =
    (lit "name", single (string (lit "box")))
    ∷ (lit "ssh_option", items (lit "a" ∷ lit "b" ∷ []))
    ∷ (lit "ssh_user", single (string (lit "vagrant")))
    ∷ (lit "ssh_timeout", single (string (lit "9")))
    ∷ []

merging : run_config_from_create_and_start ok created started ≡ ok run
unfolding run_config_from_create_and_start merge_fields merge_field add_items lookup insert lit
    text_eq
merging = refl

started-IsDict : IsDict started
unfolding lookup lit text_eq
started-IsDict = (refl, (refl, (refl, tt)))

run_config_from_create_and_start_lem_example :
    (merged : Dict Value) × (ok merged ≡ ok run)
    × ((k : Text)
        → lookup k merged ≡ combined (lookup k created) (lookup k created) (lookup k started))
run_config_from_create_and_start_lem_example =
    run_config_from_create_and_start_lem ok created started run started-IsDict merging

supplied :
    create_transient_config ok (some (ok created)) [] (
      (lit "ssh_option", items (lit "c" ∷ []))
      ∷ (lit "ssh_user", single (string (lit "root")))
      ∷ [])
    ≡ ok (
        (lit "name", single (string (lit "box")))
        ∷ (lit "ssh_option", items (lit "a" ∷ lit "c" ∷ []))
        ∷ (lit "ssh_user", single (string (lit "root")))
        ∷ (lit "config", nothing)
        ∷ [])
unfolding create_transient_config supply_fields supply_field lookup insert lit text_eq
supplied = refl

abbrev dirs : Directories
dirs = record { vmstore = lit "/vms"; backend = lit "/images" }

created-HasShape : HasShape (schema_of (create_schema dirs)) created
unfolding create_schema lookup insert lit text_eq replace_char lstrip starts_with
created-HasShape = (refl, (refl, (refl, tt)))

created-IsFull : IsFull (schema_of (create_schema dirs)) created
unfolding create_schema lookup insert lit text_eq replace_char lstrip starts_with
created-IsFull = (λ f e l n. cc, (λ f e l n. cc, (λ f e l n. cc, tt)))

started-HasShape : HasShape (schema_of (start_schema dirs)) started
unfolding start_schema lookup insert lit text_eq replace_char lstrip starts_with
started-HasShape = (refl, (tt, (refl, tt)))

-- The destinations, and the field of a constant without a type
rsync_field :
    lookup (lit "rsync") (schema_of (run_schema dirs))
    ≡ some (record { field_type = bool_field; is_list = false; missing = Arg.nothing })
unfolding run_schema lookup insert lit text_eq replace_char lstrip starts_with
rsync_field = refl

timeout_field :
    lookup (lit "ssh_timeout") (schema_of (create_schema dirs))
    ≡ some (record { field_type = int_field; is_list = false; missing = count 90 })
unfolding create_schema lookup insert lit text_eq replace_char lstrip starts_with
timeout_field = refl

run_config_from_create_and_start-HasShape_example :
    Schemas dirs
      (schema_of (create_schema dirs))
      (schema_of (start_schema dirs))
      (schema_of (run_schema dirs))
    × (merged : Dict Value) × HasShape (schema_of (run_schema dirs)) merged
    × (run_config_from_create_and_start ok created started ≡ ok merged)
run_config_from_create_and_start-HasShape_example =
    run_config_from_create_and_start-HasShape dirs ok created started created-HasShape
      created-IsFull started-HasShape

abbrev given : Dict Value
given = (lit "ssh_option", items (lit "c" ∷ [])) ∷ (lit "ssh_user", nothing) ∷ []

given-IsDict : IsDict given
unfolding lookup lit text_eq
given-IsDict = (refl, (refl, tt))

given-IsKnown : IsKnown created given
unfolding lookup lit text_eq
given-IsKnown =
    ((items (lit "a" ∷ []), refl, tt), ((single (string (lit "vagrant")), refl, tt), tt))

create_transient_config_lem_example :
    (merged : Dict Value) × (create_transient_config ok (some (ok created)) [] given ≡ ok merged)
    × ((k : Text)
        → lookup k merged ≡ (
            if text_eq (lit "config") k
            then some nothing
            else supplied_over (lookup k created) (lookup k given)))
create_transient_config_lem_example =
    create_transient_config_lem ok created [] given given-IsDict given-IsKnown

abbrev config_lines : List Text
config_lines = lit "ssh-user = 1\n" ∷ lit "# the name\n" ∷ lit "name = 2\n" ∷ []

line_number_of_option-Names_example : Names (lit "name") 1 config_lines (some 2)
unfolding line_number_of_option line_number_from contains starts_with lit
line_number_of_option-Names_example = line_number_of_option-Names (lit "name") config_lines

shown :
    show_option_error config_lines
      ((lit "ssh_user", lit "Not" ∷ lit "valid." ∷ []) ∷ [])
      (lit "box.toml")
    ≡ lit "Invalid configuration file 'box.toml'\n  [line 1]: ssh-user: Not valid."
unfolding show_option_error show_options lit join line_number_of_option line_number_from contains
    starts_with replace_char show_nat
shown = refl

-- The options of a file may be spelled as on the command line.
loading :
    load_config_file
      (λ path. ok path)
      (λ contents. decoded ((lit "ssh-user", single (string contents)) ∷ []))
      (λ partial config. valid config)
      (lit "box.toml")
      true
    ≡ loaded ((lit "ssh_user", single (string (lit "box.toml"))) ∷ [])
unfolding load_config_file rename_options replace_char insert lit
loading = refl

not_parsed :
    load_config_file {R = Text}
      (λ path. ok path)
      (λ contents. not_toml (lit "Empty key"))
      (λ partial config. valid [])
      (lit "box.toml")
      true
    ≡ parsing_error (lit "Empty key") (lit "box.toml")
unfolding load_config_file lit
not_parsed = refl
