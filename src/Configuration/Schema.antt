-- ===== src/Configuration/Schema.antt =====
-- transient/configuration.py, `schema_from_argument_parser`: the fields of a schema, from a parser's
-- arguments.
use transient.Base.{
  Bool, true, false, not, ◌||◌, none, some, List, [], ◌∷◌, lit, text_eq, runtime_error, key_error,
  Result, ok, err, ◌>>=◌,
}
use transient.Base.Dict.{Dict, insert}
use transient.Args.{Arg, nothing, count, flag, word, words}
use transient.Args.Argument.{ArgType, int_type, str_type, Action, append, Argument}
use transient.Args.Parsers.{
  Directories, create_parser, start_parser, run_parser, image_build_parser,
}

-- `fields.Int`, `fields.Str` and `fields.Bool`; no argument is a float.
pub data FieldType : Type 0 where
  int_field str_field bool_field : FieldType

pub record Field : Type 0 where
  pub field_type : FieldType
  pub is_list : Bool
  pub missing : Arg

-- `TYPE_TO_FIELD[arg.type]`
abbrev pub field_of_type : ArgType → FieldType
field_of_type int_type = int_field
field_of_type str_type = str_field

-- `TYPE_TO_FIELD[type(value)]`, for a value that is not None; there is no entry for a list.
abbrev pub field_of_value : Arg → Result FieldType
field_of_value (count n) = ok int_field
field_of_value (flag b) = ok bool_field
field_of_value (word t) = ok str_field
field_of_value (words ts) = err key_error
field_of_value nothing = err key_error

abbrev pub type_of_const : Arg → Result FieldType
type_of_const nothing = err (runtime_error (lit "No type, const, or default"))
type_of_const value = field_of_value value

abbrev pub type_of_default : Arg → Arg → Result FieldType
type_of_default nothing const = type_of_const const
type_of_default value const = field_of_value value

abbrev pub type_of_argument : Argument → Result FieldType
type_of_argument arg = elim arg.arg_type [
  | some t ↦ ok (field_of_type t)
  | none ↦ type_of_default arg.default arg.const
]

abbrev pub is_append : Action → Bool
is_append append = true
is_append action = false

-- `isinstance(arg, argparse._AppendAction) or arg.nargs in ("*", "+")`
abbrev pub takes_list : Argument → Bool
takes_list arg =
    is_append arg.action
    || elim arg.nargs [ none ↦ false | some n ↦ text_eq n (lit "*") || text_eq n (lit "+") ]

-- `arg_to_field`
unfoldable pub arg_to_field : Argument → Result Field
arg_to_field arg = type_of_argument arg >>= λ field_type.
    ok (record { field_type = field_type; is_list = takes_list arg; missing = arg.default })

-- `arg.dest not in ("help", "verbose")`
unfoldable pub has_field : Argument → Bool
has_field arg = not (text_eq arg.dest (lit "help") || text_eq arg.dest (lit "verbose"))

abbrev pub Schema : Type 0
Schema = Dict Field

-- The dictionary comprehension over `parser._actions`: a later argument replaces an earlier one.
unfoldable pub fields_from : List Argument → Schema → Result Schema
unfolding arg_to_field has_field insert
fields_from [] schema = ok schema
fields_from (arg ∷ args) schema = elim (has_field arg) [
  | true ↦ (arg_to_field arg >>= λ field. fields_from args (insert arg.dest field schema))
  | false ↦ fields_from args schema
]

unfoldable pub schema_from_argument_parser : List Argument → Result Schema
unfolding fields_from
schema_from_argument_parser args = fields_from args []

-- `CreateSchema`, `StartSchema`, `RunSchema` and `ImageBuildSchema`
unfoldable pub create_schema : Directories → Result Schema
unfolding schema_from_argument_parser create_parser
create_schema dirs = schema_from_argument_parser (create_parser dirs true)

unfoldable pub start_schema : Directories → Result Schema
unfolding schema_from_argument_parser start_parser
start_schema dirs = schema_from_argument_parser (start_parser dirs false)

unfoldable pub run_schema : Directories → Result Schema
unfolding schema_from_argument_parser run_parser
run_schema dirs = schema_from_argument_parser (run_parser dirs true)

unfoldable pub image_build_schema : Directories → Result Schema
unfolding schema_from_argument_parser image_build_parser
image_build_schema dirs = schema_from_argument_parser (image_build_parser dirs true)
