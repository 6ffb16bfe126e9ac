-- ===== src/Args/Argument.antt =====
-- transient/args.py, `define_parsers`: an argument of a parser, and the shapes of `add_argument` that are used.
use transient.Base.{
  true, Option, none, some, List, [], ◌∷◌, find?, Text, lit, starts_with, replace_char, lstrip,
}
use transient.Args.{Arg, nothing, flag}

-- The type of an argument, where one is given.
pub data ArgType : Type 0 where
  int_type str_type : ArgType

-- The actions that are used; `help` is the one that argparse adds.
pub data Action : Type 0 where
  store store_const append counted version help : Action

-- `argparse.Action`: the attributes that the program reads, and the flags.
pub record Argument : Type 0 where
  pub option_strings : List Text
  pub dest : Text
  pub action : Action
  pub nargs : Option Text
  pub arg_type : Option ArgType
  pub default : Arg
  pub const : Arg

-- The destination that argparse gives an optional argument: its first long flag, or else its first.
abbrev pub dest_of : List Text → Text
dest_of flags =
    let long = find? (λ s. starts_with s (lit "--")) flags in
    let chosen = elim long as (λ _. Text) [
      | some s ↦ s
      | none ↦ elim flags as (λ _. Text) [ [] ↦ [] | s ∷ _ ↦ s ]
    ] in
    replace_char b'-' (lit "_") (lstrip b'-' chosen)

abbrev pub optional : List Text → Action → Option Text → Option ArgType → Arg → Arg → Argument
optional flags action nargs arg_type default const = record {
  option_strings = flags;
  dest = dest_of flags;
  action = action;
  nargs = nargs;
  arg_type = arg_type;
  default = default;
  const = const;
}

abbrev pub positional : Text → Option Text → Option ArgType → Argument
positional name nargs arg_type = record {
  option_strings = [];
  dest = name;
  action = store;
  nargs = nargs;
  arg_type = arg_type;
  default = nothing;
  const = nothing;
}

-- The shapes of `add_argument` that are used
abbrev pub str_arg : List Text → Arg → Argument
str_arg flags default = optional flags store none (some str_type) default nothing

abbrev pub int_arg : List Text → Arg → Argument
int_arg flags default = optional flags store none (some int_type) default nothing

abbrev pub true_arg : List Text → Argument
true_arg flags = optional flags store_const none none nothing (flag true)

abbrev pub append_arg : List Text → Arg → Argument
append_arg flags default = optional flags append none (some str_type) default nothing

abbrev pub one : Text → List Text
one option = option ∷ []

abbrev pub help_argument : Argument
help_argument = optional (lit "-h" ∷ lit "--help" ∷ []) help none none nothing nothing
