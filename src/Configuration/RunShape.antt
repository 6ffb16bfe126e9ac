-- ===== src/Configuration/RunShape.antt =====
-- transient/configuration.py and transient/args.py: what `create` and `start` take makes a run.
use transient.Base.{
  ◌≡◌, refl, Bool, true, false, [], ◌∷◌, all, All, lit, text_eq, starts_with, replace_char, lstrip,
  Result, ok, err,
}
use transient.Base.Dict.{Dict, lookup, insert}
use transient.Args.{Arg}
use transient.Args.Parsers.{Directories}
use transient.Configuration.{Value, run_config_from_create_and_start}
use transient.Configuration.Schema.{Schema, create_schema, start_schema, run_schema}
use transient.Configuration.Shape.{
  HasShape, IsFull, and_true, covers, merge_fields-HasShape, HasShape-covers,
}

-- The schema that is made; its making is known to succeed by `Schemas`.
abbrev pub schema_of : Result Schema → Schema
schema_of (ok schema) = schema
schema_of (err e) = []

-- Every field's default is None.
abbrev pub HasNoDefaults : Schema → Type 0
HasNoDefaults schema = All (λ e. e.1.missing ≡ Arg.nothing) schema

pub record Schemas (dirs : Directories) (create start run : Schema) : Type 0 where
  pub creates : create_schema dirs ≡ ok create
  pub starts : start_schema dirs ≡ ok start
  pub runs : run_schema dirs ≡ ok run
  pub create_covered : covers create run ≡ true
  pub start_covered : covers start run ≡ true
  pub no_defaults : HasNoDefaults start

abbrev is_nothing : Arg → Bool
is_nothing Arg.nothing = true
is_nothing value = false

all-HasNoDefaults :
    (schema : Schema) → all (λ e. is_nothing e.1.missing) schema ≡ true → HasNoDefaults schema
all-HasNoDefaults [] h = tt
all-HasNoDefaults ((key, f) ∷ schema) h =
    let (here, later) =
      and_true (is_nothing f.missing) (all (λ e. is_nothing e.1.missing) schema) h in
    (none_of f.missing here, all-HasNoDefaults schema later)
  where
    none_of : (value : Arg) → is_nothing value ≡ true → value ≡ Arg.nothing
    none_of Arg.nothing h = refl
    none_of (Arg.count n) h = cc
    none_of (Arg.flag b) h = cc
    none_of (Arg.word t) h = cc
    none_of (Arg.words ts) h = cc

schemas_lem :
    (dirs : Directories)
    → Schemas dirs
        (schema_of (create_schema dirs))
        (schema_of (start_schema dirs))
        (schema_of (run_schema dirs))
unfolding create_schema start_schema run_schema covers lookup insert lit text_eq replace_char lstrip
    starts_with
schemas_lem dirs = record {
  creates = refl;
  starts = refl;
  runs = refl;
  create_covered = refl;
  start_covered = refl;
  no_defaults = all-HasNoDefaults (schema_of (start_schema dirs)) refl;
}

-- Wherever the directories are, the schemas of `create`, `start` and `run` can be made of the parsers'
-- arguments; every field of the first two is one of the third, of the same type and a list or not as there;
-- and no field of the schema of `start` has a default. A configuration that fits
-- the schema of `create` and in which no list is None is therefore always combined with one that fits the
-- schema of `start`: nothing is raised before the validation, and what is validated has fields of the
-- schema of `run` alone, and lists where that has list fields and nowhere else.
pub run_config_from_create_and_start-HasShape :
    {R : Type 0} (dirs : Directories) (load : Dict Value → Result R) (create start : Dict Value)
    → HasShape (schema_of (create_schema dirs)) create
    → IsFull (schema_of (create_schema dirs)) create
    → HasShape (schema_of (start_schema dirs)) start
    → Schemas dirs
        (schema_of (create_schema dirs))
        (schema_of (start_schema dirs))
        (schema_of (run_schema dirs))
      × (merged : Dict Value) × HasShape (schema_of (run_schema dirs)) merged
      × (run_config_from_create_and_start load create start ≡ load merged)
unfolding run_config_from_create_and_start
run_config_from_create_and_start-HasShape dirs load create start shape full given =
    let s = schemas_lem dirs in
    let c = schema_of (create_schema dirs) in
    let st = schema_of (start_schema dirs) in
    let r = schema_of (run_schema dirs) in
    let (merged, made, runs) =
      merge_fields-HasShape c st r s.create_covered s.start_covered create shape full start create
        given
        (HasShape-covers c st r s.create_covered s.start_covered create shape full create shape) in
    (s, merged, runs, rw made refl)
