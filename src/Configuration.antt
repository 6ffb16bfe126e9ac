-- ===== src/Configuration.antt =====
-- transient/configuration.py: the combination of configurations, and what a configuration needs.
pub mod Merge
pub mod Load
pub mod Supply
pub mod Schema
pub mod Shape
pub mod RunShape
pub mod Tests
use transient.Base.{
  ◌>>=◌, Bool, true, false, not, ◌||◌, Option, none, some, List, [], ◌∷◌, ◌++◌, map, is_empty, Text,
  lit, type_error, key_error, Result, ok, err,
}
use transient.Base.Dict.{Dict, lookup, insert}

-- A value that is neither None nor a list: a text, or a number or a Boolean, which is given as it is printed.
pub data Atom : Type 0 where
  string other : Text → Atom

-- A value of a field, as far as the combination tells them apart: None, a list, or anything else.
pub data Value : Type 0 where
  nothing : Value
  items : List Text → Value
  single : Atom → Value

-- `create[key] + value`, where `value` is a list; only a list can be in front of it.
unfoldable pub add_items : Value → List Text → Result Value
add_items (items xs) ys = ok (items (xs ++ ys))
add_items nothing ys = err type_error
add_items (single x) ys = err type_error

-- The body of the loop over `start.items()`; `old` is `create.get(key)`, `config` is `new_config`.
unfoldable pub merge_field : Option Value → Text → Value → Dict Value → Result (Dict Value)
unfolding add_items
merge_field (some old) key (items ys) config = do
  value ← add_items old ys
  ok (insert key value config)
merge_field none key (items ys) config = ok (insert key (items ys) config)
merge_field old key nothing config = ok config
merge_field old key (single x) config = ok (insert key (single x) config)

-- The loop over `start.items()`.
unfoldable pub merge_fields : Dict Value → Dict Value → Dict Value → Result (Dict Value)
merge_fields create [] config = ok config
merge_fields create ((key, value) ∷ start) config = do
  config' ← merge_field (lookup key create) key value config
  merge_fields create start config'

-- `run_config_from_create_and_start`; `load` is the validation by `RunSchema`.
unfoldable pub run_config_from_create_and_start {ℓ} :
    {R : Type ℓ} → (Dict Value → Result R) → Dict Value → Dict Value → Result R
run_config_from_create_and_start load create start = do
  config ← merge_fields create start create
  load config

-- `create_config_from_run`; `load` is the validation by `CreateSchema`.
unfoldable pub create_config_from_run {ℓ} :
    {R : Type ℓ} → (Dict Value → Result R) → Dict Value → Option Text → Result R
create_config_from_run load run none = load run
create_config_from_run load run (some name) = load (insert (lit "name") (single (string name)) run)

-- What a list is extended by: a text by its characters, and a number or a Boolean raises `TypeError`.
abbrev pub elements : Atom → Result (List Text)
elements (string x) = ok (map (λ c. c ∷ []) x)
elements (other x) = err type_error

-- One field of `__create_transient_config`: a field that the user supplied extends a list of the
-- configuration file, and replaces anything else.
unfoldable pub supply_field : Text → Value → Dict Value → Result (Dict Value)
supply_field field nothing config = ok config
supply_field field (items ys) config = elim (lookup field config) [
  | none ↦ err key_error
  | some (items xs) ↦ ok (insert field (items (xs ++ ys)) config)
  | some nothing ↦ ok (insert field (items ys) config)
  | some (single x) ↦ ok (insert field (items ys) config)
]
supply_field field (single x) config = elim (lookup field config) [
  | none ↦ err key_error
  | some (items xs) ↦ (do ys ← elements x; ok (insert field (items (xs ++ ys)) config))
  | some nothing ↦ ok (insert field (single x) config)
  | some (single y) ↦ ok (insert field (single x) config)
]

-- The loop over `cli_args.user_supplied_fields()`.
unfoldable pub supply_fields : Dict Value → Dict Value → Result (Dict Value)
supply_fields [] config = ok config
supply_fields ((field, value) ∷ supplied) config = do
  config' ← supply_field field value config
  supply_fields supplied config'

-- `__create_transient_config`: `file` is the loaded configuration file, if one is given, and `load` the
-- validation by the schema.
unfoldable pub create_transient_config {ℓ} :
    {R : Type ℓ}
    → (Dict Value → Result R)
    → Option (Result (Dict Value))
    → Dict Value
    → Dict Value
    → Result R
create_transient_config load none all_args supplied = load all_args
create_transient_config load (some (err e)) all_args supplied = err e
create_transient_config load (some (ok file)) all_args supplied = do
  config ← supply_fields supplied file
  load (insert (lit "config") nothing config)

-- The fields that decide what a run needs.
pub record Needs : Type 0 where
  pub name : Option Text
  pub copy_in_before : List Text
  pub copy_out_after : List Text
  pub shared_folder : List Text
  pub ssh_console : Bool
  pub ssh_command : Option Text
  pub ssh_with_serial : Bool

unfoldable pub config_requires_state : Needs → Bool
config_requires_state c =
    not (is_empty c.copy_in_before)
    || (not (is_empty c.copy_out_after) || elim c.name [ none ↦ false | some n ↦ true ])

unfoldable pub config_requires_ssh_console : Needs → Bool
config_requires_ssh_console c =
    c.ssh_console || (elim c.ssh_command [ none ↦ false | some n ↦ true ] || c.ssh_with_serial)

unfoldable pub config_requires_ssh : Needs → Bool
config_requires_ssh c = config_requires_ssh_console c || not (is_empty c.shared_folder)
