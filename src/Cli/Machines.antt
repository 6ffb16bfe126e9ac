-- ===== src/Cli/Machines.antt =====
-- transient/cli.py: the commands that make, start, run, commit and build, and the copying of cp. Each is the
-- composition of the components; the validation by marshmallow (`load`) is a parameter.
pub mod Started
pub mod Tests
use transient.Base.{
  ℕ, Option, List, [], ◌∷◌, ◌++◌, map, leb, ◌==◌, if◌then◌else◌, Text, lit, Result, ok, err,
}
use transient.Base.Dict.{Dict}
use transient.Base.Io.{World, lift, ◌>>=◌}
use transient.Configuration.{Value, create_transient_config, run_config_from_create_and_start}
use transient.Store.State.{Store, Tools, CreateConfig}
use transient.Store.Backend.{BackendInfo, commit_vmstate}
use transient.Store.Vm.{FrontendInfo, create_vmstate, lock_vmstate_by_name}
use transient.Build.Instruction.{Ast}
use transient.Build.Builder.{BuildConfig, ImageDirs, Build, new_builder, build}
use transient.Build.Builder
use transient.Machine.Config.{RunConfig}
use transient.Machine.Run.{VmWorld, Run, run}
use transient.Cli.{CopyStep, copy_plan, steps_of}

-- What a command reads of its arguments: the configuration file, if one is given, all fields of the command
-- line, and those that the user has supplied.
pub record CommandArgs : Type 0 where
  pub file : Option (Result (Dict Value))
  pub all_args : Dict Value
  pub supplied : Dict Value

unfoldable pub config_of {ℓ} : {R : Type ℓ} → (Dict Value → Result R) → CommandArgs → Result R
config_of load args = create_transient_config load args.file args.all_args args.supplied

-- `set_log_level`
pub data LogLevel : Type 0 where
  warning info debug : LogLevel

unfoldable pub log_level : ℕ → LogLevel
log_level verbose = if verbose == 1 then info else if leb 2 verbose then debug else warning

module _ (tools : Tools) where
  abbrev announced : Result Text × Store → Result Text × Store
  announced (err e, s) = (err e, s)
  announced (ok name, s) = (ok (lit "Created VM '" ++ (name ++ lit "'")), s)

  -- `create_impl`; the result is what it prints.
  unfoldable pub create_impl :
      (Dict Value → Result CreateConfig) → CommandArgs → Store → Result Text × Store
  create_impl load args s = elim (config_of load args) [
    | err e ↦ (err e, s)
    | ok config ↦ announced (create_vmstate tools config s)
  ]

  -- `commit_impl`
  unfoldable pub commit_impl : Text → Text → Store → Result BackendInfo × Store
  commit_impl vm name s = elim (lock_vmstate_by_name tools vm s) [
    | err e ↦ (err e, s)
    | ok state ↦ commit_vmstate tools (map (λ (i : FrontendInfo). i.content) state.images) name s
  ]

  -- `start_impl` up to the run: the configuration that the machine is run with. The configuration of the
  -- command is its fields.
  unfoldable pub start_config {ℓ} :
      {R : Type ℓ}
      → (Dict Value → Result (Text × Dict Value))
      → (Dict Value → Result R)
      → CommandArgs
      → Store
      → Result R
  start_config load_start load_run args s = elim (config_of load_start args) [
    | err e ↦ err e
    | ok (name, start) ↦ elim (lock_vmstate_by_name tools name s) [
      | err e ↦ err e
      | ok state ↦ run_config_from_create_and_start load_run state.config.fields start
    ]
  ]

  -- `start_impl`
  unfoldable pub start_impl :
      VmWorld
      → (Dict Value → Result (Text × Dict Value))
      → (Dict Value → Result RunConfig)
      → CommandArgs
      → Store
      → Run (Unit {0})
  start_impl w load_start load_run args s = do
    run_config ← lift (start_config load_start load_run args s)
    run w run_config

  -- The loop of `cp_impl` over the machines. `copy` is what the editor of a machine's primary image does with
  -- the paths; the result has the machines whose editor was started, in order.
  unfoldable pub copy_each :
      (FrontendInfo → List CopyStep → Result (Unit {0}))
      → (Text → List Text → List CopyStep)
      → Dict (List Text)
      → Store
      → Result (Unit {0}) × List Text
  copy_each copy steps [] s = (ok tt, [])
  copy_each copy steps ((vm_name, cfg) ∷ rest) s =
      let (later, others) = copy_each copy steps rest s in
      elim (lock_vmstate_by_name tools vm_name s) [
        | err e ↦ (err e, [])
        | ok state ↦ elim (copy state.primary_image (steps vm_name cfg)) [
          | err e ↦ (err e, vm_name ∷ [])
          | ok u ↦ (later, vm_name ∷ others)
        ]
      ]

  -- `cp_impl`
  unfoldable pub cp_impl :
      (FrontendInfo → List CopyStep → Result (Unit {0}))
      → List Text
      → Store
      → Result (Unit {0}) × List Text
  unfolding copy_each copy_plan
  cp_impl copy paths s = elim (copy_plan paths) [
    | err e ↦ (err e, [])
    | ok plan ↦ copy_each copy (steps_of plan) plan.copy_config s
  ]

-- `run_impl`
unfoldable pub run_impl : VmWorld → (Dict Value → Result RunConfig) → CommandArgs → Run (Unit {0})
run_impl w load args = do config ← lift (config_of load args); run w config

-- `image_build_impl`
unfoldable pub image_build_impl :
    World Builder.Action Text
    → (Text → Result (List Ast))
    → (Dict Value → Result BuildConfig)
    → CommandArgs
    → ImageDirs
    → Build Text
image_build_impl w parse load args dirs = do
  config ← lift (load args.all_args)
  builder ← new_builder w parse config dirs
  build w builder
