-- ===== src/Store/Vm/Abstract.antt =====
-- transient/store.py: what `VmStore` promises its users, who see a finite map from names to configurations.
use transient.Base.{
  ◌≡◌, ◌≢◌, ◌⊎◌, false, Option, none, some, List, [], ◌∷◌, if◌then◌else◌, All, Text, text_eq,
  Result, ok, err,
}
use transient.Base.Utf8.{IsScalar}
use transient.Base.Dict.{lookup}
use transient.Store.Name.{storage_safe_encode}
use transient.Store.State.{CreateConfig, VmDir, Store, is_dot_name}

-- The virtual machines as their users see them: by name, the text of the configuration.
abbrev pub Vms : Type 0
Vms = Text → Option Text

abbrev pub config_of : Option VmDir → Option Text
config_of none = none
config_of (some dir) = dir.config

-- What a store looks like from outside.
abbrev pub view : Store → Vms
view s name = config_of (lookup (storage_safe_encode name) s.vms)

-- The operations that change the virtual machines.
pub data VmOp : Type 0 where
  create : CreateConfig → VmOp
  remove : Text → VmOp

abbrev pub IsVmName : Text → Type 0
IsVmName name = All IsScalar name × (is_dot_name (storage_safe_encode name) ≡ false)

abbrev pub IsVmOp : VmOp → Type 0
IsVmOp (create config) = (name : Text) → config.name ≡ some name → All IsScalar name
IsVmOp (remove name) = IsVmName name

abbrev pub SameVms : Vms → Vms → Type 0
SameVms v v' = (m : Text) → All IsScalar m → v' m ≡ v m

abbrev removed : Vms → Text → Text → Option Text
removed v name m = if text_eq m name then none else v m

module _ (dump : CreateConfig → Result Text) where
  -- A configuration is added, as it is written, under a name that was free and is the one that was asked for, if any.
  abbrev pub Adds : Vms → CreateConfig → Text → Vms → Type 0
  Adds v config name v' =
      (v name ≡ none)
      × ((config.name ≡ none) ⊎ (config.name ≡ some name))
      × (written : Text) × (dump config ≡ ok written)
      × ((m : Text) → All IsScalar m → v' m ≡ (if text_eq m name then some written else v m))

  -- Exactly the named machine is taken away, which was there.
  abbrev pub Removes : Vms → Text → Vms → Type 0
  Removes v name v' = (v name ≢ none) × ((m : Text) → All IsScalar m → v' m ≡ removed v name m)

  -- What an operation may do to the map, with its result: a creation adds the configuration under the returned
  -- name, and a removal takes away the named machine; a failure changes nothing, or does what the operation
  -- should have done.
  abbrev pub Allowed : Vms → VmOp → Result Text → Vms → Type 0
  Allowed v (create config) (ok name) v' = Adds v config name v'
  Allowed v (create config) (err e) v' = SameVms v v' ⊎ ((name : Text) × Adds v config name v')
  Allowed v (remove name) (ok gone) v' = Removes v name v'
  Allowed v (remove name) (err e) v' = SameVms v v' ⊎ Removes v name v'

  -- What a sequence of operations may do.
  pub data Runs : Vms → List VmOp → Vms → Type 0 where
    done : {v : Vms} → Runs v [] v
    after :
        {v u : Vms} {op : VmOp} {ops : List VmOp} (r : Result Text) (v' : Vms)
        → Allowed v op r v'
        → Runs v' ops u
        → Runs v (op ∷ ops) u
