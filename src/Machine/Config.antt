-- ===== src/Machine/Config.antt =====
-- transient/transient.py: what a `TransientVm` is made of.
use transient.Base.{ℕ, Bool, true, false, ◌&&◌, Option, none, some, List, [], is_empty, Text}
use transient.Configuration.{Needs}

-- The fields of `configuration.RunConfig` that a run reads; `needs` has those that decide what it needs.
pub record RunConfig : Type 0 where
  pub needs : Needs
  pub image : Text
  pub extra_image : List Text
  pub no_virtio_scsi : Bool
  pub ssh_port : Option ℕ
  pub ssh_net_driver : Text
  pub ssh_timeout : ℕ
  pub qmp_timeout : ℕ
  pub shutdown_timeout : ℕ
  pub qemu_args : List Text
  pub qemu_bin_name : Option Text

-- A `BaseImageInfo`: a frontend image has the identifier of its backend, if that is there.
pub data ImageInfo : Type 0 where
  backend_image : Text → ImageInfo
  frontend_image : Text → Option Text → ImageInfo

abbrev pub image_path : ImageInfo → Text
image_path (backend_image path) = path
image_path (frontend_image path backend) = path

-- What is locked for a run: `VmPersistentState`.
pub record LockedState : Type 0 where
  pub name : Text
  pub images : List ImageInfo
  pub primary_image : ImageInfo

-- `TransientVmState`
pub data TransientVmState : Type 0 where
  waiting running finished : TransientVmState

-- The attributes of `TransientVm` that change during a run.
pub record TransientVm : Type 0 where
  pub config : RunConfig
  pub name : Text
  pub vm_images : List ImageInfo
  pub primary_image : Option ImageInfo
  pub vmstate : Option LockedState
  pub qemu_should_die : Bool
  pub set_ssh_port : Option ℕ
  pub state : TransientVmState

-- `TransientVm.__init__`; the name is set by `run`.
abbrev pub transient_vm : RunConfig → TransientVm
transient_vm config = record {
  config = config;
  name = [];
  vm_images = [];
  primary_image = none;
  vmstate = none;
  qemu_should_die = false;
  set_ssh_port = none;
  state = waiting;
}

-- `__is_stateless`
unfoldable pub is_stateless : RunConfig → Bool
is_stateless config =
    is_empty config.needs.copy_out_after
    && (is_empty config.needs.copy_in_before
        && elim config.needs.name [ none ↦ true | some n ↦ false ])
