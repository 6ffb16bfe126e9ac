-- ===== src/Store/State.antt =====
-- transient/store.py: the directories that the two stores keep, and the programs that they call.
use transient.Base.{Exn, ℕ, Bool, ◌||◌, Option, List, is_empty, Text, lit, text_eq, Result}
use transient.Base.Dict.{Dict}
use transient.Configuration.{Value}
use transient.Store.Spec.{Protocol}

abbrev pub Bytes : Type 0
Bytes = List ℕ

pub record Image : Type 0 where
  pub content : Bytes
  pub read_only : Bool

-- A frontend image: the file name of its backing image in the backend, and its own content.
pub record Overlay : Type 0 where
  pub backing : Text
  pub content : Bytes

-- `configuration.CreateConfig`: what the stores read of it, and all its fields, which they keep.
pub record CreateConfig : Type 0 where
  pub name : Option Text
  pub image : Text
  pub extra_image : List Text
  pub fields : Dict Value

-- A directory of the VM store: the text of the file "config", if it is there, and the other files.
pub record VmDir : Type 0 where
  pub config : Option Text
  pub files : Dict Overlay

-- The files of the backend, those of its ".working" directory, and the directories of the VM store,
-- by file name. `locked` names the directories whose configuration another process holds locked.
pub record Store : Type 0 where
  pub images : Dict Image
  pub working : Dict Bytes
  pub vms : Dict VmDir
  pub locked : List Text

-- What is not the program's: the bytes that a protocol writes, with the exception that stops it, if
-- any (`_do_retrieve_image`), what of the bytes of that file, which is still open and not flushed, is on the disk
-- when `qemu-img` reads it, what `qemu-img` makes of them or reports, and what other processes do
-- to the stores while this one waits for a lock; the text of a configuration that `toml.dumps` and the writing
-- of the file give, and what `load_create_config` makes of such a text; the order in which `os.listdir` gives the
-- files of a directory; what `os.rename` of a new directory raises, if it does, and what remaking the temporary
-- directory, and removing it again, raises behind that; and what `shutil.rmtree` leaves of a directory if it fails.
pub record Tools : Type 0 where
  pub fetch : Protocol → Text → Bytes × Option Exn
  pub on_disk : Bytes → Bytes
  pub convert : Bytes → Result Bytes
  pub readable : Bytes → Bool
  pub create_overlay : Text → Result Bytes
  pub fresh_name : Store → Text
  pub meanwhile : Store → Store
  pub dump_config : CreateConfig → Result Text
  pub load_config : Text → Result CreateConfig
  pub list_dir : Dict Overlay → Dict Overlay
  pub rename_dir : Store → Option Exn
  pub leave_tempdir : Store → Option Exn
  pub rmtree : VmDir → Option (VmDir × Exn)

-- The names that are directories wherever they are looked up: the directory itself, and its parent.
unfoldable pub is_dot_name : Text → Bool
unfolding text_eq lit
is_dot_name name = is_empty name || (text_eq name (lit ".") || text_eq name (lit ".."))
