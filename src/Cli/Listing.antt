-- ===== src/Cli/Listing.antt =====
-- transient/cli.py: the tables that `ps_impl` and `image_ls_impl` print. What beautifultable makes of a
-- table is a parameter of the program and not read here.
pub mod Rows
pub mod Tests
use transient.Base.{
  ℕ, Bool, true, false, not, Option, none, some, List, [], ◌∷◌, ◌++◌, map, if◌then◌else◌, all, Text,
  lit, attribute_error, Result, ok, err, ◌>>=◌, ◌>>◌, map_result,
}
use transient.Base.Dict.{lookup}
use transient.Configuration.{Needs, config_requires_ssh}
use transient.Display.{format_bytes}
use transient.Scan.{Json, text, TransientInstance, Criteria}
use transient.Scan.Search.{Clock, Found, find_transient_instances}
use transient.Store.State.{Store, Tools, CreateConfig}
use transient.Store.Backend.{BackendInfo, backend_image_list}
use transient.Store.Vm.{VmState}
use transient.Store.Vm.Listing.{vmstates}
use transient.Cli.Ssh.{is_null}

-- The arguments of `ps` that it reads
pub record PsArgs : Type 0 where
  pub pid : Bool
  pub ssh : Bool
  pub all : Bool
  pub vmstore : Text

-- The cells of a row; what `str` makes of an attribute is text already.
abbrev pub Row : Type 0
Row = List Json

pub record Table : Type 0 where
  pub headers : List Text
  pub rows : List Row

abbrev optional_cell {ℓ} : {A : Type ℓ} → Bool → A → List A
optional_cell true cell = cell ∷ []
optional_cell false cell = []

unfoldable pub ps_headers : PsArgs → List Text
unfolding lit
ps_headers args =
    lit "NAME"
    ∷ lit "IMAGE"
    ∷ lit "STATUS"
    ∷ (optional_cell args.pid (lit "PID") ++ optional_cell args.ssh (lit "SSH"))

-- An attribute that only the data of the process give the object.
abbrev attribute_of : Option Json → Result Json
attribute_of none = err attribute_error
attribute_of (some j) = ok j

unfoldable pub attribute : Text → TransientInstance → Result Json
unfolding lookup
attribute name i = attribute_of (lookup name i.config)

-- `str` of a Boolean
abbrev pub str_bool : Bool → Text
str_bool true = lit "True"
str_bool false = lit "False"

-- `strftime` is the format of a time; `str` that of a value.
module _ (strftime : ℕ → Text) (str : Json → Text) where
  abbrev pid_cells : Bool → TransientInstance → Result (List Json)
  pid_cells false i = ok []
  pid_cells true i = do j ← attribute (lit "transient_pid") i; ok (text (str j) ∷ [])

  -- The row of a running instance
  unfoldable pub started_row : PsArgs → TransientInstance → Result Row
  unfolding attribute
  started_row args i = do
    primary_image ← attribute (lit "primary_image") i
    pid ← pid_cells args.pid i
    ok (
        i.name
        ∷ primary_image
        ∷ text (lit "Started " ++ strftime i.start_time)
        ∷ (pid ++ optional_cell args.ssh (text (str_bool (not (is_null i.ssh_port))))))

-- The row of a machine that could be locked. `needs` gives the fields of a configuration that the stores
-- do not read.
unfoldable pub offline_row : (CreateConfig → Needs) → PsArgs → VmState → Row
unfolding config_requires_ssh
offline_row needs args vm =
    text vm.name
    ∷ text vm.primary_image.backend_image_name
    ∷ text (lit "Offline")
    ∷ (optional_cell args.pid (text [])
        ++ optional_cell args.ssh (text (str_bool (config_requires_ssh (needs vm.config)))))

abbrev ps_criteria : PsArgs → Criteria
ps_criteria args = record { name = none; with_ssh = false; vmstore = some args.vmstore }

module _ (realpath : Text → Text) (strftime : ℕ → Text) (str : Json → Text)
    (needs : CreateConfig → Needs) (tools : Tools) where
  abbrev offline_rows : PsArgs → Store → List Row
  offline_rows args s = if args.all then map (offline_row needs args) (vmstates tools s) else []

  abbrev with_instances : PsArgs → Store → Option Found → Option (Result Table)
  with_instances args s none = none
  with_instances args s (some (err e)) = some (err e)
  with_instances args s (some (ok instances)) = some (do
    rows ← map_result (started_row strftime str args) instances
    ok (record { headers = ps_headers args; rows = rows ++ offline_rows args s }))

  -- `ps_impl`, up to the print of the table. The search has no timeout, so that one pass, and one unit of fuel,
  -- is enough.
  unfoldable pub ps_impl : Clock → PsArgs → Store → Option (Result Table)
  unfolding find_transient_instances
  ps_impl clock args s =
      with_instances args s (find_transient_instances realpath 1 clock (ps_criteria args) none)

-- The sizes that `qemu-img` reports of an image
pub record Sizes : Type 0 where
  pub virtual_size : ℕ
  pub actual_size : ℕ

-- The rows of `image_ls_impl`
unfoldable pub image_ls_impl : Tools → (BackendInfo → Sizes) → Store → Result (List (List Text))
unfolding format_bytes
image_ls_impl tools sizes s = do
  images ← backend_image_list tools none s
  map_result
      (λ (image : BackendInfo). do
        virtual_size ← format_bytes (sizes image).virtual_size
        actual_size ← format_bytes (sizes image).actual_size
        ok (image.identifier ∷ virtual_size ∷ actual_size ∷ []))
      images
