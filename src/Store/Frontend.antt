-- ===== src/Store/Frontend.antt =====
-- transient/store.py: the file names of frontend images, as `VmStore.__create_vm_image` writes and
-- `FrontendImageInfo` reads them, and `_BACKEND_IMAGE_REGEX`.
pub mod RoundTrip
use transient.Base.{
  ◌>>=◌, ℕ, Bool, not, ◌&&◌, none, some, List, [], ◌∷◌, ◌++◌, is_empty, Text, has_char, split,
  value_error, Result, ok, err,
}
use transient.Base.Decimal.{show_nat, read_nat}
use transient.Store.Name.{storage_safe_encode, storage_safe_decode}

-- `f"{safe_vmname}-{num}-{safe_image_identifier}"`
unfoldable pub frontend_name : Text → ℕ → Text → Text
unfolding storage_safe_encode show_nat
frontend_name vm_name num identifier =
    storage_safe_encode vm_name
    ++ (b'-' ∷ (show_nat num ++ (b'-' ∷ storage_safe_encode identifier)))

pub record FrontendName : Type 0 where
  pub vm_name : Text
  pub disk_number : ℕ
  pub backend_image_name : Text

-- `int(number)`; on a text that is not made of digits it raises. (The signs, spaces and underscores
-- that `int` accepts never stand in a name that the store wrote.)
number_of : Text → Result ℕ
unfolding read_nat
number_of s = elim (read_nat s) [ none ↦ err value_error | some n ↦ ok n ]

name_of_parts : List Text → Result FrontendName
unfolding number_of storage_safe_decode
name_of_parts (vm_name ∷ number ∷ image ∷ []) = do
  n ← number_of number
  ok (record {
    vm_name = storage_safe_decode vm_name;
    disk_number = n;
    backend_image_name = storage_safe_decode image;
  })
name_of_parts _ = err value_error

-- `FrontendImageInfo.__init__`, as far as the file name goes
unfoldable pub parse_frontend_name : Text → Result FrontendName
unfolding name_of_parts split
parse_frontend_name filename = name_of_parts (split b'-' filename)

-- `_BACKEND_IMAGE_REGEX.match(candidate)`: `^[^\-]+$`
unfoldable pub is_backend_image_name : Text → Bool
unfolding has_char
is_backend_image_name candidate = not (is_empty candidate) && not (has_char b'-' candidate)
