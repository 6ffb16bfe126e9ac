-- ===== src/Store/Frontend/RoundTrip.antt =====
-- transient/store.py: what is written in a frontend image's file name is read back.
use transient.Base.{
  ℕ, ◌≡◌, refl, sym, ap, ◌∙◌, ◌≢◌, inl, inr, true, false, [], ◌∷◌, ◌++◌, arith, Bool-cases,
  is_empty, All, Text, has_char, has_char-append, split_of_no_char, split-append, split, ok,
}
use transient.Base.Utf8.{IsScalar}
use transient.Base.Decimal.{show_nat, read_nat-show_nat, show_nat_no_char}
use transient.Store.Name.{storage_safe_encode, storage_safe_decode}
use transient.Store.Name.Safe.{storage_safe_encode-IsSafe, IsSafe-no_char}
use transient.Store.Name.RoundTrip.{storage_safe_decode-storage_safe_encode}
use transient.Store.Frontend.{
  frontend_name, number_of, name_of_parts, parse_frontend_name, is_backend_image_name,
}

no_dash : (name : Text) → All IsScalar name → has_char b'-' (storage_safe_encode name) ≡ false
no_dash name h =
    IsSafe-no_char b'-' (storage_safe_encode name) refl (storage_safe_encode-IsSafe name h)

number_no_dash : (n : ℕ) → has_char b'-' (show_nat n) ≡ false
number_no_dash n = show_nat_no_char b'-' n refl

-- The parts of a frontend image's file name.
name_parts :
    (vm_name : Text) (num : ℕ) (identifier : Text)
    → All IsScalar vm_name
    → All IsScalar identifier
    → split b'-' (frontend_name vm_name num identifier)
      ≡ storage_safe_encode vm_name ∷ show_nat num ∷ storage_safe_encode identifier ∷ []
unfolding frontend_name
name_parts vm_name num identifier hv hi =
    split-append b'-' (storage_safe_encode vm_name) _ (no_dash vm_name hv)
    ∙ ap (λ l. storage_safe_encode vm_name ∷ l)
        (split-append b'-' (show_nat num) _ (number_no_dash num)
          ∙ ap (λ l. show_nat num ∷ l)
              (split_of_no_char b'-' (storage_safe_encode identifier) (no_dash identifier hi)))

-- The virtual machine, the number of the disk and the backend image of a frontend image are read back
-- from its file name, if the two names hold no surrogates.
pub parse_frontend_name-frontend_name :
    (vm_name : Text) (num : ℕ) (identifier : Text)
    → All IsScalar vm_name
    → All IsScalar identifier
    → parse_frontend_name (frontend_name vm_name num identifier)
      ≡ ok (record { vm_name = vm_name; disk_number = num; backend_image_name = identifier })
unfolding parse_frontend_name
parse_frontend_name-frontend_name vm_name num identifier hv hi = rw (
  name_parts vm_name num identifier hv hi,
  read_nat-show_nat num,
  storage_safe_decode-storage_safe_encode vm_name hv,
  storage_safe_decode-storage_safe_encode identifier hi,
  parse_frontend_name,
  name_of_parts,
  number_of,
)

not_empty :
    (name : Text) → All IsScalar name → name ≢ [] → is_empty (storage_safe_encode name) ≡ false
not_empty name h n = elim (Bool-cases (is_empty (storage_safe_encode name))) [
  | inr e ↦ e
  | inl e ↦ absurd (
      n (
        sym (storage_safe_decode-storage_safe_encode name h)
        ∙ ap storage_safe_decode (nil_of_empty (storage_safe_encode name) e)
        ∙ (unfold storage_safe_decode in refl)))
]
  where
    nil_of_empty : (s : Text) → is_empty s ≡ true → s ≡ []
    nil_of_empty [] e = refl
    nil_of_empty (c ∷ s) e = cc

-- Among the files of a directory, the backend images that the store writes are recognised, and the
-- frontend images are not: a stored name that is not empty matches `_BACKEND_IMAGE_REGEX`, and no file
-- name of a frontend image does.
pub is_backend_image_name_exact :
    (vm_name : Text) (num : ℕ) (identifier : Text)
    → All IsScalar identifier
    → identifier ≢ []
    → (is_backend_image_name (storage_safe_encode identifier) ≡ true)
      × (is_backend_image_name (frontend_name vm_name num identifier) ≡ false)
unfolding is_backend_image_name frontend_name
is_backend_image_name_exact vm_name num identifier h n = (
  rw (not_empty identifier h n, no_dash identifier h),
  ground (
    arith,
    has_char-append b'-' (storage_safe_encode vm_name)
        (b'-' ∷ (show_nat num ++ (b'-' ∷ storage_safe_encode identifier))),
  ),
)
