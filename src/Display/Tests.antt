-- ===== src/Display/Tests.antt =====
-- transient/utils.py: sizes, prompts and directories on concrete values.
use transient.Base.{
  ℕ, ◌^◌, ◌≤◌, ◌<◌, ◌≡◌, refl, ◌⊎◌, true, false, none, some, [], ◌∷◌, ◌++◌, lit, text_eq, lower,
  key_error, ok, err, map_result, path_join, path_join_all,
}
use transient.Base.Decimal.{show_nat}
use transient.Display.Sizes.{unit_name, Fits, format_bytes-Fits}
use transient.Display.{
  format_bytes, size_unit, two_decimals, label, power, prompt_yes_no, strtobool, xdg_data_home,
  default_backend_dir, transient_data_home,
}

formatted :
    map_result format_bytes (0 ∷ 1023 ∷ 1536 ∷ 1073741824 ∷ [])
    ≡ ok (lit "0.00 B" ∷ lit "1023.00 B" ∷ lit "1.50 KiB" ∷ lit "1.00 GiB" ∷ [])
unfolding format_bytes size_unit two_decimals label power show_nat lit
formatted = refl

answered : prompt_yes_no (some true) (lit "maybe" ∷ lit "NO" ∷ []) ≡ some false
unfolding prompt_yes_no strtobool lower lit text_eq
answered = refl

by_default : prompt_yes_no (some true) ([] ∷ []) ≡ some true
unfolding prompt_yes_no
by_default = refl

backend_dir :
    default_backend_dir none
      (transient_data_home (xdg_data_home none (some (lit "/root")) (lit "/tmp")))
    ≡ lit "/root/.local/share/transient/backend"
unfolding default_backend_dir transient_data_home xdg_data_home path_join path_join_all lit
backend_dir = refl

format_bytes-Fits_example :
    (n : ℕ) × (size_unit 1126 1125 0 ≡ some n)
    × Fits 1125 n
    × (((1125 < 1024 ^ 5)
          × (format_bytes 1125 ≡ ok (two_decimals 1125 (power n) ++ (lit " " ++ unit_name n))))
        ⊎ ((1024 ^ 5 ≤ 1125) × (format_bytes 1125 ≡ err key_error)))
format_bytes-Fits_example = format_bytes-Fits 1125
