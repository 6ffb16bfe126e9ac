-- ===== src/Display.antt =====
-- transient/utils.py: `format_bytes`, `prompt_yes_no`, and the directories of the user's data.
pub mod Sizes
pub mod Tests
use transient.Base.{
  ℕ, zero, suc, ◌+◌, ◌*◌, ◌/◌, ◌%◌, Bool, true, false, ◌&&◌, ◌||◌, Option, none, some, List, [],
  ◌∷◌, ◌++◌, ltb, leb, ◌==◌, if◌then◌else◌, any, Text, lit, text_eq, lower, runtime_error,
  value_error, key_error, Result, ok, err, ◌>>=◌, ◌>>◌, path_join, path_join_all,
}
use transient.Base.Decimal.{show_nat}

-- 1024 ^ n
unfoldable pub power : ℕ → ℕ
power zero = 1
power (suc n) = power n * 1024

-- The loop of `format_bytes`: the size is divided by 1024 as long as it is 1024 or more. Division of a
-- float by 1024 is exact, so the test is one on the size in bytes.
unfoldable pub size_unit : ℕ → ℕ → ℕ → Option ℕ
unfolding power
size_unit zero size n = none
size_unit (suc fuel) size n =
    let smaller = size_unit fuel size (suc n) in
    if leb (power (suc n)) size then smaller else some n

-- `labels[n]`
unfoldable pub label : ℕ → Result Text
label n =
    if n == 0
    then ok (lit "B")
    else if n == 1
    then ok (lit "KiB")
    else if n == 2
    then ok (lit "MiB")
    else if n == 3
    then ok (lit "GiB")
    else if n == 4
    then ok (lit "TiB")
    else err key_error

-- `{:.2f}` of `size / p`, rounded to even in the middle
unfoldable pub two_decimals : ℕ → ℕ → Text
unfolding show_nat
two_decimals size p =
    let down = size * 100 / p in
    let rest = 2 * (size * 100 % p) in
    let hundredths = if ltb p rest || (rest == p && down % 2 == 1) then down + 1 else down in
    let fraction = hundredths % 100 in
    show_nat (hundredths / 100)
    ++ (lit "." ++ ((if ltb fraction 10 then lit "0" else []) ++ show_nat fraction))

abbrev with_unit : ℕ → Option ℕ → Result Text
with_unit size none = err (runtime_error [])
with_unit size (some n) = do unit ← label n; ok (two_decimals size (power n) ++ (lit " " ++ unit))

-- `format_bytes`; one more than the size is fuel enough.
unfoldable pub format_bytes : ℕ → Result Text
unfolding size_unit label two_decimals power
format_bytes size = with_unit size (size_unit (suc size) size 0)

-- `distutils.util.strtobool`
unfoldable pub strtobool : Text → Result Bool
strtobool text =
    let value = lower text in
    if any (text_eq value) (lit "y" ∷ lit "yes" ∷ lit "t" ∷ lit "true" ∷ lit "on" ∷ lit "1" ∷ [])
    then ok true
    else if any (text_eq value)
        (lit "n" ∷ lit "no" ∷ lit "f" ∷ lit "false" ∷ lit "off" ∷ lit "0" ∷ [])
    then ok false
    else err value_error

-- `prompt_yes_no`, on the lines that are put in; none if it still waits for one.
unfoldable pub prompt_yes_no : Option Bool → List Text → Option Bool
unfolding strtobool
prompt_yes_no default [] = none
prompt_yes_no (some answer) ([] ∷ lines) = some answer
prompt_yes_no default (response ∷ lines) = elim (strtobool response) [
  | ok answer ↦ some answer
  | err e ↦ prompt_yes_no default lines
]

-- `xdg_data_home`: the two variables, and the directory for temporary files.
unfoldable pub xdg_data_home : Option Text → Option Text → Text → Text
unfolding path_join_all lit
xdg_data_home xdg home fallback = elim xdg [
  | some path ↦ path
  | none ↦ elim home [
    | some path ↦ path_join_all path (lit ".local" ∷ lit "share" ∷ [])
    | none ↦ fallback
  ]
]

-- `transient_data_home`, in the data directory
unfoldable pub transient_data_home : Text → Text
unfolding path_join lit
transient_data_home data_home = path_join data_home (lit "transient")

-- `default_backend_dir` and `default_vmstore_dir`, with the variable that replaces each
unfoldable pub default_backend_dir : Option Text → Text → Text
unfolding path_join lit
default_backend_dir env_specified home = elim env_specified [
  | some path ↦ path
  | none ↦ path_join home (lit "backend")
]

unfoldable pub default_vmstore_dir : Option Text → Text → Text
unfolding path_join lit
default_vmstore_dir env_specified home = elim env_specified [
  | some path ↦ path
  | none ↦ path_join home (lit "vmstore")
]
