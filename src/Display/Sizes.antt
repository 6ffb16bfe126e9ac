-- ===== src/Display/Sizes.antt =====
-- transient/utils.py: the unit in which `format_bytes` writes a size.
use transient.Base.{
  ℕ, zero, suc, ◌-◌, ◌^◌, ◌≤◌, ◌<◌, ◌≡◌, refl, ◌⊎◌, inl, inr, some, ◌++◌, arith, leb, Bool-cases,
  Text, lit, key_error, ok, err,
}
use transient.Display.{power, size_unit, label, format_bytes, two_decimals}

power-pos : (n : ℕ) → 0 < power n
unfolding power
power-pos zero = omega arith
power-pos (suc n) = omega (arith, power-pos n)

-- The unit fits: the size is at least one of it, unless it is bytes, and less than one of the next.
abbrev pub Fits : ℕ → ℕ → Type 0
Fits size n = (size < power (suc n)) × ((n ≡ 0) ⊎ (power n ≤ size))

size_unit-Fits :
    (fuel size n : ℕ)
    → size - power n < fuel
    → (n ≡ 0) ⊎ (power n ≤ size)
    → (unit : ℕ) × (size_unit fuel size n ≡ some unit) × Fits size unit
unfolding size_unit
size_unit-Fits zero size n enough low = absurd (omega arith)
size_unit-Fits (suc fuel) size n enough low = elim (Bool-cases (leb (power (suc n)) size)) [
  | inl e ↦
      rw e (
        size_unit-Fits fuel size (suc n) (ground (arith, e, power-pos n)) (inr (ground (arith, e))))
  | inr e ↦ rw e (n, refl, (ground (arith, e), low))
]

-- The units by name, as a table of its own.
abbrev pub unit_name : ℕ → Text
unit_name zero = lit "B"
unit_name (suc zero) = lit "KiB"
unit_name (suc (suc zero)) = lit "MiB"
unit_name (suc (suc (suc zero))) = lit "GiB"
unit_name (suc (suc (suc (suc n)))) = lit "TiB"

-- Before the fifth unit there is a label, and from there on there is none.
label-Fits :
    (size n : ℕ)
    → Fits size n
    → ((size < 1024 ^ 5) × (label n ≡ ok (unit_name n)))
      ⊎ ((1024 ^ 5 ≤ size) × (label n ≡ err key_error))
unfolding label power
label-Fits size zero f = inl (omega arith, refl)
label-Fits size (suc zero) f = inl (omega arith, refl)
label-Fits size (suc (suc zero)) f = inl (omega arith, refl)
label-Fits size (suc (suc (suc zero))) f = inl (omega arith, refl)
label-Fits size (suc (suc (suc (suc zero)))) f = inl (omega arith, refl)
label-Fits size (suc (suc (suc (suc (suc n))))) (below, inl e) = absurd (omega arith)
label-Fits size (suc (suc (suc (suc (suc n))))) (below, inr above) =
    inr (omega (arith, power-pos n), ground arith)

-- `format_bytes` returns for every size. Below 1024 ^ 5 bytes it gives the size in the largest of the units B,
-- KiB, MiB, GiB and TiB of which the size has at least one (B, if it has none), so that it has fewer than 1024 of
-- them, with the number rounded to two decimals; and it raises `KeyError` exactly from there on.
pub format_bytes-Fits :
    (size : ℕ)
    → (n : ℕ) × (size_unit (suc size) size 0 ≡ some n)
      × Fits size n
      × (((size < 1024 ^ 5)
            × (format_bytes size ≡ ok (two_decimals size (power n) ++ (lit " " ++ unit_name n))))
          ⊎ ((1024 ^ 5 ≤ size) × (format_bytes size ≡ err key_error)))
unfolding format_bytes
format_bytes-Fits size =
    let (n, found, fits) =
      size_unit-Fits (suc size) size 0 (omega (arith, power-pos 0)) (inl refl) in
    (n, found, fits, outcome n found fits)
  where
    outcome :
        (n : ℕ)
        → size_unit (suc size) size 0 ≡ some n
        → Fits size n
        → ((size < 1024 ^ 5)
            × (format_bytes size ≡ ok (two_decimals size (power n) ++ (lit " " ++ unit_name n))))
          ⊎ ((1024 ^ 5 ≤ size) × (format_bytes size ≡ err key_error))
    outcome n found fits = elim (label-Fits size n fits) [
      | inl (small, named) ↦ inl (small, rw (found, named) refl)
      | inr (large, unnamed) ↦ inr (large, rw (found, unnamed))
    ]
