-- ===== src/Base/Decimal.antt =====
-- `str(n)` and `int(s)` on decimal digits.
use Prim.Native.Nat.{◌+◌, ◌-◌, ◌*◌, ◌/◌, ◌%◌}
use transient.Base.Tests.{ltb, between, if◌then◌else◌, Bool-cases}
use transient.Base.Strings.{Text, has_char}
use mathlib.Core.Path.{◌≡◌, refl, ap, ◌∙◌}
use mathlib.Core.Logic.{◌≢◌, inl, inr}
use mathlib.Core.Bool.{true, false}
use mathlib.Core.Option.{Option, none, some}
use mathlib.Core.List.{[], ◌∷◌}
use Prim.Native.Nat.{ℕ, zero, suc, ◌<◌}
use native.Mathlib.Omega.{arith}

-- The digits of `n` in front of `out`; `n` itself is fuel enough.
digits : ℕ → ℕ → Text → Text
digits zero n out = out
digits (suc f) n out =
    let out' : Text = (b'0' + n % 10) ∷ out in
    elim (ltb n 10) [ true ↦ out' | false ↦ digits f (n / 10) out' ]

unfoldable pub show_nat : ℕ → Text
unfolding digits
show_nat n = digits (suc n) n []

-- Reads digits to the end of the text.
read_digits : ℕ → Text → Option ℕ
read_digits n [] = some n
read_digits n (c ∷ s) =
    let rest = read_digits (n * 10 + (c - b'0')) s in if between b'0' b'9' c then rest else none

unfoldable pub read_nat : Text → Option ℕ
unfolding read_digits
read_nat [] = none
read_nat (c ∷ s) = read_digits 0 (c ∷ s)

between_digit : (d : ℕ) → d < 10 → between b'0' b'9' (b'0' + d) ≡ true
between_digit d h = ground arith

read_digits-step :
    (k d : ℕ) (out : Text)
    → d < 10
    → read_digits k ((b'0' + d) ∷ out) ≡ read_digits (k * 10 + d) out
unfolding read_digits
read_digits-step k d out h =
    rw (between_digit d h) (ap (λ m. read_digits (k * 10 + m) out) (omega arith))

read_digits-digits :
    (f n : ℕ) (out : Text) → n < f → read_digits 0 (digits f n out) ≡ read_digits n out
unfolding digits
read_digits-digits zero n out h = absurd (omega arith)
read_digits-digits (suc f) n out h = elim (Bool-cases (ltb n 10)) [
  | inl small ↦
      rw (small, digits)
        (read_digits-step 0 (n % 10) out (omega arith) ∙ ap (λ m. read_digits m out) (ground arith))
  | inr large ↦
      rw (large, digits)
        (read_digits-digits f (n / 10) _ (ground arith)
          ∙ read_digits-step (n / 10) (n % 10) out (omega arith)
          ∙ ap (λ m. read_digits m out) (omega arith))
]

-- The text of a number is never empty.
digits_ne_nil : (f n : ℕ) (c : ℕ) (out : Text) → digits f n (c ∷ out) ≢ []
unfolding digits
digits_ne_nil zero n c out h = cc
digits_ne_nil (suc f) n c out h = ground (arith, digits_ne_nil f (n / 10) (b'0' + n % 10) (c ∷ out))

show_nat_ne_nil : (n : ℕ) → show_nat n ≢ []
unfolding show_nat digits
show_nat_ne_nil n h = ground (arith, digits_ne_nil n (n / 10) (b'0' + n % 10) [])

read_nat_of_ne_nil : (s : Text) → s ≢ [] → read_nat s ≡ read_digits 0 s
unfolding read_nat
read_nat_of_ne_nil [] h = absurd (h refl)
read_nat_of_ne_nil (c ∷ s) h = refl

-- What is printed is read back.
pub read_nat-show_nat : (n : ℕ) → read_nat (show_nat n) ≡ some n
unfolding show_nat read_digits
read_nat-show_nat n =
    read_nat_of_ne_nil (show_nat n) (show_nat_ne_nil n)
    ∙ read_digits-digits (suc n) n [] (omega arith)

digits_no_char :
    (c f n : ℕ) (out : Text)
    → between b'0' b'9' c ≡ false
    → has_char c out ≡ false
    → has_char c (digits f n out) ≡ false
unfolding digits has_char
digits_no_char c zero n out h a = a
digits_no_char c (suc f) n out h a =
    ground (arith, digits_no_char c f (n / 10) ((b'0' + n % 10) ∷ out) h)

-- The text of a number holds digits alone.
pub show_nat_no_char : (c n : ℕ) → between b'0' b'9' c ≡ false → has_char c (show_nat n) ≡ false
unfolding show_nat has_char
show_nat_no_char c n h = digits_no_char c (suc n) n [] h refl
