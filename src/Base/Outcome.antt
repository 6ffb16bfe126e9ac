-- ===== src/Base/Outcome.antt =====
-- What a Python call gives: a value or an exception. The exceptions are the classes that the
-- program raises or tells apart in an `except`.
use Prim.Native.Nat.{ℕ}
use mathlib.Core.Path.{◌≡◌, refl}
use mathlib.Core.Logic.{◌⊎◌, inl, inr}
use mathlib.Core.Option.{Option}
use mathlib.Core.List.{List, [], ◌∷◌}
use transient.Base.Strings.{Text}

-- `Popen.returncode`: what the process exits with, or the signal that ends it (a negative number).
pub data ReturnCode : Type 0 where
  exited : ℕ → ReturnCode
  signalled : ℕ → ReturnCode

-- transient/utils.py, `TransientProcessError`
pub record ProcessError : Type 0 where
  pub cmd : Option Text
  pub returncode : Option ReturnCode
  pub msg : Option Text
  pub stdout : Option Text
  pub stderr : Option Text

-- The classes of exceptions.
pub data Exn : Type 0 where
  transient_error : Text → Exn
  process_error : ProcessError → Exn
  lock_held : Text → Exn
  runtime_error : Text → Exn
  value_error type_error key_error index_error attribute_error assertion_error : Exn
  os_error file_not_found timeout_expired : Exn

pub data Result {ℓ} (A : Type ℓ) : Type ℓ where
  ok : A → Result A
  err : Exn → Result A

infixl 5 ◌>>=◌ ◌>>◌
abbrev pub ◌>>=◌ {ℓ κ} : {X : Type ℓ} {Y : Type κ} → Result X → (X → Result Y) → Result Y
err e >>= k = err e
ok x >>= k = k x

abbrev pub ◌>>◌ {ℓ} : {Y : Type ℓ} → Result (Unit {0}) → Result Y → Result Y
err e >> r = err e
ok u >> r = r

-- `[f(x) for x in xs]`, where `f` may raise
abbrev pub map_result {ℓ κ} : {A : Type ℓ} {B : Type κ} → (A → Result B) → List A → Result (List B)
map_result f [] = ok []
map_result f (x ∷ xs) = f x >>= λ y. map_result f xs >>= λ ys. ok (y ∷ ys)

-- The rest of a computation that changes a state and may raise.
abbrev pub and_then {ℓ} : {S A B : Type ℓ} → Result A × S → (A → S → Result B × S) → Result B × S
and_then (ok a, s) f = f a s
and_then (err e, s) f = (err e, s)

pub Result-cases {ℓ} :
    {A : Type ℓ} (r : Result A) → ((a : A) × (r ≡ ok a)) ⊎ ((e : Exn) × (r ≡ err e))
Result-cases (ok a) = inl (a, refl)
Result-cases (err e) = inr (e, refl)

pub ok-injective {ℓ} : {A : Type ℓ} {a b : A} → ok a ≡ ok b → a ≡ b
ok-injective h = cc

-- A bind that gives a value has one on its left, and the rest of it gives the value.
pub >>=-eq-ok {ℓ κ} :
    {X : Type ℓ} {Y : Type κ} (r : Result X) (k : X → Result Y) {y : Y} (given : (r >>= k) ≡ ok y)
    → (x : X) × (r ≡ ok x) × (k x ≡ ok y)
>>=-eq-ok (err e) k given = cc
>>=-eq-ok (ok x) k given = (x, refl, given)
