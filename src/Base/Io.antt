-- ===== src/Base/Io.antt =====
-- Effects. An action of the program is answered by its environment, which sees the actions before it;
-- an exception ends the computation, and what was done stays done.
pub mod Traces
use mathlib.Core.List.{List, [], ◌∷◌, ◌++◌}
use transient.Base.Outcome.{Result, ok, err, Exn}

-- The environment's answer to an action, after the actions before it.
abbrev pub World : Type 0 → Type 0 → Type 0
World A R = List A → A → Result R

abbrev pub Io : Type 0 → Type 0 → Type 0
Io A B = List A → Result B × List A

abbrev pub continue : {A B C : Type 0} → Result B → (B → Io A C) → Io A C
continue (ok b) f h = f b h
continue (err e) f h = (err e, h)

abbrev pub caught : {B : Type 0} → (Exn → B) → Result B → Result B
caught f (ok b) = ok b
caught f (err e) = ok (f e)

module _ {A : Type 0} where
  unfoldable pub pure : {B : Type 0} → B → Io A B
  pure b h = (ok b, h)

  unfoldable pub raise : {B : Type 0} → Exn → Io A B
  raise e h = (err e, h)

  unfoldable pub lift : {B : Type 0} → Result B → Io A B
  lift r h = (r, h)

  unfoldable pub perform : {R : Type 0} → World A R → A → Io A R
  perform w a h = (w h a, h ++ (a ∷ []))

  -- The same, where the answer's type is the action's.
  unfoldable pub ask : {R : A → Type 0} → (List A → (a : A) → Result (R a)) → (a : A) → Io A (R a)
  ask w a h = (w h a, h ++ (a ∷ []))

  infixl 10 ◌>>=◌ ◌>>◌
  unfoldable pub ◌>>=◌ : {B C : Type 0} → Io A B → (B → Io A C) → Io A C
  unfolding pure raise lift
  ◌>>=◌ m f h = let (r, h') = m h in continue r f h'

  abbrev pub ◌>>◌ : {B C : Type 0} → Io A B → Io A C → Io A C
  m >> n = m >>= λ _. n

  -- `try: return m` with `except: return f(e)`
  unfoldable pub catch : {B : Type 0} → Io A B → (Exn → B) → Io A B
  catch m f h = let (r, h') = m h in (caught f r, h')

  -- `for x in xs: f(x)`
  unfoldable pub for_each : {X : Type 0} → List X → (X → Io A (Unit {0})) → Io A (Unit {0})
  unfolding ◌>>=◌ pure
  for_each [] f = pure tt
  for_each (x ∷ xs) f = f x >>= λ _. for_each xs f

  -- `try: return m` with `finally: n`, where `n` does not raise
  unfoldable pub ensure : {B : Type 0} → Io A B → Io A (Unit {0}) → Io A B
  ensure m n h = let (r, h') = m h in (r, (n h').1)
