-- ===== src/Base/Io/Traces.antt =====
-- Which actions a computation can perform, whatever the environment answers.
use mathlib.Core.Path.{◌≡◌, refl, sym, ap, ◌∙◌}
use mathlib.Core.Bool.{Bool, true, false}
use mathlib.Core.List.{List, [], ◌∷◌, ◌++◌, append-nil, append_assoc}
use transient.Base.Tests.{if◌then◌else◌}
use transient.Base.Lists.{All, All-append}
use transient.Base.Outcome.{Result, ok, err, Exn}
use transient.Base.Io.{World, Io, pure, raise, lift, perform, ask, ◌>>=◌, catch, for_each, continue}

-- The new actions of a run, each of which satisfies `P`.
pub record Added {A : Type 0} (P : A → Type 0) (before after : List A) : Type 0 where
  pub new : List A
  pub after_eq : after ≡ before ++ new
  pub each : All P new

pub record Emits {A B : Type 0} (P : A → Type 0) (m : Io A B) : Type 0 where
  pub at : (h : List A) → Added P h (m h).1

module _ {A : Type 0} {P : A → Type 0} where
  pub Added-none : (h : List A) → Added P h h
  Added-none h = record { new = []; after_eq = sym (append-nil h); each = tt }

  pub Added-trans : {a b c : List A} → Added P a b → Added P b c → Added P a c
  Added-trans {a} x y = record {
    new = x.new ++ y.new;
    after_eq = y.after_eq ∙ ap (λ l. l ++ y.new) x.after_eq ∙ append_assoc a x.new y.new;
    each = All-append P x.new y.new x.each y.each;
  }

  pub Emits-pure : {B : Type 0} (b : B) → Emits P (pure b)
  unfolding pure
  Emits-pure b = record { at = λ h. Added-none h }

  pub Emits-raise : {B : Type 0} (e : Exn) → Emits P (raise {B = B} e)
  unfolding raise
  Emits-raise e = record { at = λ h. Added-none h }

  pub Emits-lift : {B : Type 0} (r : Result B) → Emits P (lift r)
  unfolding lift
  Emits-lift r = record { at = λ h. Added-none h }

  pub Emits-perform : {R : Type 0} (w : World A R) (a : A) → P a → Emits P (perform w a)
  unfolding perform
  Emits-perform w a p = record {
    at = λ h. record { new = a ∷ []; after_eq = refl; each = (p, tt) };
  }

  pub Emits-ask :
      {R : A → Type 0} (w : List A → (a : A) → Result (R a)) (a : A)
      → P a
      → Emits P (ask {R = R} w a)
  unfolding ask
  Emits-ask w a p = record { at = λ h. record { new = a ∷ []; after_eq = refl; each = (p, tt) } }

  Added-continue :
      {B C : Type 0} (r : Result B) (f : B → Io A C) (h : List A)
      → ((b : B) → Emits P (f b))
      → Added P h (continue r f h).1
  Added-continue (ok b) f h k = (k b).at h
  Added-continue (err e) f h k = Added-none h

  pub Emits-bind :
      {B C : Type 0} (m : Io A B) (f : B → Io A C)
      → Emits P m
      → ((b : B) → Emits P (f b))
      → Emits P (m >>= f)
  unfolding ◌>>=◌
  Emits-bind m f km kf = record {
    at = λ h. let (r, h') = m h in Added-trans (km.at h) (Added-continue r f h' kf);
  }

  pub Emits-catch : {B : Type 0} (m : Io A B) (f : Exn → B) → Emits P m → Emits P (catch m f)
  unfolding catch
  Emits-catch m f k = record { at = λ h. k.at h }

  pub Emits-for_each :
      {X : Type 0} (xs : List X) (f : X → Io A (Unit {0}))
      → ((x : X) → Emits P (f x))
      → Emits P (for_each xs f)
  unfolding for_each
  Emits-for_each [] f k = Emits-pure tt
  Emits-for_each (x ∷ xs) f k = Emits-bind (f x) _ (k x) (λ _. Emits-for_each xs f k)

  pub Emits-if :
      {B : Type 0} (b : Bool) (m n : Io A B) → Emits P m → Emits P n → Emits P (if b then m else n)
  Emits-if true m n km kn = km
  Emits-if false m n km kn = kn

pub ruleset emits_rules = (
  Emits-pure, Emits-raise, Emits-lift, Emits-perform, Emits-ask, Emits-bind, Emits-catch,
  Emits-for_each, Emits-if,
)

-- A step that gives a value is followed by the rest, on the actions after it.
pub >>=-ok :
    {A B C : Type 0} (m : Io A B) (k : B → Io A C) (h : List A) {b : B} {h1 : List A}
    → m h ≡ (ok b, h1)
    → (m >>= k) h ≡ k b h1
unfolding ◌>>=◌
>>=-ok m k h e = ap (λ p. continue p.0 k p.1) e
