-- ===== src/Base/Dict.antt =====
-- Dictionaries and directories: entries by a text, in the order in which they were made.
use transient.Base.Tests.{if◌then◌else◌, Bool-cases}
use mathlib.Core.Logic.{inl, inr}
use transient.Base.Strings.{Text, text_eq, text_eq_iff}
use mathlib.Core.Path.{◌≡◌, refl}
use mathlib.Core.Bool.{Bool, true, false}
use mathlib.Core.Option.{Option, none, some}
use mathlib.Core.List.{List, [], ◌∷◌, ◌++◌}
use native.Mathlib.Omega.{arith}

abbrev pub Dict : Type 0 → Type 0
Dict V = List (Text × V)

module _ {V : Type 0} where
  unfoldable pub lookup : Text → Dict V → Option V
  lookup k [] = none
  lookup k ((j, v) ∷ d) = if text_eq j k then some v else lookup k d

  -- `d[k] = v`
  unfoldable pub insert : Text → V → Dict V → Dict V
  insert k v [] = (k, v) ∷ []
  insert k v ((j, w) ∷ d) = if text_eq j k then (j, v) ∷ d else (j, w) ∷ insert k v d

  -- `del d[k]`; a dictionary holds a key at most once, and every entry of it goes.
  unfoldable pub erase : Text → Dict V → Dict V
  erase k [] = []
  erase k ((j, w) ∷ d) = let rest = erase k d in if text_eq j k then rest else (j, w) ∷ rest

  -- `k in d`
  unfoldable pub has_key : Text → Dict V → Bool
  unfolding lookup
  has_key k d = elim (lookup k d) [ none ↦ false | some v ↦ true ]

  pub lookup-insert :
      (j k : Text) (v : V) (d : Dict V)
      → lookup j (insert k v d) ≡ (if text_eq k j then some v else lookup j d)
  unfolding lookup insert
  lookup-insert j k v [] = refl
  lookup-insert j k v ((i, w) ∷ d) =
      ground (arith, lookup-insert j k v d, text_eq_iff i k, text_eq_iff i j, text_eq_iff k j)

  pub lookup-erase :
      (j k : Text) (d : Dict V) → lookup j (erase k d) ≡ (if text_eq k j then none else lookup j d)
  unfolding lookup erase
  lookup-erase j k [] = ground arith
  lookup-erase j k ((i, w) ∷ d) =
      ground (arith, lookup-erase j k d, text_eq_iff i k, text_eq_iff i j, text_eq_iff k j)

  -- A key is there at most once, as in every `dict`.
  abbrev pub IsDict : Dict V → Type 0
  IsDict [] = Unit
  IsDict ((key, _) ∷ d) = (lookup key d ≡ none) × IsDict d

  -- A new key goes to the end.
  pub insert_fresh :
      (k : Text) (v : V) (d : Dict V) → lookup k d ≡ none → insert k v d ≡ d ++ ((k, v) ∷ [])
  unfolding lookup insert
  insert_fresh k v [] h = refl
  insert_fresh k v ((j, w) ∷ d) h = ground (arith, insert_fresh k v d)

  pub lookup-append :
      (k : Text) (c d : Dict V)
      → lookup k (c ++ d) ≡ elim (lookup k c) [ none ↦ lookup k d | some v ↦ some v ]
  unfolding lookup
  lookup-append k [] d = refl
  lookup-append k ((j, w) ∷ c) d = ground (arith, lookup-append k c d)

  pub insert-IsDict : (k : Text) (v : V) (d : Dict V) → IsDict d → IsDict (insert k v d)
  unfolding insert lookup
  insert-IsDict k v [] h = (refl, tt)
  insert-IsDict k v ((j, w) ∷ d) (fresh, h) = elim (Bool-cases (text_eq j k)) [
    | inl e ↦ rw e (fresh, h)
    | inr e ↦ rw e (
      ground (arith, lookup-insert j k v d, text_eq_iff j k, text_eq_iff k j),
      insert-IsDict k v d h,
    )
  ]
