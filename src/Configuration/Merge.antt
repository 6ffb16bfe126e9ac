-- ===== src/Configuration/Merge.antt =====
-- transient/configuration.py: each field of a combined configuration.
use transient.Base.{
  >>=-eq-ok, Bool, Option, Result, Text, [], ap, arith, false, if◌then◌else◌, none, ok,
  ok-injective, refl, some, sym, text_eq, text_eq_sound, true, ◌++◌, ◌∙◌, ◌∷◌, ◌≡◌,
}
use mathlib.Core.Path.{subst}
use transient.Base.Dict.{IsDict, Dict, lookup, lookup-insert}
use transient.Configuration.{
  Value, nothing, items, single, add_items, merge_field, merge_fields,
  run_config_from_create_and_start,
}

-- What a field becomes: `now` stays if `start` does not give the field, or gives None; a list is put
-- behind the list of `create`; and anything else replaces.
abbrev pub combined : Option Value → Option Value → Option Value → Option Value
combined old now none = now
combined old now (some nothing) = now
combined (some (items xs)) now (some (items ys)) = some (items (xs ++ ys))
combined old now (some value) = some value

-- What one step does to each field.
merge_field_lem :
    (old : Option Value) (key : Text) (value : Value) (config config' : Dict Value) (k : Text)
    → merge_field old key value config ≡ ok config'
    → lookup k config'
      ≡ (if text_eq key k then combined old (lookup k config) (some value) else lookup k config)
unfolding merge_field add_items
merge_field_lem (some (items xs)) key (items ys) config config' k h =
    ground (arith, ok-injective h, lookup-insert k key (items (xs ++ ys)) config)
merge_field_lem (some nothing) key (items ys) config config' k h = cc
merge_field_lem (some (single x)) key (items ys) config config' k h = cc
merge_field_lem none key (items ys) config config' k h =
    ground (arith, ok-injective h, lookup-insert k key (items ys) config)
merge_field_lem none key nothing config config' k h = ground (arith, ok-injective h)
merge_field_lem (some old) key nothing config config' k h = ground (arith, ok-injective h)
merge_field_lem none key (single x) config config' k h =
    ground (arith, ok-injective h, lookup-insert k key (single x) config)
merge_field_lem (some (items xs)) key (single x) config config' k h =
    ground (arith, ok-injective h, lookup-insert k key (single x) config)
merge_field_lem (some nothing) key (single x) config config' k h =
    ground (arith, ok-injective h, lookup-insert k key (single x) config)
merge_field_lem (some (single y)) key (single x) config config' k h =
    ground (arith, ok-injective h, lookup-insert k key (single x) config)

combined-none : (old now : Option Value) → combined old now none ≡ now
combined-none none now = refl
combined-none (some nothing) now = refl
combined-none (some (items xs)) now = refl
combined-none (some (single x)) now = refl

-- A step, and the steps after it, which do not give its key again.
combined_step :
    (old old' now now' after given here : Option Value) (same : Bool)
    → (same ≡ true → (old' ≡ old) × (given ≡ none))
    → now' ≡ (if same then here else now)
    → (same ≡ true → here ≡ combined old' now after)
    → (same ≡ false → after ≡ given)
    → combined old now' given ≡ combined old now after
combined_step old old' now now' after given here true a b c d =
    let (o, g) = a refl in rw (g, combined-none old now', b, c refl, o)
combined_step old old' now now' after given here false a b c d = rw (b, d refl)

-- What the loop does to each field.
merge_fields_lem :
    (create start config merged : Dict Value) (k : Text)
    → IsDict start
    → merge_fields create start config ≡ ok merged
    → lookup k merged ≡ combined (lookup k create) (lookup k config) (lookup k start)
unfolding merge_fields lookup
merge_fields_lem create [] config merged k u h = ap (lookup k) (sym (ok-injective h))
merge_fields_lem create ((key, value) ∷ start) config merged k u h =
    let (config', step, rest) =
      >>=-eq-ok (merge_field (lookup key create) key value config)
        (λ c. merge_fields create start c) h in
    let later = merge_fields_lem create start config' merged k u.1 rest in
    let one = merge_field_lem (lookup key create) key value config config' k step in
    later
    ∙ combined_step (lookup k create) (lookup key create) (lookup k config) (lookup k config')
        (if text_eq key k then some value else lookup k start) (lookup k start)
        (combined (lookup key create) (lookup k config) (some value)) (text_eq key k)
        (λ e. (
          ap (λ j. lookup j create) (text_eq_sound key k e),
          subst (λ j. lookup j start ≡ none) (text_eq_sound key k e) u.0,
        ))
        one (λ e. rw e) (λ e. rw e)

-- A configuration that is made from the configuration of the creation and that of the start has each
-- field as it should: a list is the list of the creation with that of the start behind it, anything else
-- that the start gives replaces, and a field that the start does not give, or gives as None, is the
-- creation's. The start's fields are taken to have different keys.
pub run_config_from_create_and_start_lem {ℓ} :
    {R : Type ℓ} (load : Dict Value → Result R) (create start : Dict Value) (r : R)
    → IsDict start
    → run_config_from_create_and_start load create start ≡ ok r
    → (merged : Dict Value) × (load merged ≡ ok r)
      × ((k : Text)
          → lookup k merged ≡ combined (lookup k create) (lookup k create) (lookup k start))
unfolding run_config_from_create_and_start
run_config_from_create_and_start_lem load create start r u h =
    let (merged, made, loaded) = >>=-eq-ok (merge_fields create start create) load h in
    (merged, loaded, λ k. merge_fields_lem create start create merged k u made)
