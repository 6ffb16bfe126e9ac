-- ===== src/Configuration/Supply.antt =====
-- transient/configuration.py: what the user supplied, over a configuration file.
use transient.Base.{
  ◌≡◌, refl, sym, ap, ◌∙◌, inl, inr, false, Option, none, some, [], ◌∷◌, ◌++◌, map, arith,
  if◌then◌else◌, Bool-cases, All, Text, lit, text_eq, text_eq_sound, text_eq_iff, Result, ok,
}
use transient.Configuration.{string, other}
use transient.Base.Dict.{IsDict, Dict, lookup, insert, lookup-insert}
use transient.Configuration.{
  Value, nothing, items, single, supply_field, supply_fields, create_transient_config,
}

-- A field of the result, from the file's and from what was supplied. A text behind a list counts as its
-- characters.
abbrev pub supplied_over : Option Value → Option Value → Option Value
supplied_over (some (items xs)) (some (items ys)) = some (items (xs ++ ys))
supplied_over (some (items xs)) (some (single (string x))) =
    some (items (xs ++ map (λ c. c ∷ []) x))
supplied_over (some (items xs)) (some (single (other x))) = none
supplied_over old none = old
supplied_over old (some nothing) = old
supplied_over none (some v) = some v
supplied_over (some nothing) (some v) = some v
supplied_over (some (single y)) (some v) = some v

-- Whether a value can be supplied over another: a list is not extended by a number or a Boolean.
abbrev pub Extends : Value → Value → Type 0
Extends (items xs) (single (other x)) = ⊥
Extends old value = Unit

-- Every field that was supplied is one of the file, and its value can be supplied over the file's.
abbrev pub IsKnown : Dict Value → Dict Value → Type 0
IsKnown config supplied =
    All (λ e. (v : Value) × (lookup e.0 config ≡ some v) × Extends v e.1) supplied

unchanged :
    (field : Text) (old : Value) (config : Dict Value)
    → lookup field config ≡ some old
    → (k : Text) → lookup k config ≡ (if text_eq field k then some old else lookup k config)
unchanged field old config h k = elim (Bool-cases (text_eq field k)) [
  | inl e ↦ rw e (rw (← text_eq_sound field k e) h)
  | inr e ↦ rw e refl
]

-- One field, where the file has it
supply_field_lem :
    (field : Text) (value old : Value) (config : Dict Value)
    → lookup field config ≡ some old
    → Extends old value
    → (config' : Dict Value) × (supply_field field value config ≡ ok config')
      × ((k : Text)
          → lookup k config'
            ≡ (if text_eq field k then supplied_over (some old) (some value) else lookup k config))
unfolding supply_field
supply_field_lem field nothing (items xs) config h fits =
    (config, refl, unchanged field (items xs) config h)
supply_field_lem field nothing nothing config h fits =
    (config, refl, unchanged field nothing config h)
supply_field_lem field nothing (single x) config h fits =
    (config, refl, unchanged field (single x) config h)
supply_field_lem field (items ys) (items xs) config h fits = (
  insert field (items (xs ++ ys)) config,
  rw (h, supply_field) refl,
  λ k. lookup-insert k field (items (xs ++ ys)) config,
)
supply_field_lem field (items ys) nothing config h fits = (
  insert field (items ys) config,
  rw (h, supply_field) refl,
  λ k. lookup-insert k field (items ys) config,
)
supply_field_lem field (items ys) (single x) config h fits = (
  insert field (items ys) config,
  rw (h, supply_field) refl,
  λ k. lookup-insert k field (items ys) config,
)
supply_field_lem field (single (other x)) (items xs) config h fits = absurd fits
supply_field_lem field (single (string x)) (items xs) config h fits = (
  insert field (items (xs ++ map (λ c. c ∷ []) x)) config,
  rw (h, supply_field) refl,
  λ k. lookup-insert k field (items (xs ++ map (λ c. c ∷ []) x)) config,
)
supply_field_lem field (single x) nothing config h fits = (
  insert field (single x) config,
  rw (h, supply_field) refl,
  λ k. lookup-insert k field (single x) config,
)
supply_field_lem field (single x) (single y) config h fits = (
  insert field (single x) config,
  rw (h, supply_field) refl,
  λ k. lookup-insert k field (single x) config,
)

over_none : (o : Option Value) → supplied_over o none ≡ o
over_none none = refl
over_none (some nothing) = refl
over_none (some (items xs)) = refl
over_none (some (single x)) = refl

-- A field that is not among the others
other_field :
    (field k : Text) (w : Value) (supplied : Dict Value)
    → lookup field ((k, w) ∷ supplied) ≡ none
    → (text_eq field k ≡ false) × (lookup field supplied ≡ none)
unfolding lookup
other_field field k w supplied h = elim (Bool-cases (text_eq k field)) [
  | inl e ↦ cc (rw (e, lookup) at h)
  | inr e ↦ (ground (arith, e, text_eq_iff field k, text_eq_iff k field), rw (e, lookup) at h)
]

-- After a step, every field that was known is.
IsKnown-step :
    (field : Text) (value old : Value) (config config' : Dict Value) (supplied : Dict Value)
    → ((k : Text)
        → lookup k config'
          ≡ (if text_eq field k then supplied_over (some old) (some value) else lookup k config))
    → lookup field supplied ≡ none
    → IsKnown config supplied
    → IsKnown config' supplied
IsKnown-step field value old config config' [] now fresh known = tt
IsKnown-step field value old config config' ((k, w) ∷ supplied) now fresh known =
    let (differs, later) = other_field field k w supplied fresh in
    (
      (known.0.0, now k ∙ rw differs known.0.1, known.0.2),
      IsKnown-step field value old config config' supplied now later known.1,
    )

-- The fields after a step and the steps behind it
supply_step :
    (field k : Text) (value old : Value) (config config' merged supplied : Dict Value)
    → lookup field config ≡ some old
    → lookup field supplied ≡ none
    → lookup k config'
      ≡ (if text_eq field k then supplied_over (some old) (some value) else lookup k config)
    → lookup k merged ≡ supplied_over (lookup k config') (lookup k supplied)
    → lookup k merged
      ≡ supplied_over (lookup k config) (if text_eq field k then some value else lookup k supplied)
supply_step field k value old config config' merged supplied had fresh step rest =
    elim (Bool-cases (text_eq field k)) [
      | inl e ↦
          let same = text_eq_sound field k e in
          rw e (
            rest
            ∙ ap (λ o. supplied_over (lookup k config') o)
                (ap (λ j. lookup j supplied) (sym same) ∙ fresh)
            ∙ over_none (lookup k config')
            ∙ step
            ∙ rw e refl
            ∙ ap (λ o. supplied_over o (some value)) (sym had ∙ ap (λ j. lookup j config) same))
      | inr e ↦ rw e (rest ∙ ap (λ o. supplied_over o (lookup k supplied)) (step ∙ rw e refl))
    ]

supply_fields_lem :
    (supplied config : Dict Value)
    → IsDict supplied
    → IsKnown config supplied
    → (merged : Dict Value) × (supply_fields supplied config ≡ ok merged)
      × ((k : Text) → lookup k merged ≡ supplied_over (lookup k config) (lookup k supplied))
unfolding supply_fields lookup
supply_fields_lem [] config u known = (config, refl, λ k. sym (over_none (lookup k config)))
supply_fields_lem ((field, value) ∷ supplied) config u known =
    let (config', step, now) = supply_field_lem field value known.0.0 config known.0.1 known.0.2 in
    let (merged, rest, all_fields) =
      supply_fields_lem supplied config' u.1
        (IsKnown-step field value known.0.0 config config' supplied now u.0 known.1) in
    (
      merged,
      rw (step, supply_fields) rest,
      λ k.
          supply_step field k value known.0.0 config config' merged supplied known.0.1 u.0 (now k)
            (all_fields k),
    )

-- Where a configuration file is given and has every field that the user can supply, as a file does
-- that its schema has filled, and no number or Boolean is supplied for a field in which the file has a list,
-- combining never raises, and what is validated has, in each field but
-- `config`, the value of the file if the user supplied none or None, the list of the file with that
-- of the user behind it (of a text, its characters), and the user's value otherwise; and `config`
-- is None. The supplied fields are taken to have different keys.
pub create_transient_config_lem :
    {R : Type 0} (load : Dict Value → Result R) (file all_args supplied : Dict Value)
    → IsDict supplied
    → IsKnown file supplied
    → (merged : Dict Value) × (create_transient_config load (some (ok file)) all_args supplied
        ≡ load merged)
      × ((k : Text)
          → lookup k merged ≡ (
              if text_eq (lit "config") k
              then some nothing
              else supplied_over (lookup k file) (lookup k supplied)))
unfolding create_transient_config
create_transient_config_lem load file all_args supplied u known =
    let (merged, made, fields) = supply_fields_lem supplied file u known in
    (
      insert (lit "config") nothing merged,
      rw made refl,
      λ k.
          lookup-insert k (lit "config") nothing merged
          ∙ ap (λ o. if text_eq (lit "config") k then some nothing else o) (fields k),
    )
