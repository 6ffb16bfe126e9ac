-- ===== src/Configuration/Shape.antt =====
-- transient/configuration.py: the configuration of a run has the shape that `RunSchema` checks.
use transient.Base.{
  ◌≡◌, refl, sym, ◌∙◌, ◌≢◌, inl, inr, Bool, true, false, not, ◌&&◌, Option, none, some, List, [],
  ◌∷◌, ◌++◌, arith, Bool-cases, Option-cases, All, Text, text_eq, text_eq_sound, ok,
}
use mathlib.Core.Path.{subst}
use transient.Base.Dict.{Dict, lookup, insert}
use transient.Configuration.{Value, nothing, items, single, add_items, merge_field, merge_fields}
use transient.Configuration.Schema.{FieldType, int_field, str_field, bool_field, Field, Schema}

-- A value that a field can have: None, a list in a list field, or anything else in any other.
abbrev pub Fits : Option Field → Value → Type 0
Fits none v = ⊥
Fits (some f) nothing = Unit
Fits (some f) (items xs) = f.is_list ≡ true
Fits (some f) (single x) = f.is_list ≡ false

abbrev pub HasShape : Schema → Dict Value → Type 0
HasShape schema config = All (λ e. Fits (lookup e.0 schema) e.1) config

-- No list of the configuration is None.
abbrev pub IsFull : Schema → Dict Value → Type 0
IsFull schema config =
    All (λ e. (f : Field) → lookup e.0 schema ≡ some f → f.is_list ≡ true → e.1 ≢ nothing) config

abbrev pub same_type : FieldType → FieldType → Bool
same_type int_field int_field = true
same_type str_field str_field = true
same_type bool_field bool_field = true
same_type a b = false

abbrev pub same_bool : Bool → Bool → Bool
same_bool true b = b
same_bool false b = not b

same_bool_sound : (a b : Bool) → same_bool a b ≡ true → a ≡ b
same_bool_sound true b h = sym h
same_bool_sound false b h = ground arith

-- A field of the same type, list or not
abbrev pub same_field : Field → Option Field → Bool
same_field f none = false
same_field f (some g) = same_type f.field_type g.field_type && same_bool f.is_list g.is_list

-- Every field of one schema is a field of another.
unfoldable pub covers : Schema → Schema → Bool
covers [] b = true
covers ((k, f) ∷ a) b = same_field f (lookup k b) && covers a b

pub and_true : (a b : Bool) → (a && b) ≡ true → (a ≡ true) × (b ≡ true)
and_true true b h = (refl, h)
and_true false b h = cc

same_field_sound :
    (f : Field) (o : Option Field)
    → same_field f o ≡ true
    → (g : Field) × (o ≡ some g) × (f.is_list ≡ g.is_list)
same_field_sound f none h = cc
same_field_sound f (some g) h = (
  g,
  refl,
  same_bool_sound f.is_list g.is_list
      (and_true (same_type f.field_type g.field_type) (same_bool f.is_list g.is_list) h).1,
)

covers_sound :
    (a b : Schema) (key : Text) (f : Field)
    → covers a b ≡ true
    → lookup key a ≡ some f
    → (g : Field) × (lookup key b ≡ some g) × (f.is_list ≡ g.is_list)
unfolding covers lookup
covers_sound [] b key f h e = cc
covers_sound ((k, f') ∷ a) b key f h e =
    let (here, later) = and_true (same_field f' (lookup k b)) (covers a b) h in
    elim (Bool-cases (text_eq k key)) [
      | inl same ↦
          let (g, found, l) = same_field_sound f' (lookup k b) here in
          (g, rw (← text_eq_sound k key same) found, cc (l, ground_some f' f (rw same at e)))
      | inr other ↦ covers_sound a b key f later (rw other at e)
    ]
  where
    ground_some : (f g : Field) → some f ≡ some g → f.is_list ≡ g.is_list
    ground_some f g h = cc

Fits-covers :
    (a b : Schema) (key : Text) (v : Value)
    → covers a b ≡ true
    → Fits (lookup key a) v
    → Fits (lookup key b) v
Fits-covers a b key v h fits = elim (Option-cases (lookup key a)) [
  | inl e ↦ absurd (rw e at fits)
  | inr (f, e) ↦
      let (g, found, l) = covers_sound a b key f h e in rw found (moved f g v l (rw e at fits))
]
  where
    moved : (f g : Field) (v : Value) → f.is_list ≡ g.is_list → Fits (some f) v → Fits (some g) v
    moved f g nothing l fits = tt
    moved f g (items xs) l fits = cc
    moved f g (single x) l fits = cc

module _ (schema : Schema) where
  HasShape-insert :
      (key : Text) (v : Value) (config : Dict Value)
      → Fits (lookup key schema) v
      → HasShape schema config
      → HasShape schema (insert key v config)
  unfolding insert
  HasShape-insert key v [] fits h = (fits, tt)
  HasShape-insert key v ((j, w) ∷ config) fits h = elim (Bool-cases (text_eq j key)) [
    | inl same ↦ rw same (rw (text_eq_sound j key same) fits, h.1)
    | inr other ↦ rw other (h.0, HasShape-insert key v config fits h.1)
  ]

  HasShape-lookup :
      (config : Dict Value) (key : Text) (v : Value)
      → HasShape schema config
      → lookup key config ≡ some v
      → Fits (lookup key schema) v
  unfolding lookup
  HasShape-lookup [] key v h e = cc
  HasShape-lookup ((j, w) ∷ config) key v h e = elim (Bool-cases (text_eq j key)) [
    | inl same ↦
        subst (λ w'. Fits (lookup key schema) w') (some_injective (rw same at e))
          (rw (← text_eq_sound j key same) h.0)
    | inr other ↦ HasShape-lookup config key v h.1 (rw other at e)
  ]
    where
      some_injective : {a b : Value} → some a ≡ some b → a ≡ b
      some_injective h = cc

  IsFull-lookup :
      (config : Dict Value) (key : Text) (f : Field)
      → IsFull schema config
      → lookup key schema ≡ some f
      → f.is_list ≡ true
      → lookup key config ≢ some nothing
  unfolding lookup
  IsFull-lookup [] key f h s l e = cc
  IsFull-lookup ((j, w) ∷ config) key f h s l e = elim (Bool-cases (text_eq j key)) [
    | inl same ↦ h.0 f (rw (text_eq_sound j key same) s) l (some_injective (rw same at e))
    | inr other ↦ IsFull-lookup config key f h.1 s l (rw other at e)
  ]
    where
      some_injective : {a b : Value} → some a ≡ some b → a ≡ b
      some_injective h = cc

-- A configuration of the creation and one of the start, by schemas that the run's schema covers
module _ (c s r : Schema) (create_covered : covers c r ≡ true)
    (start_covered : covers s r ≡ true) where
  module _ (create : Dict Value) (shape : HasShape c create) (full : IsFull c create) where
    -- A field that is a list in a run is one in the creation.
    is_list_field :
        (key : Text) (w : Value) (xs : List Text)
        → lookup key create ≡ some w
        → Fits (lookup key r) (items xs)
        → (f : Field) × (lookup key c ≡ some f) × (f.is_list ≡ true)
    is_list_field key w xs e list = elim (Option-cases (lookup key c)) [
      | inl missing ↦ absurd (rw missing at (HasShape-lookup c create key w shape e))
      | inr (f, found) ↦
          let (g, in_run, same) = covers_sound c r key f create_covered found in
          (f, found, same ∙ list_of g (rw in_run at list))
    ]
      where
        list_of : (g : Field) → Fits (some g) (items xs) → g.is_list ≡ true
        list_of g l = l

    old-IsItems :
        (key : Text) (w : Value) (xs : List Text)
        → lookup key create ≡ some w
        → Fits (lookup key r) (items xs)
        → (ys : List Text) × (w ≡ items ys)
    old-IsItems key (items ys) xs e list = (ys, refl)
    old-IsItems key nothing xs e list =
        let (f, found, l) = is_list_field key nothing xs e list in
        absurd (IsFull-lookup c create key f full found l e)
    old-IsItems key (single x) xs e list =
        let (f, found, l) = is_list_field key (single x) xs e list in
        absurd (both f l (rw found at (HasShape-lookup c create key (single x) shape e)))
      where
        both : (f : Field) → f.is_list ≡ true → f.is_list ≡ false → ⊥
        both f a b = cc

    merge_field-HasShape :
        (config : Dict Value) (key : Text) (v : Value)
        → Fits (lookup key s) v
        → HasShape r config
        → (merged : Dict Value) × (merge_field (lookup key create) key v config ≡ ok merged)
          × HasShape r merged
    unfolding merge_field add_items
    merge_field-HasShape config key v fits runs =
        go v (lookup key create) refl (Fits-covers s r key v start_covered fits)
      where
        as_list :
            (xs ys : List Text)
            → Fits (lookup key r) (items xs)
            → Fits (lookup key r) (items (ys ++ xs))
        as_list xs ys list = list_in (lookup key r) list
          where
            list_in : (o : Option Field) → Fits o (items xs) → Fits o (items (ys ++ xs))
            list_in none l = l
            list_in (some f) l = l

        go :
            (v : Value) (old : Option Value)
            → lookup key create ≡ old
            → Fits (lookup key r) v
            → (merged : Dict Value) × (merge_field old key v config ≡ ok merged) × HasShape r merged
        go nothing none e fit = (config, refl, runs)
        go nothing (some w) e fit = (config, refl, runs)
        go (single x) none e fit =
            (insert key (single x) config, refl, HasShape-insert r key (single x) config fit runs)
        go (single x) (some w) e fit =
            (insert key (single x) config, refl, HasShape-insert r key (single x) config fit runs)
        go (items xs) none e fit =
            (insert key (items xs) config, refl, HasShape-insert r key (items xs) config fit runs)
        go (items xs) (some w) e fit =
            let (ys, same) = old-IsItems key w xs e fit in
            (
              insert key (items (ys ++ xs)) config,
              rw same refl,
              HasShape-insert r key (items (ys ++ xs)) config (as_list xs ys fit) runs,
            )

    pub merge_fields-HasShape :
        (start config : Dict Value)
        → HasShape s start
        → HasShape r config
        → (merged : Dict Value) × (merge_fields create start config ≡ ok merged) × HasShape r merged
    unfolding merge_fields
    merge_fields-HasShape [] config h runs = (config, refl, runs)
    merge_fields-HasShape ((key, v) ∷ start) config h runs =
        let (config', step, runs') = merge_field-HasShape config key v h.0 runs in
        let (merged, rest, runs'') = merge_fields-HasShape start config' h.1 runs' in
        (merged, rw (step, merge_fields) rest, runs'')

    pub HasShape-covers : (config : Dict Value) → HasShape c config → HasShape r config
    HasShape-covers [] h = tt
    HasShape-covers ((key, v) ∷ config) h =
        (Fits-covers c r key v create_covered h.0, HasShape-covers config h.1)
