-- ===== src/Args/Fields.antt =====
-- transient/args.py: the fields of the namespaces that a command sees.
use transient.Base.{
  ok-injective, ◌≡◌, refl, sym, ap, ◌∙◌, ◌⊎◌, inl, inr, Bool, true, false, not, ◌&&◌, ◌||◌, Option,
  none, some, List, ◌++◌, arith, if◌then◌else◌, Bool-cases, Text, lit, text_eq, text_eq_sound, Exn,
  attribute_error, Result, ok, err, >>=-eq-ok,
}
use transient.Base.Dict.{Dict, lookup, insert, erase, has_key, lookup-insert, lookup-erase}
use transient.Args.{
  attribute, Arg, words, Mapping, command, commands, Table, last, entry, Namespaces, remove_arg,
  add_arg, names_key, Located, locate, locate_in, TransientArgs, transient_args,
}

-- Both namespaces have the same fields.
abbrev pub SameFields : Namespaces → Type 0
SameFields args = (key : Text) → has_key key args.parsed ≡ has_key key args.user_supplied

-- A field is as it was, or it was removed.
abbrev pub Shrinks : Dict Arg → Dict Arg → Type 0
Shrinks before after =
    (key : Text) → (lookup key after ≡ none) ⊎ (lookup key after ≡ lookup key before)

-- What the steps of the constructor keep.
pub record Kept (before after : Namespaces) : Type 0 where
  pub same_fields : SameFields before → SameFields after
  pub parsed_shrinks : Shrinks before.parsed after.parsed
  pub user_supplied_shrinks : Shrinks before.user_supplied after.user_supplied

Kept-same : (args : Namespaces) → Kept args args
Kept-same args = record {
  same_fields = λ same. same;
  parsed_shrinks = λ key. inr refl;
  user_supplied_shrinks = λ key. inr refl;
}

Shrinks-trans : (a b c : Dict Arg) → Shrinks a b → Shrinks b c → Shrinks a c
Shrinks-trans a b c x y key = elim (y key) [
  | inl gone ↦ inl gone
  | inr same ↦ elim (x key) [
    | inl gone ↦ inl (same ∙ gone)
    | inr as_before ↦ inr (same ∙ as_before)
  ]
]

Kept-trans : {a b c : Namespaces} → Kept a b → Kept b c → Kept a c
Kept-trans {a} {b} {c} x y = record {
  same_fields = λ same. y.same_fields (x.same_fields same);
  parsed_shrinks = Shrinks-trans a.parsed b.parsed c.parsed x.parsed_shrinks y.parsed_shrinks;
  user_supplied_shrinks =
      Shrinks-trans a.user_supplied b.user_supplied c.user_supplied x.user_supplied_shrinks
        y.user_supplied_shrinks;
}

Shrinks-erase : (name : Text) (d : Dict Arg) → Shrinks d (erase name d)
Shrinks-erase name d key = elim (Bool-cases (text_eq name key)) [
  | inl e ↦ inl (rw (lookup-erase key name d, e) refl)
  | inr e ↦ inr (rw (lookup-erase key name d, e) refl)
]

has_key-erase :
    (key name : Text) (d : Dict Arg)
    → has_key key (erase name d) ≡ (not (text_eq name key) && has_key key d)
unfolding has_key
has_key-erase key name d = ground (arith, lookup-erase key name d)

has_key-insert :
    (key name : Text) (v : Arg) (d : Dict Arg)
    → has_key key (insert name v d) ≡ (text_eq name key || has_key key d)
unfolding has_key
has_key-insert key name v d = ground (arith, lookup-insert key name v d)

-- A test before a result, with an error or another result in the other case
when :
    {A : Type 0} (b : Bool) (e : Exn) {r : Result A} {x : A}
    → (if b then r else err e) ≡ ok x
    → r ≡ ok x
when true e h = h
when false e h = cc

either :
    {A : Type 0} (b : Bool) {r s : Result A} {x : A}
    → (if b then r else s) ≡ ok x
    → (r ≡ ok x) ⊎ (s ≡ ok x)
either true h = inl h
either false h = inr h

remove_arg-Kept :
    (name : Text) (args left : Namespaces) → remove_arg name args ≡ ok left → Kept args left
unfolding remove_arg
remove_arg-Kept name args left h =
    rw
      (← ok-injective
        (when (has_key name args.parsed && has_key name args.user_supplied) attribute_error h))
      (record {
        same_fields = λ same key.
            rw
              (
                has_key-erase key name args.parsed,
                has_key-erase key name args.user_supplied,
                same key,
              )
              refl;
        parsed_shrinks = Shrinks-erase name args.parsed;
        user_supplied_shrinks = Shrinks-erase name args.user_supplied;
      })

mutual
  unfolding locate locate_in

  locate-Kept :
      (mapping : Mapping) (field : Text) (args : Namespaces) (found : Located)
      → locate mapping field args ≡ ok found
      → Kept args found.2
  locate-Kept (command callback needs) field args found h = rw (← ok-injective h) (Kept-same args)
  locate-Kept (commands table) field args found h =
      let (name, _, rest) = >>=-eq-ok (attribute (lookup field args.parsed)) _ h in
      locate_in-Kept table name field args found rest

  locate_in-Kept :
      (table : Table) (name : Arg) (field : Text) (args : Namespaces) (found : Located)
      → locate_in table name field args ≡ ok found
      → Kept args found.2
  locate_in-Kept last name field args found h = cc
  locate_in-Kept (entry key mapping table) name field args found h =
      elim (either (names_key key name) h) [
        | inr later ↦ locate_in-Kept table name field args found later
        | inl here ↦
            let (left, removed, rest) = >>=-eq-ok (remove_arg field args) _ here in
            Kept-trans (remove_arg-Kept field args left removed)
              (locate-Kept mapping (key ++ lit "_command") left found rest)
      ]

-- A field of the parse was kept with its value or removed, except that `qemu_args` may be the list of
-- QEMU's arguments.
abbrev pub Comes : List Text → Dict Arg → Dict Arg → Type 0
Comes qemu_args before after =
    (key : Text)
    → (lookup key after ≡ none)
      ⊎ (lookup key after ≡ lookup key before)
      ⊎ ((key ≡ lit "qemu_args") × (lookup key after ≡ some (words qemu_args)))

Comes-add :
    (b : Bool) (qemu_args : List Text) (before after : Dict Arg)
    → Shrinks before after
    → Comes qemu_args before (if b then insert (lit "qemu_args") (words qemu_args) after else after)
Comes-add false qemu_args before after s key = elim (s key) [
  | inl gone ↦ inl gone
  | inr same ↦ inr (inl same)
]
Comes-add true qemu_args before after s key = elim (Bool-cases (text_eq (lit "qemu_args") key)) [
  | inl e ↦ inr (
      inr (
        sym (text_eq_sound (lit "qemu_args") key e),
        rw (lookup-insert key (lit "qemu_args") (words qemu_args) after, e) refl,
      ))
  | inr e ↦
      rw (lookup-insert key (lit "qemu_args") (words qemu_args) after, e)
        (elim (s key) [ inl gone ↦ inl gone | inr same ↦ inr (inl same) ])
]

SameFields-add :
    (b : Bool) (qemu_args : List Text) (args : Namespaces)
    → SameFields args
    → SameFields (if b then add_arg (lit "qemu_args") (words qemu_args) args else args)
unfolding add_arg
SameFields-add false qemu_args args same key = same key
SameFields-add true qemu_args args same key =
    rw
      (
        has_key-insert key (lit "qemu_args") (words qemu_args) args.parsed,
        has_key-insert key (lit "qemu_args") (words qemu_args) args.user_supplied,
        same key,
      )
      refl

-- What the constructor leaves when it ends with the namespaces `after`.
pub record Made (qemu_args : List Text) (before after : Namespaces) : Type 0 where
  pub same_fields : SameFields after
  pub parsed : Comes qemu_args before.parsed after.parsed
  pub user_supplied : Comes qemu_args before.user_supplied after.user_supplied

Kept-Made :
    (b : Bool) (qemu_args : List Text) (before after : Namespaces)
    → SameFields before
    → Kept before after
    → Made qemu_args before (if b then add_arg (lit "qemu_args") (words qemu_args) after else after)
unfolding add_arg
Kept-Made true q before after same k = record {
  same_fields = SameFields-add true q after (k.same_fields same);
  parsed = Comes-add true q before.parsed after.parsed k.parsed_shrinks;
  user_supplied = Comes-add true q before.user_supplied after.user_supplied k.user_supplied_shrinks;
}
Kept-Made false q before after same k = record {
  same_fields = SameFields-add false q after (k.same_fields same);
  parsed = Comes-add false q before.parsed after.parsed k.parsed_shrinks;
  user_supplied =
      Comes-add false q before.user_supplied after.user_supplied k.user_supplied_shrinks;
}

-- Where the two namespaces that argparse gives have the same fields, a `TransientArgs` that is made, of
-- any table of commands, has the same fields in both of its namespaces. In each, a field has the value
-- that argparse gave or is not there, except that `qemu_args` may be the list of QEMU's arguments; and the
-- verbosity is the field `verbose` of the parse.
pub transient_args-Made :
    (mapping : Mapping) (qemu_args : List Text) (args : Namespaces) (made : TransientArgs)
    → SameFields args
    → transient_args mapping qemu_args args ≡ ok made
    → Made qemu_args args made.args × (lookup (lit "verbose") args.parsed ≡ some made.verbosity)
unfolding transient_args
transient_args-Made mapping qemu_args args made same h =
    let (verbosity, given, h1) = >>=-eq-ok (attribute (lookup (lit "verbose") args.parsed)) _ h in
    let (left, removed, h2) = >>=-eq-ok (remove_arg (lit "verbose") args) _ h1 in
    let (found, located, h3) = >>=-eq-ok (locate mapping (lit "root_command") left) _ h2 in
    rw (← ok-injective h3) (
      Kept-Made found.1 qemu_args args found.2 same (
          Kept-trans (remove_arg-Kept (lit "verbose") args left removed)
            (locate-Kept mapping (lit "root_command") left found located)),
      attribute-eq-ok (lookup (lit "verbose") args.parsed) given,
    )
  where
    attribute-eq-ok : (o : Option Arg) {v : Arg} → attribute o ≡ ok v → o ≡ some v
    attribute-eq-ok none k = cc
    attribute-eq-ok (some w) k = ap some (ok-injective k)
