-- ===== src/Scan/Filters.antt =====
-- transient/scan.py: the tests of what an instance wrote.
use transient.Base.{
  ok-injective, ◌≡◌, refl, ap, ◌∙◌, ◌↔◌, Bool, true, false, not, Option, none, some, if◌then◌else◌,
  Text, lit, text_eq_sound, text_eq_refl, Result, ok, >>=-eq-ok,
}
use transient.Base.Dict.{Dict, lookup, has_key}
use transient.Scan.{
  or_key_error, Json, text, number, null, boolean, item, path_of, json_is, in_vmstore, has_name,
  has_ssh,
}

or_key_error-eq-ok : {V : Type 0} (o : Option V) {v : V} → or_key_error o ≡ ok v → o ≡ some v
or_key_error-eq-ok none h = cc
or_key_error-eq-ok (some w) h = ap some (ok-injective h)

pub item-eq-ok :
    {V : Type 0} (key : Text) (d : Dict V) {v : V} → item key d ≡ ok v → lookup key d ≡ some v
unfolding item
item-eq-ok key d h = or_key_error-eq-ok (lookup key d) h

pub lookup-item :
    {V : Type 0} (key : Text) (d : Dict V) {v : V} → lookup key d ≡ some v → item key d ≡ ok v
unfolding item
lookup-item key d h = ap or_key_error h

-- A test that did not skip the process holds.
pub unless :
    {A : Type 0} (b : Bool) {r : Result (Option A)} {a : A}
    → (if not b then ok none else r) ≡ ok (some a)
    → (b ≡ true) × (r ≡ ok (some a))
unless true h = (refl, h)
unless false h = cc

-- The store that is asked for is the object's, up to `realpath`.
abbrev pub Stored : (Text → Text) → Option Text → Dict Json → Type 0
Stored realpath none entry = Unit
Stored realpath (some vmstore) entry =
    (path : Text) × (lookup (lit "vmstore") entry ≡ some (text path))
    × (realpath path ≡ realpath vmstore)

abbrev pub Named : Option Text → Dict Json → Type 0
Named none entry = Unit
Named (some name) entry = lookup (lit "name") entry ≡ some (text name)

module _ (realpath : Text → Text) where
  pub in_vmstore-Stored :
      (v : Option Text) (entry : Dict Json)
      → in_vmstore realpath v entry ≡ ok true
      → Stored realpath v entry
  unfolding in_vmstore
  in_vmstore-Stored none entry h = tt
  in_vmstore-Stored (some v) entry h =
      let (j, found, rest) = >>=-eq-ok (item (lit "vmstore") entry) _ h in
      let (path, is_path, same) = >>=-eq-ok (path_of j) _ rest in
      (
        path,
        item-eq-ok (lit "vmstore") entry found ∙ ap some (of_path j path is_path),
        text_eq_sound _ _ (ok-injective same),
      )
    where
      of_path : (j : Json) (path : Text) → path_of j ≡ ok path → j ≡ text path
      of_path (text t) path h = ap text (ok-injective h)
      of_path null path h = cc
      of_path (number n) path h = cc
      of_path (boolean b) path h = cc

  pub Stored-in_vmstore :
      (v : Option Text) (entry : Dict Json)
      → Stored realpath v entry
      → in_vmstore realpath v entry ≡ ok true
  unfolding in_vmstore
  Stored-in_vmstore none entry s = refl
  Stored-in_vmstore (some v) entry (path, found, same) =
      rw (lookup-item (lit "vmstore") entry found, same, text_eq_refl (realpath v)) refl

pub has_name-Named :
    (n : Option Text) (entry : Dict Json) → has_name n entry ≡ ok true → Named n entry
unfolding has_name
has_name-Named none entry h = tt
has_name-Named (some n) entry h =
    let (j, found, rest) = >>=-eq-ok (item (lit "name") entry) _ h in
    item-eq-ok (lit "name") entry found ∙ ap some (is_text j (ok-injective rest))
  where
    is_text : (j : Json) → json_is n j ≡ true → j ≡ text n
    is_text (text t) h = ap text (text_eq_sound t n h)
    is_text null h = cc
    is_text (number m) h = cc
    is_text (boolean b) h = cc

pub Named-has_name :
    (n : Option Text) (entry : Dict Json) → Named n entry → has_name n entry ≡ ok true
unfolding has_name
Named-has_name none entry h = refl
Named-has_name (some n) entry h = rw (lookup-item (lit "name") entry h, text_eq_refl n) refl

pub has_ssh-true :
    (b : Bool) (entry : Dict Json)
    → (has_ssh b entry ≡ true) ↔ (b ≡ true → has_key (lit "ssh_port") entry ≡ true)
unfolding has_ssh
has_ssh-true true entry = (λ h yes. h, λ h. h refl)
has_ssh-true false entry = (λ h yes. cc, λ h. refl)
