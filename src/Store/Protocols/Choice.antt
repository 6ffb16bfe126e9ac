-- ===== src/Store/Protocols/Choice.antt =====
-- transient/store.py: which version, provider and name are chosen.
use transient.Base.{
  ℕ, ◌≡◌, refl, ap, inl, inr, Bool, true, false, ◌&&◌, Option, none, some, List, [], ◌∷◌, ◌++◌,
  arith, ◌==◌, ==_iff, Bool-cases, Option-cases, any, find?, All, Text, lit, text_eq, has_char, cut,
}
use transient.Store.Protocols.{Provider, VersionInfo, libvirt_url, version_url}

-- The first element that passes a test.
pub record First {A : Type 0} (p : A → Bool) (xs : List A) (x : A) : Type 0 where
  pub before : List A
  pub after : List A
  pub at : xs ≡ before ++ (x ∷ after)
  pub fail : All (λ y. p y ≡ false) before
  pub passes : p x ≡ true

module _ {A : Type 0} (p : A → Bool) where
  pub First-here : (x : A) (xs : List A) → p x ≡ true → First p (x ∷ xs) x
  First-here x xs h = record { before = []; after = xs; at = refl; fail = tt; passes = h }

  pub First-later : (y x : A) (xs : List A) → p y ≡ false → First p xs x → First p (y ∷ xs) x
  First-later y x xs h f = record {
    before = y ∷ f.before;
    after = f.after;
    at = ap (λ l. y ∷ l) f.at;
    fail = (h, f.fail);
    passes = f.passes;
  }

  pub find?-First : (xs : List A) (x : A) → find? p xs ≡ some x → First p xs x
  find?-First [] x h = cc
  find?-First (y ∷ xs) x h = elim (Bool-cases (p y)) [
    | inl e ↦ rw (← some_injective (rw e at h)) (First-here y xs e)
    | inr e ↦ First-later y x xs e (find?-First xs x (rw e at h))
  ]
    where
      some_injective : {a b : A} → some a ≡ some b → a ≡ b
      some_injective k = cc

pair_injective :
    {A B : Type 0} {a c : A} {b d : B}
    → ◌≡◌ {A = Option (A × B)} (some (a, b)) (some (c, d))
    → (a ≡ c) × (b ≡ d)
pair_injective h = (cc, cc)

pub cut-eq-some :
    (c : ℕ) (s a b : Text) → cut c s ≡ some (a, b) → (s ≡ a ++ (c ∷ b)) × (has_char c a ≡ false)
unfolding cut has_char
cut-eq-some c [] a b h = cc
cut-eq-some c (d ∷ s) a b h = go (d == c) refl (cut c s) (cut-eq-some c s) h
  where
    go :
        (t : Bool)
        → (d == c) ≡ t
        → (r : Option (Text × Text))
        → ((a b : Text) → r ≡ some (a, b) → (s ≡ a ++ (c ∷ b)) × (has_char c a ≡ false))
        → elim t as (λ _. Option (Text × Text)) [
          | true ↦ some ([], s)
          | false ↦ elim r as (λ _. Option (Text × Text)) [
            | none ↦ none
            | some (a, b) ↦ some (d ∷ a, b)
          ]
        ]
          ≡ some (a, b)
        → (d ∷ s ≡ a ++ (c ∷ b)) × (has_char c a ≡ false)
    go true e r ih k = let (x, y) = pair_injective k in rw (← x, ← y, (==_iff d c).0 e) (refl, refl)
    go false e none ih k = cc
    go false e (some (a', b')) ih k =
        let (x, y) = pair_injective k in
        let (p, q) = ih a' b' refl in rw (← x, ← y) (ap (λ l. d ∷ l) p, ground (arith, e, q))

-- A provider with the name "libvirt"
abbrev pub is_libvirt : Provider → Bool
is_libvirt p = text_eq p.name (lit "libvirt")

-- A version of that name which has such a provider
abbrev pub offers : Text → VersionInfo → Bool
offers version info = text_eq info.version version && any is_libvirt info.providers

libvirt_url-none : (ps : List Provider) → libvirt_url ps ≡ none → any is_libvirt ps ≡ false
unfolding libvirt_url
libvirt_url-none [] h = refl
libvirt_url-none (p ∷ ps) h = elim (Bool-cases (is_libvirt p)) [
  | inl e ↦ cc (rw e at h)
  | inr e ↦ rw e (libvirt_url-none ps (rw e at h))
]

libvirt_url-First :
    (ps : List Provider) (url : Text)
    → libvirt_url ps ≡ some url
    → (p : Provider) × First is_libvirt ps p × (url ≡ p.download_url) × (any is_libvirt ps ≡ true)
unfolding libvirt_url
libvirt_url-First [] url h = cc
libvirt_url-First (p ∷ ps) url h = elim (Bool-cases (is_libvirt p)) [
  | inl e ↦ (p, First-here is_libvirt p ps e, cc (rw e at h), rw e refl)
  | inr e ↦
      let (q, first, same, has) = libvirt_url-First ps url (rw e at h) in
      (q, First-later is_libvirt p q ps e first, same, rw (e, has) refl)
]

pub version_url-First :
    (version : Text) (vs : List VersionInfo) (url : Text)
    → version_url version vs ≡ some url
    → (info : VersionInfo) × (p : Provider) × First (offers version) vs info
      × First is_libvirt info.providers p
      × (url ≡ p.download_url)
unfolding version_url
version_url-First version [] url h = cc
version_url-First version (v ∷ vs) url h = elim (Bool-cases (text_eq v.version version)) [
  | inr e ↦
      let (info, p, first, provider, same) = version_url-First version vs url (rw e at h) in
      (info, p, First-later (offers version) v info vs (rw e refl) first, provider, same)
  | inl e ↦ elim (Option-cases (libvirt_url v.providers)) [
    | inl missing ↦
        let (info, p, first, provider, same) =
          version_url-First version vs url (rw (e, missing) at h) in
        (
          info,
          p,
          First-later (offers version) v info vs (rw (e, libvirt_url-none v.providers missing) refl)
              first,
          provider,
          same,
        )
    | inr (found, given) ↦
        let (p, provider, same, has) = libvirt_url-First v.providers found given in
        (
          v,
          p,
          First-here (offers version) v vs (rw (e, has) refl),
          provider,
          cc (rw (e, given) at h, same),
        )
  ]
]
