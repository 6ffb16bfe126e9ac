-- ===== src/Store/Name/Safe.antt =====
-- transient/store.py: which characters `storage_safe_encode` can put in a name.
use transient.Base.{
  ◌||◌, ==_iff, ap, false, All-append, true, ◌∙◌, has_char, All, Bool, ℕ, ◌<◌, ◌≡◌, refl, sym, Text,
  lit, ◌&&◌, not, List, [], ◌∷◌, ◌++◌, ◌==◌, if◌then◌else◌, replace_char, arith, Bool-cases, inl,
  inr, append_assoc,
}
use transient.Base.Utf8.{utf8_encode, IsScalar}
use transient.Base.Utf8.RoundTrip.{utf8_encode_bytes}
use transient.Store.Name.{
  quote, storage_safe_encode, quote_bytes, is_unreserved, hex_digit, percent,
}

-- What the encoding writes for a byte.
unfoldable pub escape : ℕ → Text
escape b = if is_unreserved b && not (b == b'-') then b ∷ [] else percent b

unfoldable pub escape_all : List ℕ → Text
escape_all [] = []
escape_all (b ∷ bs) = escape b ++ escape_all bs

pub replace_char-append :
    (c : ℕ) (t r s : Text) → replace_char c t (r ++ s) ≡ replace_char c t r ++ replace_char c t s
unfolding replace_char
replace_char-append c t [] s = refl
replace_char-append c t (d ∷ r) s = elim (Bool-cases (d == c)) [
  | inl e ↦ rw (e, replace_char-append c t r s) (sym (append_assoc t _ _))
  | inr e ↦ rw (e, replace_char-append c t r s)
]

escape_byte :
    (b : ℕ)
    → b < 256
    → replace_char b'-' (lit "%2D") (if is_unreserved b then b ∷ [] else percent b) ≡ escape b
unfolding replace_char lit escape percent hex_digit
escape_byte b h = ground arith

escape_bytes :
    (bs : List ℕ)
    → All (λ b. b < 256) bs
    → replace_char b'-' (lit "%2D") (quote_bytes bs) ≡ escape_all bs
unfolding quote_bytes escape_all
escape_bytes [] h = unfold replace_char in refl
escape_bytes (b ∷ bs) h =
    replace_char-append b'-' (lit "%2D") _ (quote_bytes bs)
    ∙ rw (escape_byte b h.0, escape_bytes bs h.1)

pub storage_safe_encode-eq-escape_all :
    (name : Text) → All IsScalar name → storage_safe_encode name ≡ escape_all (utf8_encode name)
unfolding storage_safe_encode quote
storage_safe_encode-eq-escape_all name h =
    escape_bytes (utf8_encode name) (utf8_encode_bytes name h)

-- The characters of an encoded name: unreserved ones without the dash, and the percent sign.
abbrev pub is_safe : ℕ → Bool
is_safe c = (is_unreserved c && not (c == b'-')) || c == b'%'

abbrev pub IsSafe : Text → Type 0
IsSafe = All (λ c. is_safe c ≡ true)

escape-IsSafe : (b : ℕ) → b < 256 → IsSafe (escape b)
unfolding escape percent hex_digit
escape-IsSafe b h = ground arith

escape_all-IsSafe : (bs : List ℕ) → All (λ b. b < 256) bs → IsSafe (escape_all bs)
unfolding escape_all
escape_all-IsSafe [] h = tt
escape_all-IsSafe (b ∷ bs) h =
    All-append (λ c. is_safe c ≡ true) (escape b) (escape_all bs) (escape-IsSafe b h.0)
      (escape_all-IsSafe bs h.1)

-- An encoded name holds letters, digits, "_", ".", "~" and "%" alone: so no dash, which separates
-- the parts of a frontend image's file name, and no slash.
pub storage_safe_encode-IsSafe :
    (name : Text) → All IsScalar name → IsSafe (storage_safe_encode name)
storage_safe_encode-IsSafe name h =
    rw (storage_safe_encode-eq-escape_all name h)
      (escape_all-IsSafe (utf8_encode name) (utf8_encode_bytes name h))

pub IsSafe-no_char : (c : ℕ) (s : Text) → is_safe c ≡ false → IsSafe s → has_char c s ≡ false
unfolding has_char
IsSafe-no_char c [] n h = refl
IsSafe-no_char c (d ∷ s) n h =
    rw (differ (c == d) (λ e. cc (n, h.0, ap is_safe ((==_iff c d).0 e))), has_char)
      (IsSafe-no_char c s n h.1)
  where
    differ : (b : Bool) → (b ≡ true → ⊥) → b ≡ false
    differ true f = absurd (f refl)
    differ false f = refl
