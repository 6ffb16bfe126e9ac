-- ===== src/Base/Strings.antt =====
-- Texts as lists of code points, with the `str` methods that the program uses.
use Prim.Native.Nat.{ℕ, ◌+◌, ◌-◌}
use Prim.Native.Char.{code}
use Prim.Native.String.{String}
use mathlib.Core.Path.{◌≡◌, refl}
use mathlib.Core.Logic.{◌↔◌}
use mathlib.Core.Bool.{Bool, true, false, ◌&&◌, ◌||◌}
use mathlib.Core.List.{List, [], ◌∷◌, ◌++◌, map, reverse}
use mathlib.Core.Option.{Option, none, some}
use native.Mathlib.Omega.{arith}
use transient.Base.Tests.{◌==◌, between, if◌then◌else◌}

abbrev pub Text : Type 0
Text = List ℕ

abbrev codes : String → Text
codes String.[] = []
codes (String.◌∷◌ c s) = code c ∷ codes s

-- A literal. It stays shut in proofs that do not look at its characters.
unfoldable pub lit : String → Text
lit s = codes s

-- `s == t`
unfoldable pub text_eq : Text → Text → Bool
text_eq [] [] = true
text_eq [] (d ∷ t) = false
text_eq (c ∷ s) [] = false
text_eq (c ∷ s) (d ∷ t) = c == d && text_eq s t

pub text_eq_sound : (s t : Text) → text_eq s t ≡ true → s ≡ t
unfolding text_eq
text_eq_sound [] [] h = refl
text_eq_sound [] (d ∷ t) h = cc
text_eq_sound (c ∷ s) [] h = cc
text_eq_sound (c ∷ s) (d ∷ t) h = ground (arith, text_eq_sound s t)

pub text_eq_refl : (s : Text) → text_eq s s ≡ true
unfolding text_eq
text_eq_refl [] = refl
text_eq_refl (c ∷ s) = ground (arith, text_eq_refl s)

pub text_eq_iff : (s t : Text) → (text_eq s t ≡ true) ↔ (s ≡ t)
text_eq_iff s t = (text_eq_sound s t, λ p. rw p (text_eq_refl t))

-- `s.startswith(t)`
unfoldable pub starts_with : Text → Text → Bool
starts_with s [] = true
starts_with [] (d ∷ t) = false
starts_with (c ∷ s) (d ∷ t) = c == d && starts_with s t

-- `s.endswith(t)`
unfoldable pub ends_with : Text → Text → Bool
unfolding starts_with
ends_with s t = starts_with (reverse s) (reverse t)

-- `needle in s`
unfoldable pub contains : Text → Text → Bool
unfolding starts_with
contains needle [] = starts_with [] needle
contains needle (c ∷ s) = starts_with (c ∷ s) needle || contains needle s

-- `c in s`, for one character
unfoldable pub has_char : ℕ → Text → Bool
has_char c [] = false
has_char c (d ∷ s) = if c == d then true else has_char c s

-- `s.upper()` and `s.lower()` on one ASCII character; other characters stand as they are.
unfoldable pub upper_char : ℕ → ℕ
upper_char c = if between b'a' b'z' c then c - 32 else c

unfoldable pub lower_char : ℕ → ℕ
lower_char c = if between b'A' b'Z' c then c + 32 else c

unfoldable pub upper : Text → Text
unfolding upper_char
upper = map upper_char

unfoldable pub lower : Text → Text
unfolding lower_char
lower = map lower_char

-- `sep.join(parts)`
unfoldable pub join : Text → List Text → Text
join sep [] = []
join sep (p ∷ []) = p
join sep (p ∷ q ∷ ps) = p ++ (sep ++ join sep (q ∷ ps))

-- `s.replace(c, t)`, for one character `c`
unfoldable pub replace_char : ℕ → Text → Text → Text
replace_char c t [] = []
replace_char c t (d ∷ s) = let rest = replace_char c t s in if d == c then t ++ rest else d ∷ rest

unfoldable pub lstrip_by : (ℕ → Bool) → Text → Text
lstrip_by p [] = []
lstrip_by p (d ∷ s) = elim (p d) [ true ↦ lstrip_by p s | false ↦ d ∷ s ]

unfoldable pub strip_by : (ℕ → Bool) → Text → Text
unfolding lstrip_by
strip_by p s = reverse (lstrip_by p (reverse (lstrip_by p s)))

-- `s.lstrip(c)` and `s.strip(c)`, for one character `c`
unfoldable pub lstrip : ℕ → Text → Text
unfolding lstrip_by
lstrip c = lstrip_by (λ d. d == c)

unfoldable pub strip : ℕ → Text → Text
unfolding strip_by
strip c = strip_by (λ d. d == c)

-- `c.isspace()`
abbrev pub is_space : ℕ → Bool
is_space c =
    between 9 13 c
    || (between 28 32 c
        || (c == 0x85
            || (c == 0xA0
                || (c == 0x1680
                    || (between 0x2000 0x200A c
                        || (between 0x2028 0x2029 c
                            || (c == 0x202F || (c == 0x205F || c == 0x3000))))))))

-- `s.strip()`
unfoldable pub strip_spaces : Text → Text
unfolding strip_by
strip_spaces = strip_by is_space

abbrev to_head : ℕ → List Text → List Text
to_head d [] = (d ∷ []) ∷ []
to_head d (p ∷ ps) = (d ∷ p) ∷ ps

-- `s.split(c)`, for one character `c`. The result is never empty.
unfoldable pub split : ℕ → Text → List Text
split c [] = [] ∷ []
split c (d ∷ s) = let rest = split c s in if d == c then [] ∷ rest else to_head d rest

-- What stands before and behind the first `c`, if there is one: `s.split(c, 1)`.
unfoldable pub cut : ℕ → Text → Option (Text × Text)
cut c [] = none
cut c (d ∷ s) = elim (d == c) [
  | true ↦ some ([], s)
  | false ↦ elim (cut c s) [ none ↦ none | some (a, b) ↦ some (d ∷ a, b) ]
]

pub has_char-append :
    (c : ℕ) (s t : Text) → has_char c (s ++ t) ≡ (if has_char c s then true else has_char c t)
unfolding has_char
has_char-append c [] t = refl
has_char-append c (d ∷ s) t = ground (arith, has_char-append c s t)

-- The text before the first `c` and the text behind it.
pub cut-append : (c : ℕ) (s t : Text) → has_char c s ≡ false → cut c (s ++ (c ∷ t)) ≡ some (s, t)
unfolding cut has_char
cut-append c [] t h = ground arith
cut-append c (d ∷ s) t h = ground (arith, cut-append c s t)

pub split_of_no_char : (c : ℕ) (s : Text) → has_char c s ≡ false → split c s ≡ s ∷ []
unfolding split has_char
split_of_no_char c [] h = refl
split_of_no_char c (d ∷ s) h = ground (arith, split_of_no_char c s)

pub split-append :
    (c : ℕ) (s t : Text) → has_char c s ≡ false → split c (s ++ (c ∷ t)) ≡ s ∷ split c t
unfolding split has_char
split-append c [] t h = ground arith
split-append c (d ∷ s) t h = ground (arith, split-append c s t)
