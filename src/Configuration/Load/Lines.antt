-- ===== src/Configuration/Load/Lines.antt =====
-- transient/configuration.py, `_line_number_of_option_in_config_file`: which line an error names.
use transient.Base.{
  contains, ℕ, suc, ◌+◌, ◌≡◌, refl, ap, ◌↔◌, inl, inr, true, Option, none, some, List, [], ◌∷◌,
  ◌++◌, arith, ◌==◌, Bool-cases, length, All, Text, starts_with,
}
use transient.Configuration.Load.{line_number_of_option, line_number_from}

-- `needle in s`, described by what stands before and behind the needle.
abbrev pub Occurs : Text → Text → Type 0
Occurs needle s = (before : Text) × (after : Text) × (s ≡ before ++ (needle ++ after))

starts_with_sound : (s t : Text) → starts_with s t ≡ true → (after : Text) × (s ≡ t ++ after)
unfolding starts_with
starts_with_sound s [] h = (s, refl)
starts_with_sound [] (d ∷ t) h = absurd cc
starts_with_sound (c ∷ s) (d ∷ t) h = elim (Bool-cases (c == d)) [
  | inl e ↦
      let (after, p) = starts_with_sound s t (ground (arith, e, h)) in (after, ground (arith, e, p))
  | inr e ↦ absurd (ground (arith, e, h))
]

starts_with_of_append : (t after : Text) → starts_with (t ++ after) t ≡ true
unfolding starts_with
starts_with_of_append [] after = refl
starts_with_of_append (d ∷ t) after = ground (arith, starts_with_of_append t after)

contains_sound : (needle s : Text) → contains needle s ≡ true → Occurs needle s
unfolding contains
contains_sound needle [] h = let (after, p) = starts_with_sound [] needle h in ([], after, p)
contains_sound needle (c ∷ s) h = elim (Bool-cases (starts_with (c ∷ s) needle)) [
  | inl e ↦ let (after, p) = starts_with_sound (c ∷ s) needle e in ([], after, p)
  | inr e ↦
      let (before, after, p) = contains_sound needle s (ground (arith, e, h)) in
      (c ∷ before, after, ap (λ r. c ∷ r) p)
]

contains_behind :
    (before needle after : Text) → contains needle (before ++ (needle ++ after)) ≡ true
unfolding contains
contains_behind (c ∷ before) needle after = ground (arith, contains_behind before needle after)
contains_behind [] [] [] = refl
contains_behind [] [] (c ∷ after) = refl
contains_behind [] (d ∷ needle) after = ground (arith, starts_with_of_append (d ∷ needle) after)

contains_iff : (needle s : Text) → (contains needle s ≡ true) ↔ Occurs needle s
contains_iff needle s =
    (contains_sound needle s, λ (before, after, p). rw p (contains_behind before needle after))

-- The line that is named, counted from one: it has the option in it, and no line before it has. None is
-- named only if no line has.
abbrev pub Names : Text → ℕ → List Text → Option ℕ → Type 0
Names option n lines none = All (λ line. ¬ Occurs option line) lines
Names option n lines (some k) =
    (before : List Text) × (line : Text) × (after : List Text) × (lines ≡ before ++ (line ∷ after))
    × (k ≡ n + length before)
    × Occurs option line
    × All (λ earlier. ¬ Occurs option earlier) before

Names-later :
    (option line : Text) (n : ℕ) (lines : List Text) (r : Option ℕ)
    → ¬ Occurs option line
    → Names option (suc n) lines r
    → Names option n (line ∷ lines) r
Names-later option line n lines none without names = (without, names)
Names-later option line n lines (some k) without (before, found, after, p, q, has, earlier) =
    (line ∷ before, found, after, ap (λ r. line ∷ r) p, ground (arith, q), has, (without, earlier))

line_number_from-Names :
    (n : ℕ) (option : Text) (lines : List Text)
    → Names option n lines (line_number_from n option lines)
unfolding line_number_from
line_number_from-Names n option [] = tt
line_number_from-Names n option (line ∷ lines) = elim (Bool-cases (contains option line)) [
  | inl e ↦ rw e ([], line, lines, refl, omega arith, contains_sound option line e, tt)
  | inr e ↦ rw e (
      Names-later option line n lines (line_number_from (suc n) option lines)
        (λ occurs. ground (arith, e, (contains_iff option line).1 occurs))
        (line_number_from-Names (suc n) option lines))
]

-- The line number that the error of an option names, counted from one, is that of the first line of
-- the file that has the option's name in it as a substring, and none is named only if no line has.
pub line_number_of_option-Names :
    (option : Text) (lines : List Text) → Names option 1 lines (line_number_of_option option lines)
unfolding line_number_of_option
line_number_of_option-Names option lines = line_number_from-Names 1 option lines
