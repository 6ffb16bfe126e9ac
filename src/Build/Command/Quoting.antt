-- ===== src/Build/Command/Quoting.antt =====
-- transient/build.py, `GuestChrootCommand`: the quoting of a command for the guest's shell.
use transient.Base.{
  ℕ, ◌≡◌, refl, Option, none, some, [], ◌∷◌, ◌++◌, arith, ◌==◌, if◌then◌else◌, Text, lit,
  replace_char,
}
use transient.Build.Command.{escape_quotes, single_quote}

-- Where a POSIX shell stands in a word: outside quotes, inside single quotes, behind a backslash.
pub data Mode : Type 0 where
  outside quoted escaped : Mode

-- One character of a word that is made of quoted parts and backslashed characters alone.
unfoldable pub shell_step : Mode → ℕ → Option (Text × Mode)
shell_step quoted c = if c == single_quote then some ([], outside) else some (c ∷ [], quoted)
shell_step escaped c = some (c ∷ [], outside)
shell_step outside c =
    if c == single_quote then some ([], quoted) else if c == b'\\' then some ([], escaped) else none

abbrev prepend : Text → Option Text → Option Text
prepend out none = none
prepend out (some t) = some (out ++ t)

-- What the shell reads as the word.
unfoldable pub shell_word : Mode → Text → Option Text
unfolding shell_step
shell_word outside [] = some []
shell_word quoted [] = none
shell_word escaped [] = none
shell_word m (c ∷ s) = elim (shell_step m c) [
  | none ↦ none
  | some (out, m') ↦ prepend out (shell_word m' s)
]

quoted_rest : (cmd : Text) → shell_word quoted (escape_quotes cmd ++ (single_quote ∷ [])) ≡ some cmd
unfolding shell_word escape_quotes replace_char lit
quoted_rest [] = refl
quoted_rest (c ∷ cmd) = ground (arith, quoted_rest cmd)

-- The quoted command is one word of the shell, and the word is the command, whatever it holds.
pub shell_word-escape_quotes :
    (cmd : Text)
    → shell_word outside (single_quote ∷ (escape_quotes cmd ++ (single_quote ∷ []))) ≡ some cmd
unfolding shell_word
shell_word-escape_quotes cmd = rw (quoted_rest cmd)
