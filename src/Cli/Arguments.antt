-- ===== src/Cli/Arguments.antt =====
-- transient/cli.py: what is behind the first "--" is QEMU's.
use transient.Base.{
  ℕ, suc, ◌≡◌, refl, ap, ◌∙◌, Bool, true, false, ◌||◌, Option, none, some, List, [], ◌∷◌, ◌++◌,
  if◌then◌else◌, length, drop, any, take-length-append, Text, lit, text_eq, text_eq_refl,
}
use transient.Cli.{shifted, split_at, separator_index, split_arguments}

-- No argument is the separator.
abbrev pub has_separator : List Text → Bool
has_separator = any (λ arg. text_eq arg (lit "--"))

index_step :
    (t : Bool) (more : Bool) (r r' : Option ℕ)
    → (t || more) ≡ false
    → (more ≡ false → r ≡ r')
    → (if t then some 0 else shifted r) ≡ shifted r'
index_step true more r r' h again = cc
index_step false more r r' h again = ap shifted (again h)

separator_index-append :
    (args rest : List Text)
    → has_separator args ≡ false
    → separator_index (args ++ (lit "--" ∷ rest)) ≡ some (length args)
unfolding separator_index
separator_index-append [] rest h = rw (text_eq_refl (lit "--"))
separator_index-append (arg ∷ args) rest h =
    index_step (text_eq arg (lit "--")) (has_separator args)
      (separator_index (args ++ (lit "--" ∷ rest))) (some (length args)) h
      (separator_index-append args rest)

separator_index-none : (args : List Text) → has_separator args ≡ false → separator_index args ≡ none
unfolding separator_index
separator_index-none [] h = refl
separator_index-none (arg ∷ args) h =
    index_step (text_eq arg (lit "--")) (has_separator args) (separator_index args) none h
      (separator_index-none args)

-- What is behind a list and one more element.
behind :
    (args : List Text) (arg : Text) (rest : List Text)
    → drop (suc (length args)) (args ++ (arg ∷ rest)) ≡ rest
behind [] arg rest = refl
behind (a ∷ args) arg rest = behind args arg rest

-- The arguments before the first "--" are the program's and all behind it are QEMU's, whatever they are;
-- and if there is none, all are the program's. The name of the program is taken not to be "--".
split_arguments_lem :
    (prog : Text) (args rest : List Text)
    → text_eq prog (lit "--") ≡ false
    → has_separator args ≡ false
    → (split_arguments (prog ∷ args ++ (lit "--" ∷ rest)) ≡ (args, rest))
      × (split_arguments (prog ∷ args) ≡ (args, []))
unfolding split_arguments
split_arguments_lem prog args rest p h = (
  ap (split_at (prog ∷ args ++ (lit "--" ∷ rest)))
        (separator_index-append (prog ∷ args) rest (rw (p, h)))
      ∙ ap (λ l. (l, drop (suc (length args)) (args ++ (lit "--" ∷ rest))))
          (take-length-append args (lit "--" ∷ rest))
      ∙ ap (λ l. (args, l)) (behind args (lit "--") rest),
  ap (split_at (prog ∷ args)) (separator_index-none (prog ∷ args) (rw (p, h))),
)
