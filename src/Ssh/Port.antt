-- ===== src/Ssh/Port.antt =====
-- transient/ssh.py: `find_ssh_port_forward`, on what QEMU's monitor answers to "info usernet". Its
-- characters are ASCII, as are the digits that `\d` matches.
use transient.Base.{
  ℕ, Bool, not, ◌&&◌, Option, none, some, List, [], ◌∷◌, if◌then◌else◌, drop, all, is_empty, Text,
  lit, text_eq, is_space, split, runtime_error, Result, ok, err,
}
use transient.Base.Decimal.{read_nat}

abbrev onto_first : ℕ → List Text → List Text
onto_first c [] = (c ∷ []) ∷ []
onto_first c (w ∷ ws) = (c ∷ w) ∷ ws

-- The runs between whitespace characters, empty ones included.
unfoldable pub split_spaces : Text → List Text
split_spaces [] = [] ∷ []
split_spaces (c ∷ s) =
    let rest = split_spaces s in if is_space c then [] ∷ rest else onto_first c rest

abbrev is_blank : List Text → Bool
is_blank ws = all is_empty ws

-- The words of the runs, each with whether whitespace follows it.
unfoldable pub words_of : List Text → List (Text × Bool)
words_of [] = []
words_of ([] ∷ runs) = words_of runs
words_of ((c ∷ w) ∷ runs) = (c ∷ w, not (is_empty runs)) ∷ words_of runs

abbrev or_try : Option ℕ → Option ℕ → Option ℕ
or_try (some n) other = some n
or_try none other = other

-- `\s+(\d+)\s+\S+\s+22\s+`: a number, any word, and the word 22 with whitespace behind it
unfoldable pub port_before_22 : List (Text × Bool) → Option ℕ
port_before_22 ((port, _) ∷ (_, _) ∷ (target, spaced) ∷ words) =
    if text_eq target (lit "22") && spaced then read_nat port else none
port_before_22 _ = none

-- `(?:\s+\S+){,2}`: two words are skipped if that leads to a match, else one, else none.
unfoldable pub after_forward : List (Text × Bool) → Option ℕ
unfolding port_before_22
after_forward words =
    or_try (port_before_22 (drop 2 words))
      (or_try (port_before_22 (drop 1 words)) (port_before_22 words))

-- The pattern on one line, which begins with whitespace.
unfoldable pub match_forward : Text → Option ℕ
unfolding after_forward words_of split_spaces
match_forward [] = none
match_forward (c ∷ line) =
    if is_space c
    then elim (words_of (split_spaces line)) [
      | [] ↦ none
      | word ∷ words ↦
          if text_eq word.0 (lit "TCP[HOST_FORWARD]") then after_forward words else none
    ]
    else none

unfoldable pub first_forward : List Text → Result ℕ
unfolding match_forward
first_forward [] = err (runtime_error (lit "Unable to locate SSH port"))
first_forward (line ∷ lines) = elim (match_forward line) [
  | some port ↦ ok port
  | none ↦ first_forward lines
]

-- `find_ssh_port_forward`, on the answer
unfoldable pub find_ssh_port_forward : Text → Result ℕ
unfolding first_forward
find_ssh_port_forward resp = first_forward (split 10 resp)
