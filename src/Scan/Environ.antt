-- ===== src/Scan/Environ.antt =====
-- transient/scan.py, `_read_pid_environ`: it reads back the environment that a process was started with.
use transient.Base.{
  ℕ, ◌≡◌, refl, sym, ap, ◌∙◌, ◌≢◌, inl, inr, false, none, some, [], ◌∷◌, ◌++◌, map, append-nil,
  append_assoc, arith, ◌==◌, Bool-cases, All, Text, text_eq, text_eq_iff, has_char, strip, strip_by,
  lstrip_by, has_char-append, cut-append, split_of_no_char, split-append, split,
}
use mathlib.Core.List.{reverse, reverse-reverse, reverse-append}
use transient.Base.Dict.{Dict, lookup, insert, IsDict, insert_fresh, lookup-append}
use transient.Scan.{environ_of, read_pid_environ}

-- The file "environ" of a process, as the kernel shows it: every variable, with a NUL behind it.
abbrev pub variable : Text × Text → Text
variable (name, value) = name ++ (b'=' ∷ value)

unfoldable pub environ_file : Dict Text → Text
environ_file [] = []
environ_file ((name, value) ∷ environ) = name ++ (b'=' ∷ value ++ (0 ∷ environ_file environ))

-- What `os.environ` holds: no NUL, and names without "=".
abbrev pub IsVariable : Text × Text → Type 0
IsVariable (name, value) =
    (has_char b'=' name ≡ false) × (has_char 0 name ≡ false) × (has_char 0 value ≡ false)

-- The variables with a NUL between them
abbrev joined : Text × Text → Dict Text → Text
joined v [] = variable v
joined v (w ∷ environ) = variable v ++ (0 ∷ joined w environ)

environ_file-cons :
    (v : Text × Text) (environ : Dict Text)
    → environ_file (v ∷ environ) ≡ joined v environ ++ (0 ∷ [])
unfolding environ_file
environ_file-cons (n, x) [] = simp append_assoc
environ_file-cons (n, x) (w ∷ environ) =
    ap (λ r. n ++ (b'=' ∷ (x ++ (0 ∷ r)))) (environ_file-cons w environ) ∙ simp append_assoc

variable_no_nul : (v : Text × Text) → IsVariable v → has_char 0 (variable v) ≡ false
unfolding has_char
variable_no_nul (n, x) (a, b, c) = has_char-append 0 n (b'=' ∷ x) ∙ ground (arith, b, c)

split-joined :
    (v : Text × Text) (environ : Dict Text)
    → IsVariable v
    → All IsVariable environ
    → split 0 (joined v environ) ≡ map variable (v ∷ environ)
split-joined v [] h u = split_of_no_char 0 (variable v) (variable_no_nul v h)
split-joined v (w ∷ environ) h (k, u) =
    split-append 0 (variable v) (joined w environ) (variable_no_nul v h)
    ∙ ap (λ vs. variable v ∷ vs) (split-joined w environ k u)

middle_fresh :
    (k v : Text) (before environ : Dict Text)
    → IsDict (before ++ ((k, v) ∷ environ))
    → lookup k before ≡ none
unfolding lookup
middle_fresh k v [] environ d = refl
middle_fresh k v ((j, w) ∷ before) environ (fresh, d) = ground (
  arith,
  middle_fresh k v before environ d,
  lookup-append j before ((k, v) ∷ environ),
  text_eq_iff j k,
  text_eq_iff k j,
)

environ_of-variables :
    (environ before : Dict Text)
    → All IsVariable environ
    → IsDict (before ++ environ)
    → environ_of (map variable environ) before ≡ some (before ++ environ)
unfolding environ_of
environ_of-variables [] before u d = ap some (sym (append-nil before))
environ_of-variables ((n, x) ∷ environ) before (h, u) d =
    rw
      (
        environ_of,
        cut-append b'=' n x h.0,
        insert_fresh n x before (middle_fresh n x before environ d),
      )
      (environ_of-variables environ (before ++ ((n, x) ∷ [])) u
          (rw (append_assoc before ((n, x) ∷ []) environ) d)
        ∙ ap some (append_assoc before ((n, x) ∷ []) environ))

-- A text whose last character is not NUL
abbrev Ends : Text → Type 0
Ends s = (init : Text) × (c : ℕ) × (s ≡ init ++ (c ∷ [])) × ((c == 0) ≡ false)

Ends-behind : (a s : Text) → Ends s → Ends (a ++ s)
Ends-behind a s (init, c, e, h) =
    (a ++ init, c, ap (λ r. a ++ r) e ∙ sym (append_assoc a init (c ∷ [])), h)

Ends-variable : (x : Text) (c : ℕ) → has_char 0 (c ∷ x) ≡ false → Ends (c ∷ x)
unfolding has_char
Ends-variable [] c h = ([], c, refl, ground (arith, h))
Ends-variable (d ∷ x) c h = Ends-behind (c ∷ []) (d ∷ x) (Ends-variable x d (ground (arith, h)))

Ends-joined :
    (v : Text × Text) (environ : Dict Text)
    → IsVariable v
    → All IsVariable environ
    → Ends (joined v environ)
unfolding has_char
Ends-joined (n, x) [] (a, b, c) u =
    Ends-behind n (b'=' ∷ x) (Ends-variable x b'=' (ground (arith, c)))
Ends-joined v (w ∷ environ) h (k, u) =
    Ends-behind (variable v) (0 ∷ joined w environ)
      (Ends-behind (0 ∷ []) (joined w environ) (Ends-joined w environ k u))

lstrip_keeps :
    (n t : Text)
    → has_char 0 n ≡ false
    → lstrip_by (λ d. d == 0) (n ++ (b'=' ∷ t)) ≡ n ++ (b'=' ∷ t)
unfolding lstrip_by has_char
lstrip_keeps [] t h = refl
lstrip_keeps (c ∷ n) t h = ground arith

lstrip_reverse : (s : Text) → Ends s → lstrip_by (λ d. d == 0) (reverse s) ≡ reverse s
unfolding lstrip_by
lstrip_reverse s (init, c, e, h) = rw (e, reverse-append init (c ∷ [])) (rw (h, lstrip_by) refl)

strip_nul :
    (s : Text)
    → lstrip_by (λ d. d == 0) (s ++ (0 ∷ [])) ≡ s ++ (0 ∷ [])
    → Ends s
    → strip 0 (s ++ (0 ∷ [])) ≡ s
unfolding strip strip_by lstrip_by
strip_nul s front (init, c, e, h) =
    ap (λ r. reverse (lstrip_by (λ d. d == 0) (reverse r))) front
    ∙ ap (λ r. reverse (lstrip_by (λ d. d == 0) r)) (reverse-append s (0 ∷ []))
    ∙ ap reverse (lstrip_reverse s (init, c, e, h))
    ∙ reverse-reverse s

read_cons :
    (v : Text × Text) (environ : Dict Text)
    → IsDict (v ∷ environ)
    → IsVariable v
    → All IsVariable environ
    → read_pid_environ (some (environ_file (v ∷ environ))) ≡ some (v ∷ environ)
unfolding read_pid_environ
read_cons v environ d h u =
    ap (λ file. environ_of (split 0 (strip 0 file)) []) (environ_file-cons v environ)
    ∙ ap (λ body. environ_of (split 0 body) [])
        (strip_nul (joined v environ) (front v environ h) (Ends-joined v environ h u))
    ∙ ap (λ vs. environ_of vs []) (split-joined v environ h u)
    ∙ environ_of-variables (v ∷ environ) [] (h, u) d
  where
    front :
        (v : Text × Text) (environ : Dict Text)
        → IsVariable v
        → lstrip_by (λ d. d == 0) (joined v environ ++ (0 ∷ [])) ≡ joined v environ ++ (0 ∷ [])
    front (n, x) [] h = rw (append_assoc n (b'=' ∷ x) (0 ∷ [])) (lstrip_keeps n (x ++ (0 ∷ [])) h.1)
    front (n, x) (w ∷ environ) h =
        rw
          (
            append_assoc (variable (n, x)) (0 ∷ joined w environ) (0 ∷ []),
            append_assoc n (b'=' ∷ x) (0 ∷ (joined w environ ++ (0 ∷ []))),
          )
          (lstrip_keeps n (x ++ (0 ∷ (joined w environ ++ (0 ∷ [])))) h.1)

-- An environment with at least one variable is read back as it was.
pub read_pid_environ-environ_file :
    (environ : Dict Text)
    → environ ≢ []
    → IsDict environ
    → All IsVariable environ
    → read_pid_environ (some (environ_file environ)) ≡ some environ
read_pid_environ-environ_file [] some_variable d u = absurd (some_variable refl)
read_pid_environ-environ_file (v ∷ environ) some_variable d (h, u) = read_cons v environ d h u

pub insert-IsVariable :
    (name value : Text) (environ : Dict Text)
    → IsVariable (name, value)
    → All IsVariable environ
    → All IsVariable (insert name value environ)
unfolding insert
insert-IsVariable name value [] h u = (h, tt)
insert-IsVariable name value ((n, x) ∷ environ) h (k, u) = elim (Bool-cases (text_eq n name)) [
  | inl e ↦ rw e ((k.0, k.1, h.2), u)
  | inr e ↦ rw e (k, insert-IsVariable name value environ h u)
]

pub insert_ne_nil : (name value : Text) (environ : Dict Text) → insert name value environ ≢ []
unfolding insert
insert_ne_nil name value [] h = cc
insert_ne_nil name value ((n, x) ∷ environ) h = ground arith
