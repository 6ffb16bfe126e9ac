-- ===== src/Stream/Until.antt =====
-- transient/utils.py: `read_until` reads up to the end of the sentinel and no further.
use mathlib.Core.Path.{subst}
use transient.Base.{
  Bool, List, Option, [], all, ap, append-nil, append_assoc, arith, drop, false, if◌then◌else◌, inl,
  inr, leb, length, none, not, refl, some, starts_with, suc, sym, take, take-append-drop, true,
  zero, ℕ, ◌++◌, ◌+◌, ◌-◌, ◌∙◌, ◌∷◌, ◌≡◌, ◌≢◌, ◌≤◌, ◌⊎◌,
}
use transient.Store.State.{Bytes}
use transient.Stream.{
  Turn, waiting, not_ready, Reading, returned, timed_out, still, bytes_to_read, read_until,
  one_later, find,
}

minus_zero : (n : ℕ) → n - 0 ≡ n
minus_zero n = omega arith

minus_suc : (n m : ℕ) → n - m ≡ suc n - suc m
minus_suc n m = omega arith

starts_with-bound : (s t : Bytes) → starts_with s t ≡ true → length t ≤ length s
unfolding starts_with
starts_with-bound s [] h = omega arith
starts_with-bound [] (d ∷ t) h = cc
starts_with-bound (c ∷ s) (d ∷ t) h = ground (arith, starts_with-bound s t)

starts_with-append :
    (s t w : Bytes) → length t ≤ length s → starts_with (s ++ w) t ≡ starts_with s t
unfolding starts_with
starts_with-append s [] w h = refl
starts_with-append [] (d ∷ t) w h = ground arith
starts_with-append (c ∷ s) (d ∷ t) w h = ground (arith, starts_with-append s t w)

-- The first occurrence is at the head, or in the tail.
found_step :
    (t : Bool) (r : Option ℕ) (i : ℕ)
    → (if t then some 0 else one_later r) ≡ some i
    → ((t ≡ true) × (i ≡ 0)) ⊎ ((j : ℕ) × (r ≡ some j) × (i ≡ suc j) × (t ≡ false))
found_step true r i h = inl (refl, ground arith)
found_step false none i h = cc
found_step false (some j) i h = inr (j, refl, ground arith, refl)

absent_step :
    (t : Bool) (r : Option ℕ)
    → (if t then some 0 else one_later r) ≡ none
    → (t ≡ false) × (r ≡ none)
absent_step true r h = cc
absent_step false none h = (refl, refl)
absent_step false (some j) h = cc

-- Where an occurrence ends.
find-bound :
    (sentinel s : Bytes) (i : ℕ) → find sentinel s ≡ some i → i + length sentinel ≤ length s
unfolding find
find-bound [] [] i h = ground arith
find-bound (c ∷ t) [] i h = ground arith
find-bound sentinel (b ∷ s) i h =
    elim (found_step (starts_with (b ∷ s) sentinel) (find sentinel s) i h) [
      | inl (t, e) ↦ omega (arith, starts_with-bound (b ∷ s) sentinel t, e)
      | inr (j, k, e, _) ↦ omega (arith, find-bound sentinel s j k, e)
    ]

-- A first occurrence that appears when more bytes are there ends behind those that were there.
find-across :
    (sentinel buff more : Bytes) (i : ℕ)
    → find sentinel buff ≡ none
    → find sentinel (buff ++ more) ≡ some i
    → length buff ≤ i + length sentinel
unfolding find
find-across sentinel [] more i h k = omega arith
find-across sentinel (b ∷ buff) more i h k =
    let (f, g) = absent_step (starts_with (b ∷ buff) sentinel) (find sentinel buff) h in
    elim (found_step (starts_with ((b ∷ buff) ++ more) sentinel) (find sentinel (buff ++ more)) i
      k) [
        | inl (t, e) ↦ ground (arith, t, f, starts_with-append (b ∷ buff) sentinel more)
        | inr (j, m, e, _) ↦ omega (arith, find-across sentinel buff more j g m, e)
      ]

take-over :
    (n : ℕ) (xs ys : Bytes) → length xs ≤ n → take n (xs ++ ys) ≡ xs ++ take (n - length xs) ys
take-over n [] ys h = rw (minus_zero n)
take-over zero (x ∷ xs) ys h = ground arith
take-over (suc n) (x ∷ xs) ys h =
    ap (λ l. x ∷ l)
      (take-over n xs ys (omega (arith, h)) ∙ ap (λ m. xs ++ take m ys) (minus_suc n (length xs)))

-- The bytes that the turns have brought.
abbrev pub arrived : List Turn → Bytes
arrived [] = []
arrived (waiting peeked _ ∷ turns) = peeked ++ arrived turns
arrived (not_ready ∷ turns) = arrived turns

-- What the code reads, counted from the start of its buffer.
read_amount :
    (sentinel buff peeked : Bytes) (start : ℕ)
    → find sentinel buff ≡ none
    → find sentinel (buff ++ peeked) ≡ some start
    → buff ++ take (bytes_to_read sentinel buff start) peeked
      ≡ take (start + length sentinel) (buff ++ peeked)
unfolding bytes_to_read
read_amount sentinel buff peeked start h k =
    let far = find-across sentinel buff peeked start h k in
    sym (
      take-over (start + length sentinel) buff peeked far
      ∙ ap (λ n. buff ++ take n peeked) (amount (length buff) start (length sentinel) far))
  where
    amount : (b i s : ℕ) → b ≤ i + s → (i + s) - b ≡ (if leb b i then (i - b) + s else s - (b - i))
    amount b i s h = ground (arith, h)

-- What a `returned` says of the bytes that have arrived: those up to the end of the first sentinel are
-- the result, and the others are still in the source.
abbrev pub Exact : Bytes → Bytes → List Turn → Bytes → Bytes → List Turn → Type 0
Exact sentinel buff turns out left rest =
    (used : List Turn) × (start : ℕ) × (turns ≡ used ++ rest)
    × (find sentinel (buff ++ arrived used) ≡ some start)
    × (out ≡ take (start + length sentinel) (buff ++ arrived used))
    × (out ++ left ≡ buff ++ arrived used)

abbrev Reads : Bytes → Bytes → List Turn → Reading → Type 0
Reads sentinel buff turns (returned out left rest) = Exact sentinel buff turns out left rest
Reads sentinel buff turns (timed_out seen) = Unit
Reads sentinel buff turns (still seen) =
    (seen ≡ buff ++ arrived turns) × (find sentinel seen ≡ none)

Reads-later :
    (sentinel buff peeked : Bytes) (late : Bool) (turns : List Turn) (r : Reading)
    → Reads sentinel (buff ++ peeked) turns r
    → Reads sentinel buff (waiting peeked late ∷ turns) r
Reads-later sentinel buff peeked late turns (returned out left rest) (used, start, a, b, c, d) =
    let e = append_assoc buff peeked (arrived used) in
    (
      waiting peeked late ∷ used,
      start,
      ap (λ l. waiting peeked late ∷ l) a,
      rw (sym e, b),
      rw (sym e, c),
      rw (sym e, d),
    )
Reads-later sentinel buff peeked late turns (timed_out seen) u = tt
Reads-later sentinel buff peeked late turns (still seen) (a, b) =
    (a ∙ append_assoc buff peeked (arrived turns), b)

read_until-Reads :
    (sentinel buff : Bytes) (turns : List Turn)
    → find sentinel buff ≡ none
    → Reads sentinel buff turns (read_until sentinel buff turns)
unfolding read_until
read_until-Reads sentinel buff [] h = (sym (append-nil buff), h)
read_until-Reads sentinel buff (not_ready ∷ turns) h = tt
read_until-Reads sentinel buff (waiting peeked late ∷ turns) h =
    go (find sentinel (buff ++ peeked)) refl late (read_until-Reads sentinel (buff ++ peeked) turns)
  where
    go :
        (f : Option ℕ)
        → find sentinel (buff ++ peeked) ≡ f
        → (l : Bool)
        → (find sentinel (buff ++ peeked) ≡ none
            → Reads sentinel (buff ++ peeked) turns (read_until sentinel (buff ++ peeked) turns))
        → Reads sentinel buff (waiting peeked late ∷ turns) (elim f [
          | some start ↦
              let n = bytes_to_read sentinel buff start in
              returned (buff ++ take n peeked) (drop n peeked) turns
          | none ↦
              if l then timed_out (buff ++ peeked) else read_until sentinel (buff ++ peeked) turns
        ])
    go none e true again = tt
    go none e false again =
        Reads-later sentinel buff peeked late turns (read_until sentinel (buff ++ peeked) turns)
          (again e)
    go (some start) e l again =
        let n = bytes_to_read sentinel buff start in
        let nil = append-nil peeked in
        (
          waiting peeked late ∷ [],
          start,
          refl,
          rw (nil, e),
          read_amount sentinel buff peeked start h e
              ∙ ap (λ l. take (start + length sentinel) (buff ++ l)) (sym nil),
          append_assoc buff (take n peeked) (drop n peeked)
              ∙ ap (λ l. buff ++ l) (take-append-drop n peeked ∙ sym nil),
        )

nothing_yet : (c : ℕ) (sentinel : Bytes) → find (c ∷ sentinel) [] ≡ none
unfolding find
nothing_yet c sentinel = refl

-- What `read_until` returns ends with the first occurrence of the sentinel in what has arrived, and
-- nothing behind it is taken from the source: the result and what stays of the last peek are together the
-- bytes that have arrived. The sentinel is taken not to be empty.
pub read_until-Exact :
    (c : ℕ) (sentinel : Bytes) (turns : List Turn) (out left : Bytes) (rest : List Turn)
    → read_until (c ∷ sentinel) [] turns ≡ returned out left rest
    → Exact (c ∷ sentinel) [] turns out left rest
read_until-Exact c sentinel turns out left rest h =
    subst (Reads (c ∷ sentinel) [] turns) h
      (read_until-Reads (c ∷ sentinel) [] turns (nothing_yet c sentinel))

-- No turn ends the reading early.
abbrev pub is_patient : Turn → Bool
is_patient (waiting peeked late) = not late
is_patient not_ready = false

patient-not_late :
    (sentinel buff seen : Bytes) (turns : List Turn)
    → all is_patient turns ≡ true
    → read_until sentinel buff turns ≢ timed_out seen
unfolding read_until
patient-not_late sentinel buff seen [] p = λ h. cc
patient-not_late sentinel buff seen (not_ready ∷ turns) p = λ h. cc
patient-not_late sentinel buff seen (waiting peeked true ∷ turns) p = λ h. cc
patient-not_late sentinel buff seen (waiting peeked false ∷ turns) p =
    go (find sentinel (buff ++ peeked)) (patient-not_late sentinel (buff ++ peeked) seen turns p)
  where
    go :
        (f : Option ℕ)
        → (read_until sentinel (buff ++ peeked) turns ≢ timed_out seen)
        → (elim f [
          | some start ↦
              let n = bytes_to_read sentinel buff start in
              returned (buff ++ take n peeked) (drop n peeked) turns
          | none ↦ read_until sentinel (buff ++ peeked) turns
        ])
          ≢ timed_out seen
    go none again = again
    go (some start) again = λ h. cc

-- If no timeout passes and the sentinel is in the bytes that arrive, however they are divided, `read_until`
-- returns. The sentinel is taken not to be empty.
pub read_until_returns :
    (c : ℕ) (sentinel : Bytes) (turns : List Turn) (start : ℕ)
    → all is_patient turns ≡ true
    → find (c ∷ sentinel) (arrived turns) ≡ some start
    → (out : Bytes) × (left : Bytes) × (rest : List Turn) × (read_until (c ∷ sentinel) [] turns
        ≡ returned out left rest)
read_until_returns c sentinel turns start p f =
    go (read_until (c ∷ sentinel) [] turns) refl
      (read_until-Reads (c ∷ sentinel) [] turns (nothing_yet c sentinel))
  where
    go :
        (r : Reading)
        → read_until (c ∷ sentinel) [] turns ≡ r
        → Reads (c ∷ sentinel) [] turns r
        → (out : Bytes) × (left : Bytes) × (rest : List Turn) × (r ≡ returned out left rest)
    go (returned out left rest) e reads = (out, left, rest, refl)
    go (timed_out seen) e reads = elim (patient-not_late (c ∷ sentinel) [] seen turns p e) [ ]
    go (still seen) e (a, b) = cc (f, a, b)
