-- ===== src/Store/Spec/Parse.antt =====
-- transient/store.py: how `ImageSpec` reads a specification.
use transient.Base.{
  ap, ◌∙◌, is_empty, if◌then◌else◌, ℕ, ◌≡◌, refl, ◌≢◌, false, Option, none, some, [], ◌∷◌, ◌++◌,
  arith, Text, lit, has_char, cut-append, cut, transient_error, Result, ok, err,
}
use transient.Store.Spec.{
  spec_of_groups, SpecGroups, with_source, match_name, match_spec, vagrant, find_protocol,
  image_spec, match_source, drop_final_newline, Protocol, ImageSpec,
}

-- Text with no newline loses nothing at its end.
drop_no_newline : (s : Text) → has_char 10 s ≡ false → drop_final_newline s ≡ s
unfolding drop_final_newline has_char
drop_no_newline [] h = refl
drop_no_newline (c ∷ []) h = ground arith
drop_no_newline (c ∷ d ∷ s) h = ground (arith, drop_no_newline (d ∷ s))

cut_of_no_char : (c : ℕ) (s : Text) → has_char c s ≡ false → cut c s ≡ none
unfolding cut has_char
cut_of_no_char c [] h = refl
cut_of_no_char c (d ∷ s) h = ground (arith, cut_of_no_char c s)

abbrev unknown : Text → Result ImageSpec
unknown proto = err (transient_error (lit "Unknown image source protocol '" ++ (proto ++ lit "'")))

abbrev pub chosen : Text → Text → Text → Option Protocol → Result ImageSpec
chosen name proto source none = unknown proto
chosen name proto source (some p) = ok (record { name = name; source_proto = p; source = source })

source_read :
    (c : ℕ) (p source : Text)
    → has_char b'=' p ≡ false
    → source ≢ []
    → has_char 10 ((c ∷ p) ++ (b'=' ∷ source)) ≡ false
    → match_source ((c ∷ p) ++ (b'=' ∷ source)) ≡ some (c ∷ p, source)
unfolding match_source
source_read c p [] np ns h = absurd (ns refl)
source_read c p (d ∷ source) np ns h = rw (h, cut-append b'=' p (d ∷ source) np, match_source)

match_cut :
    (s name rest : Text)
    → cut b',' s ≡ some (name, rest)
    → match_spec s
      ≡ (if is_empty name then none else with_source name (match_source (drop_final_newline rest)))
unfolding match_spec
match_cut s name rest e = rw (e, match_spec)

match_no_cut : (s : Text) → cut b',' s ≡ none → match_spec s ≡ match_name s
unfolding match_spec
match_no_cut s e = rw (e, match_spec)

match_three_parts :
    (n : ℕ) (name : Text) (c : ℕ) (p source : Text)
    → has_char b',' (n ∷ name) ≡ false
    → has_char b'=' p ≡ false
    → source ≢ []
    → has_char 10 ((c ∷ p) ++ (b'=' ∷ source)) ≡ false
    → match_spec ((n ∷ name) ++ (b',' ∷ ((c ∷ p) ++ (b'=' ∷ source))))
      ≡ some (record { name = n ∷ name; proto = some (c ∷ p); source = some source })
unfolding with_source
match_three_parts n name c p source nc np ns nl =
    let rest : Text = (c ∷ p) ++ (b'=' ∷ source) in
    match_cut ((n ∷ name) ++ (b',' ∷ rest)) (n ∷ name) rest (cut-append b',' (n ∷ name) rest nc)
    ∙ ap (λ r. with_source (n ∷ name) (match_source r)) (drop_no_newline rest nl)
    ∙ ap (with_source (n ∷ name)) (source_read c p source np ns nl)

match_one_part :
    (n : ℕ) (name : Text)
    → has_char b',' (n ∷ name) ≡ false
    → has_char 10 name ≡ false
    → match_spec (n ∷ name) ≡ some (record { name = n ∷ name; proto = none; source = none })
unfolding match_name
match_one_part n name nc nl =
    match_no_cut (n ∷ name) (cut_of_no_char b',' (n ∷ name) nc) ∙ rw (drop_no_newline name nl)

image_spec_of_match :
    (s : Text) (g : SpecGroups)
    → match_spec s ≡ some g
    → image_spec s ≡ spec_of_groups g.name g.proto g.source
unfolding image_spec
image_spec_of_match s g e = rw (e, image_spec)

-- A specification "name,proto=source", with no comma in the name, no "=" behind the first character
-- of the protocol, and no newline, is read as those three parts; the protocol is the first of the
-- three whose pattern matches, and if there is none, `ImageSpec` raises.
pub image_spec-three_parts :
    (n : ℕ) (name : Text) (c : ℕ) (p source : Text)
    → has_char b',' (n ∷ name) ≡ false
    → has_char b'=' p ≡ false
    → source ≢ []
    → has_char 10 ((c ∷ p) ++ (b'=' ∷ source)) ≡ false
    → image_spec ((n ∷ name) ++ (b',' ∷ ((c ∷ p) ++ (b'=' ∷ source))))
      ≡ chosen (n ∷ name) (c ∷ p) source (find_protocol (c ∷ p))
unfolding spec_of_groups
image_spec-three_parts n name c p source nc np ns nl =
    image_spec_of_match _ _ (match_three_parts n name c p source nc np ns nl) ∙ ground arith

-- A specification with no comma and no newline is a name, which Vagrant's protocol retrieves.
image_spec_of_name :
    (n : ℕ) (name : Text)
    → has_char b',' (n ∷ name) ≡ false
    → has_char 10 name ≡ false
    → image_spec (n ∷ name)
      ≡ ok (record { name = n ∷ name; source_proto = vagrant; source = n ∷ name })
unfolding spec_of_groups
image_spec_of_name n name nc nl = image_spec_of_match _ _ (match_one_part n name nc nl)
