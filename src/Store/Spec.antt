-- ===== src/Store/Spec.antt =====
-- transient/store.py: `ImageSpec`, with the regular expression `_IMAGE_SPEC` and the protocols.
pub mod Parse
use transient.Base.{
  ℕ, Bool, true, false, ◌&&◌, ◌||◌, Option, none, some, List, [], ◌∷◌, ◌++◌, ◌==◌, if◌then◌else◌,
  find?, is_empty, Text, lit, has_char, lower_char, cut, transient_error, Result, ok, err,
}

-- The groups of `^([^,]+?)(?:,(.+?)=(.+))?$`.
pub record SpecGroups : Type 0 where
  pub name : Text
  pub proto : Option Text
  pub source : Option Text

-- "$" also matches before a newline that ends the text.
unfoldable pub drop_final_newline : Text → Text
drop_final_newline [] = []
drop_final_newline (c ∷ []) = if c == 10 then [] else c ∷ []
drop_final_newline (c ∷ d ∷ s) = c ∷ drop_final_newline (d ∷ s)

-- With no comma the name is the whole text.
match_name : Text → Option SpecGroups
unfolding drop_final_newline
match_name [] = none
match_name (c ∷ s) = some (record { name = c ∷ drop_final_newline s; proto = none; source = none })

-- "(.+?)=(.+)": the protocol has one character at least, and ends before the first "=" behind it.
-- "." matches no newline.
match_source : Text → Option (Text × Text)
unfolding cut has_char
match_source [] = none
match_source (c ∷ s) = if has_char 10 (c ∷ s) then none else elim (cut b'=' s) [
  | none ↦ none
  | some (p, source) ↦ if is_empty source then none else some (c ∷ p, source)
]

with_source : Text → Option (Text × Text) → Option SpecGroups
with_source name none = none
with_source name (some (proto, source)) =
    some (record { name = name; proto = some proto; source = some source })

-- `_IMAGE_SPEC.match(spec)`
unfoldable pub match_spec : Text → Option SpecGroups
unfolding match_name match_source with_source drop_final_newline cut
match_spec s = elim (cut b',' s) [
  | none ↦ match_name s
  | some (name, rest) ↦
      if is_empty name then none else with_source name (match_source (drop_final_newline rest))
]

-- `VagrantImageProtocol`, `HttpImageProtocol`, `FileImageProtocol`
pub data Protocol : Type 0 where
  vagrant http file : Protocol

-- A letter `p` of a pattern under `re.IGNORECASE`: "i" matches two more letters.
abbrev letter_matches : ℕ → ℕ → Bool
letter_matches p c = lower_char c == p || (p == b'i' && (c == 0x130 || c == 0x131))

prefix_matches : Text → Text → Bool
unfolding lower_char
prefix_matches [] s = true
prefix_matches (p ∷ ps) [] = false
prefix_matches (p ∷ ps) (c ∷ s) = letter_matches p c && prefix_matches ps s

-- `BaseImageProtocol.matches`
unfoldable pub matches : Protocol → Text → Bool
unfolding prefix_matches lit
matches vagrant s = prefix_matches (lit "vagrant") s
matches http s = prefix_matches (lit "http") s
matches file s = prefix_matches (lit "file") s

-- `_IMAGE_PROTOCOLS`
abbrev pub image_protocols : List Protocol
image_protocols = vagrant ∷ http ∷ file ∷ []

-- The loop over `_IMAGE_PROTOCOLS`.
unfoldable pub find_protocol : Text → Option Protocol
unfolding matches
find_protocol s = find? (λ p. matches p s) image_protocols

pub record ImageSpec : Type 0 where
  pub name : Text
  pub source_proto : Protocol
  pub source : Text

unfoldable pub spec_of_groups : Text → Option Text → Option Text → Result ImageSpec
unfolding find_protocol
spec_of_groups name none _ = ok (record { name = name; source_proto = vagrant; source = name })
spec_of_groups name (some proto) source = elim (find_protocol proto) [
  | none ↦ err (transient_error (lit "Unknown image source protocol '" ++ (proto ++ lit "'")))
  | some p ↦
      ok (record { name = name; source_proto = p; source = elim source [ none ↦ [] | some s ↦ s ] })
]

-- `ImageSpec.__init__`
unfoldable pub image_spec : Text → Result ImageSpec
unfolding match_spec spec_of_groups
image_spec s = elim (match_spec s) [
  | none ↦ err (transient_error (lit "Invalid image spec '" ++ (s ++ lit "'")))
  | some g ↦ spec_of_groups g.name g.proto g.source
]
