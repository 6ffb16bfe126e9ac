-- ===== src/Base/Utf8.antt =====
-- UTF-8 as `str.encode("utf-8")` and `bytes.decode("utf-8", errors="replace")` have it.
pub mod RoundTrip
use transient.Base.Tests.{ltb, between, ◌==◌, if◌then◌else◌}
use transient.Base.Strings.{Text}
use Prim.Native.Nat.{ℕ, zero, suc, ◌+◌, ◌-◌, ◌*◌, ◌/◌, ◌%◌, ◌<◌}
use mathlib.Core.Logic.{◌⊎◌}
use mathlib.Core.List.{List, [], ◌∷◌, ◌++◌}

-- The code points that are no surrogates: `encode` raises on the others.
abbrev pub IsScalar : ℕ → Type 0
IsScalar c = (c < 0xD800) ⊎ ((0xDFFF < c) × (c < 0x110000))

unfoldable pub encode_char : ℕ → List ℕ
encode_char c =
    if ltb c 0x80
    then c ∷ []
    else if ltb c 0x800
    then (0xC0 + c / 64) ∷ (0x80 + c % 64) ∷ []
    else if ltb c 0x10000
    then (0xE0 + c / 4096) ∷ (0x80 + c / 64 % 64) ∷ (0x80 + c % 64) ∷ []
    else (0xF0 + c / 262144) ∷ (0x80 + c / 4096 % 64) ∷ (0x80 + c / 64 % 64) ∷ (0x80 + c % 64) ∷ []

unfoldable pub utf8_encode : Text → List ℕ
unfolding encode_char
utf8_encode [] = []
utf8_encode (c ∷ s) = encode_char c ++ utf8_encode s

-- Between two bytes: nothing is pending, or `more` + 1 bytes are, of which the next lies between
-- `low` and `high`.
pub data Pending : Type 0 where
  start : Pending
  pending : ℕ → ℕ → ℕ → ℕ → Pending

abbrev pub replacement : ℕ
replacement = 0xFFFD

-- What the first byte of a character emits, and what is pending after it.
unfoldable pub lead : ℕ → Text × Pending
lead b =
    if ltb b 0x80
    then (b ∷ [], start)
    else if between 0xC2 0xDF b
    then ([], pending 0x80 0xBF 0 (b - 0xC0))
    else if between 0xE0 0xEF b
    then (
      [],
      pending (if b == 0xE0 then 0xA0 else 0x80) (if b == 0xED then 0x9F else 0xBF) 1 (b - 0xE0),
    )
    else if between 0xF0 0xF4 b
    then (
      [],
      pending (if b == 0xF0 then 0x90 else 0x80) (if b == 0xF4 then 0x8F else 0xBF) 2 (b - 0xF0),
    )
    else (replacement ∷ [], start)

abbrev replaced : Text × Pending → Text × Pending
replaced (out, p) = (replacement ∷ out, p)

-- A byte that cannot go on stands for one replacement and begins the next character.
unfoldable pub byte_step : Pending → ℕ → Text × Pending
unfolding lead
byte_step start b = lead b
byte_step (pending low high zero acc) b =
    if between low high b then ((acc * 64 + (b - 0x80)) ∷ [], start) else replaced (lead b)
byte_step (pending low high (suc more) acc) b =
    if between low high b
    then ([], pending 0x80 0xBF more (acc * 64 + (b - 0x80)))
    else replaced (lead b)

unfoldable pub decode_from : Pending → List ℕ → Text
unfolding byte_step
decode_from start [] = []
decode_from (pending _ _ _ _) [] = replacement ∷ []
decode_from p (b ∷ s) = let (out, p') = byte_step p b in out ++ decode_from p' s

unfoldable pub utf8_decode : List ℕ → Text
unfolding decode_from
utf8_decode = decode_from start
