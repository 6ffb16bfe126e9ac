-- ===== src/Base/Utf8/RoundTrip.antt =====
-- UTF-8: what is encoded is decoded again.
use transient.Base.Tests.{◌==◌, if◌then◌else◌}
use transient.Base.Lists.{All, All-append}
use transient.Base.Strings.{Text}
use transient.Base.Utf8.{
  IsScalar, encode_char, utf8_encode, start, pending, byte_step, decode_from, utf8_decode,
}
use Prim.Native.Nat.{ℕ, suc, ◌+◌, ◌*◌, ◌/◌, ◌%◌, ◌<◌, ◌≤◌}
use mathlib.Core.Path.{◌≡◌, refl, ap, ◌∙◌}
use mathlib.Core.List.{List, [], ◌∷◌, ◌++◌}
use native.Mathlib.Omega.{arith}

one_byte : (c : ℕ) (s : List ℕ) → c < 0x80 → decode_from start (c ∷ s) ≡ c ∷ decode_from start s
unfolding decode_from
one_byte c s h = ground arith

two_bytes :
    (c : ℕ) (s : List ℕ)
    → 0x80 ≤ c
    → c < 0x800
    → decode_from start ((0xC0 + c / 64) ∷ (0x80 + c % 64) ∷ s) ≡ c ∷ decode_from start s
unfolding decode_from
two_bytes c s h k = ground arith

abbrev low_of : ℕ → ℕ
low_of b = if b == 0 then 0xA0 else 0x80

abbrev high_of : ℕ → ℕ
high_of b = if b == 13 then 0x9F else 0xBF

lead_three :
    (b : ℕ) → b < 16 → byte_step start (0xE0 + b) ≡ ([], pending (low_of b) (high_of b) 1 b)
unfolding byte_step
lead_three b h = ground arith

second :
    (low high more acc d : ℕ)
    → low ≤ 0x80 + d
    → 0x80 + d ≤ high
    → byte_step (pending low high (suc more) acc) (0x80 + d)
      ≡ ([], pending 0x80 0xBF more (acc * 64 + d))
unfolding byte_step
second low high more acc d h k = ground arith

last :
    (acc d : ℕ)
    → d < 64
    → byte_step (pending 0x80 0xBF 0 acc) (0x80 + d) ≡ ((acc * 64 + d) ∷ [], start)
unfolding byte_step
last acc d h = ground arith

three_bytes :
    (c : ℕ) (s : List ℕ)
    → 0x800 ≤ c
    → c < 0x10000
    → IsScalar c
    → decode_from start ((0xE0 + c / 4096) ∷ (0x80 + c / 64 % 64) ∷ (0x80 + c % 64) ∷ s)
      ≡ c ∷ decode_from start s
unfolding decode_from
three_bytes c s h k v =
    rw
      (
        lead_three (c / 4096) (omega arith),
        second (low_of (c / 4096)) (high_of (c / 4096)) 0 (c / 4096) (c / 64 % 64) (ground arith)
            (ground arith),
        last (c / 4096 * 64 + c / 64 % 64) (c % 64) (omega arith),
      )
      (ap (λ n. n ∷ decode_from start s) (omega arith))

abbrev low_of_four : ℕ → ℕ
low_of_four b = if b == 0 then 0x90 else 0x80

abbrev high_of_four : ℕ → ℕ
high_of_four b = if b == 4 then 0x8F else 0xBF

lead_four :
    (b : ℕ)
    → b < 5
    → byte_step start (0xF0 + b) ≡ ([], pending (low_of_four b) (high_of_four b) 2 b)
unfolding byte_step
lead_four b h = ground arith

four_bytes :
    (c : ℕ) (s : List ℕ)
    → 0x10000 ≤ c
    → c < 0x110000
    → decode_from start
        ((0xF0 + c / 262144) ∷ (0x80 + c / 4096 % 64) ∷ (0x80 + c / 64 % 64) ∷ (0x80 + c % 64) ∷ s)
      ≡ c ∷ decode_from start s
unfolding decode_from
four_bytes c s h k =
    rw
      (
        lead_four (c / 262144) (omega arith),
        second (low_of_four (c / 262144)) (high_of_four (c / 262144)) 1 (c / 262144) (c / 4096 % 64)
            (ground arith) (ground arith),
        second 0x80 0xBF 0 (c / 262144 * 64 + c / 4096 % 64) (c / 64 % 64) (omega arith)
            (omega arith),
        last ((c / 262144 * 64 + c / 4096 % 64) * 64 + c / 64 % 64) (c % 64) (omega arith),
      )
      (ap (λ n. n ∷ decode_from start s) (omega arith))

char_decoded :
    (c : ℕ) (s : List ℕ)
    → IsScalar c
    → decode_from start (encode_char c ++ s) ≡ c ∷ decode_from start s
unfolding encode_char
char_decoded c s v = ground (arith, one_byte c s, two_bytes c s, three_bytes c s, four_bytes c s)

-- Text without surrogates is decoded from its encoding.
pub utf8_decode-utf8_encode : (s : Text) → All IsScalar s → utf8_decode (utf8_encode s) ≡ s
unfolding utf8_decode utf8_encode
utf8_decode-utf8_encode [] h = refl
utf8_decode-utf8_encode (c ∷ s) h =
    char_decoded c (utf8_encode s) h.0 ∙ ap (λ t. c ∷ t) (utf8_decode-utf8_encode s h.1)

-- The code points of an encoding are bytes.
encode_char_bytes : (c : ℕ) → IsScalar c → All (λ b. b < 256) (encode_char c)
unfolding encode_char
encode_char_bytes c v = ground arith

pub utf8_encode_bytes : (s : Text) → All IsScalar s → All (λ b. b < 256) (utf8_encode s)
unfolding utf8_encode
utf8_encode_bytes [] h = tt
utf8_encode_bytes (c ∷ s) h =
    All-append (λ b. b < 256) (encode_char c) (utf8_encode s) (encode_char_bytes c h.0)
      (utf8_encode_bytes s h.1)
