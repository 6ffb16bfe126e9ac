-- ===== src/Store/Name.antt =====
-- transient/store.py: `storage_safe_encode` and `storage_safe_decode`, over `urllib.parse`'s `quote`
-- and `unquote`.
pub mod RoundTrip
pub mod Safe
use transient.Base.{
  ℕ, ◌+◌, ◌-◌, ◌*◌, ◌/◌, ◌%◌, Text, lit, Bool, true, false, ◌&&◌, ◌||◌, List, [], ◌∷◌, ◌++◌, ltb,
  between, ◌==◌, if◌then◌else◌, replace_char,
}
use transient.Base.Utf8.{utf8_encode, utf8_decode}

-- The bytes that `quote` always keeps.
abbrev pub is_unreserved : ℕ → Bool
is_unreserved b =
    between b'A' b'Z' b
    || (between b'a' b'z' b
        || (between b'0' b'9' b || (b == b'_' || (b == b'.' || (b == b'-' || b == b'~')))))

-- An upper case hexadecimal digit.
unfoldable pub hex_digit : ℕ → ℕ
hex_digit d = if ltb d 10 then b'0' + d else b'A' + (d - 10)

-- "%XX"
unfoldable pub percent : ℕ → Text
unfolding hex_digit
percent b = b'%' ∷ hex_digit (b / 16) ∷ hex_digit (b % 16) ∷ []

unfoldable pub quote_bytes : List ℕ → Text
unfolding percent
quote_bytes [] = []
quote_bytes (b ∷ bs) = (if is_unreserved b then b ∷ [] else percent b) ++ quote_bytes bs

-- `urllib.parse.quote(name, safe="")`
unfoldable pub quote : Text → Text
unfolding quote_bytes utf8_encode
quote name = quote_bytes (utf8_encode name)

-- `storage_safe_encode`
unfoldable pub storage_safe_encode : Text → Text
unfolding quote replace_char lit
storage_safe_encode name = replace_char b'-' (lit "%2D") (quote name)

abbrev pub is_hex : ℕ → Bool
is_hex c = between b'0' b'9' c || (between b'A' b'F' c || between b'a' b'f' c)

unfoldable pub hex_value : ℕ → ℕ
hex_value c =
    if between b'0' b'9' c
    then c - b'0'
    else if between b'A' b'F' c
    then c - b'A' + 10
    else c - b'a' + 10

-- `urllib.parse.unquote_to_bytes`, on ASCII text: "%" that two hexadecimal digits follow is their
-- byte, and any other character is itself.
unfoldable pub unquote_bytes : Text → List ℕ
unfolding hex_value
unquote_bytes [] = []
unquote_bytes (c ∷ []) = c ∷ []
unquote_bytes (c ∷ d ∷ []) = c ∷ d ∷ []
unquote_bytes (c ∷ d ∷ e ∷ s) = elim (c == b'%' && (is_hex d && is_hex e)) [
  | true ↦ (hex_value d * 16 + hex_value e) ∷ unquote_bytes s
  | false ↦ c ∷ unquote_bytes (d ∷ e ∷ s)
]

-- `urllib.parse.unquote`: each run of ASCII characters is unquoted and decoded; `run` is the one
-- before the text that is left.
unfoldable pub unquote_from : Text → Text → Text
unfolding utf8_decode unquote_bytes
unquote_from run [] = utf8_decode (unquote_bytes run)
unquote_from run (c ∷ s) =
    let ascii : Bool = ltb c 0x80 in
    (if ascii then [] else utf8_decode (unquote_bytes run) ++ (c ∷ []))
    ++ unquote_from (if ascii then run ++ (c ∷ []) else []) s

-- `storage_safe_decode`
unfoldable pub storage_safe_decode : Text → Text
unfolding unquote_from
storage_safe_decode name = unquote_from [] name
