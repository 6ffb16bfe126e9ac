-- ===== src/Store/Name/RoundTrip.antt =====
-- transient/store.py: `storage_safe_decode` gets the true name back.
use transient.Base.{
  ℕ, ◌<◌, ◌≡◌, refl, ap, ◌∙◌, sym, Text, true, false, List, [], ◌∷◌, ◌++◌, All, ltb, ◌==◌, arith,
  append_assoc, append-nil,
}
use transient.Base.Utf8.{utf8_encode, utf8_decode, IsScalar}
use transient.Base.Utf8.RoundTrip.{utf8_encode_bytes, utf8_decode-utf8_encode}
use transient.Store.Name.{
  hex_value, hex_digit, percent, unquote_bytes, unquote_from, storage_safe_encode,
  storage_safe_decode,
}
use transient.Store.Name.Safe.{
  escape, escape_all, IsSafe, is_safe, storage_safe_encode-eq-escape_all,
  storage_safe_encode-IsSafe,
}

unquote_plain :
    (c : ℕ) (s : Text) → (c == b'%') ≡ false → unquote_bytes (c ∷ s) ≡ c ∷ unquote_bytes s
unfolding unquote_bytes
unquote_plain c [] h = refl
unquote_plain c (d ∷ []) h = refl
unquote_plain c (d ∷ e ∷ s) h = rw (h, unquote_bytes)

unquote_percent :
    (b : ℕ) (s : Text) → b < 256 → unquote_bytes (percent b ++ s) ≡ b ∷ unquote_bytes s
unfolding unquote_bytes percent hex_value hex_digit
unquote_percent b s h = ground arith

unquote-escape : (b : ℕ) (s : Text) → b < 256 → unquote_bytes (escape b ++ s) ≡ b ∷ unquote_bytes s
unfolding escape
unquote-escape b s h = ground (arith, unquote_percent b s h, unquote_plain b s)

unquote-escape_all : (bs : List ℕ) → All (λ b. b < 256) bs → unquote_bytes (escape_all bs) ≡ bs
unfolding escape_all
unquote-escape_all [] h = unfold unquote_bytes in refl
unquote-escape_all (b ∷ bs) h =
    unquote-escape b (escape_all bs) h.0 ∙ ap (λ l. b ∷ l) (unquote-escape_all bs h.1)

safe_is_ascii : (c : ℕ) → is_safe c ≡ true → ltb c 0x80 ≡ true
safe_is_ascii c h = ground arith

-- Text without a character beyond ASCII is one run.
one_run : (run s : Text) → IsSafe s → unquote_from run s ≡ utf8_decode (unquote_bytes (run ++ s))
unfolding unquote_from
one_run run [] h = rw append-nil
one_run run (c ∷ s) h = rw (safe_is_ascii c h.0) (one_run (run ++ (c ∷ [])) s h.1 ∙ rw append_assoc)

-- The stored form of a name without surrogates is decoded to that name.
pub storage_safe_decode-storage_safe_encode :
    (name : Text) → All IsScalar name → storage_safe_decode (storage_safe_encode name) ≡ name
unfolding storage_safe_decode
storage_safe_decode-storage_safe_encode name h =
    one_run [] (storage_safe_encode name) (storage_safe_encode-IsSafe name h)
    ∙ ap (λ t. utf8_decode (unquote_bytes t)) (storage_safe_encode-eq-escape_all name h)
    ∙ ap utf8_decode (unquote-escape_all (utf8_encode name) (utf8_encode_bytes name h))
    ∙ utf8_decode-utf8_encode name h

-- Names without surrogates that are stored alike are the same name.
pub storage_safe_encode_inj :
    (a b : Text)
    → All IsScalar a
    → All IsScalar b
    → storage_safe_encode a ≡ storage_safe_encode b
    → a ≡ b
storage_safe_encode_inj a b ha hb e =
    sym (storage_safe_decode-storage_safe_encode a ha)
    ∙ ap storage_safe_decode e
    ∙ storage_safe_decode-storage_safe_encode b hb
