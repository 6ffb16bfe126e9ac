-- ===== src/Qemu/Framing.antt =====
-- transient/qemu.py: `QmpClient.__send_msg`, `__recv_msg` and the loop of `__start`, on the bytes of the
-- monitor's socket. JSON is a parameter.
use transient.Base.{
  ℕ, ◌≡◌, refl, sym, ap, ◌∙◌, false, List, [], ◌∷◌, ◌++◌, append-nil, append_assoc, arith, ◌==◌,
  if◌then◌else◌, All, Text, has_char, has_char-append, Exn, Result, ok, err,
}
use transient.Qemu.Client.{QmpMessage, QmpClient, dispatch, dispatch_all}

-- What `__send_msg` writes; `dumps` is `json.dumps`.
abbrev pub frame : (QmpMessage → Text) → QmpMessage → Text
frame dumps msg = dumps msg ++ (13 ∷ 10 ∷ [])

unfoldable pub frames : (QmpMessage → Text) → List QmpMessage → Text
frames dumps [] = []
frames dumps (msg ∷ msgs) = frame dumps msg ++ frames dumps msgs

abbrev to_line : ℕ → List Text → List Text
to_line c [] = (c ∷ []) ∷ []
to_line c (line ∷ lines) = (c ∷ line) ∷ lines

-- What `self.file.readline()` gives, call after call, until it gives nothing.
unfoldable pub lines_of : Text → List Text
lines_of [] = []
lines_of (c ∷ s) = let rest = lines_of s in if c == 10 then (c ∷ []) ∷ rest else to_line c rest

-- How the listening thread ends: QEMU closed the connection, or reading a message raised.
pub data End : Type 0 where
  closed : End
  raised : Exn → End

-- `__start`, on the lines that are still to come; `loads` is `json.loads`.
unfoldable pub listen : (Text → Result QmpMessage) → List Text → QmpClient → End × QmpClient
unfolding dispatch
listen loads [] c = (closed, c)
listen loads (line ∷ lines) c = elim (loads line) [
  | err e ↦ (raised e, c)
  | ok msg ↦ listen loads lines (dispatch msg c)
]

lines_of-append :
    (line rest : Text)
    → has_char 10 line ≡ false
    → lines_of (line ++ (10 ∷ rest)) ≡ (line ++ (10 ∷ [])) ∷ lines_of rest
unfolding lines_of has_char
lines_of-append [] rest h = refl
lines_of-append (c ∷ line) rest h = ground (arith, lines_of-append line rest)

module _ (dumps : QmpMessage → Text) (loads : Text → Result QmpMessage) where
  -- What JSON does with a message: it is written without a line break, and read back from its line.
  abbrev pub IsReadable : QmpMessage → Type 0
  IsReadable msg = (has_char 10 (dumps msg) ≡ false) × (loads (frame dumps msg) ≡ ok msg)

  lines_of-frame :
      (msg : QmpMessage) (rest : Text)
      → IsReadable msg
      → lines_of (frame dumps msg ++ rest) ≡ frame dumps msg ∷ lines_of rest
  unfolding has_char
  lines_of-frame msg rest h =
      ap lines_of {x = frame dumps msg ++ rest} (simp append_assoc)
      ∙ lines_of-append (dumps msg ++ (13 ∷ [])) rest
          (has_char-append 10 (dumps msg) (13 ∷ []) ∙ rw h.0 refl)
      ∙ ap (λ line. line ∷ lines_of rest) (append_assoc (dumps msg) (13 ∷ []) (10 ∷ []))

  listen-frames :
      (msgs : List QmpMessage) (rest : Text) (c : QmpClient)
      → All IsReadable msgs
      → listen loads (lines_of (frames dumps msgs ++ rest)) c
        ≡ listen loads (lines_of rest) (dispatch_all msgs c)
  unfolding listen frames dispatch_all
  listen-frames [] rest c u = refl
  listen-frames (msg ∷ msgs) rest c (h, u) =
      ap (λ s. listen loads (lines_of s) c)
        (append_assoc (frame dumps msg) (frames dumps msgs) rest)
      ∙ ap (λ lines. listen loads lines c) (lines_of-frame msg (frames dumps msgs ++ rest) h)
      ∙ rw (listen, h.1) refl
      ∙ listen-frames msgs rest (dispatch msg c) u

  -- Every message that arrives is dispatched, in order. If QEMU then closes
  -- the connection, the thread ends; and if a line follows that is not JSON, it ends with that exception, and
  -- nothing behind the line is looked at.
  pub listen-Ends :
      (msgs : List QmpMessage) (bad more : Text) (e : Exn) (c : QmpClient)
      → All IsReadable msgs
      → has_char 10 bad ≡ false
      → loads (bad ++ (10 ∷ [])) ≡ err e
      → (listen loads (lines_of (frames dumps msgs)) c ≡ (closed, dispatch_all msgs c))
        × (listen loads (lines_of (frames dumps msgs ++ (bad ++ (10 ∷ more)))) c
            ≡ (raised e, dispatch_all msgs c))
  unfolding listen lines_of
  listen-Ends msgs bad more e c u h wrong = (
    ap (λ s. listen loads (lines_of s) c) (sym (append-nil (frames dumps msgs)))
        ∙ listen-frames msgs [] c u,
    listen-frames msgs (bad ++ (10 ∷ more)) c u
        ∙ rw (lines_of-append bad more h, listen, wrong) refl,
  )
