-- ===== src/Stream.antt =====
-- transient/utils.py: `StreamDecompressor`, `copy_with_progress` and `read_until`.
pub mod Copy
pub mod Until
pub mod Tests
use transient.Base.{starts_with, suc, is_empty}
use transient.Base.{
  ℕ, ◌+◌, ◌-◌, Bool, true, false, Option, none, some, List, [], ◌∷◌, ◌++◌, leb, if◌then◌else◌,
  length, take, drop, Text, lit, text_eq, runtime_error, Result, ok, err,
}
use transient.Store.State.{Bytes}

-- The compression formats; `plain` is no compression.
pub data Format : Type 0 where
  plain gzip bz2 xz : Format

-- `COMPRESSION_MAGIC`
abbrev pub compression_magic : List (Text × Format × Bytes)
compression_magic =
    (lit "gzip", gzip, 0x1f ∷ 0x8b ∷ [])
    ∷ (lit "bz2", bz2, 0x42 ∷ 0x5a ∷ 0x68 ∷ [])
    ∷ (lit "xz", xz, 0xfd ∷ 0x37 ∷ 0x7a ∷ 0x58 ∷ 0x5a ∷ 0x00 ∷ [])
    ∷ []

-- A `StreamDecompressor`: the chosen method, and what its inner decompressor has been given.
pub record StreamDecompressor : Type 0 where
  pub method : Option Format
  pub fed : List Bytes

abbrev named : Text → List (Text × Format × Bytes) → Result StreamDecompressor
named name [] = err (runtime_error (lit "Unknown compression format '" ++ (name ++ lit "'")))
named name ((n, format, _) ∷ formats) =
    let rest = named name formats in
    if text_eq n name then ok (record { method = some format; fed = [] }) else rest

-- `StreamDecompressor.__init__`
unfoldable pub stream_decompressor : Option Text → Result StreamDecompressor
stream_decompressor none = ok (record { method = none; fed = [] })
stream_decompressor (some name) =
    if text_eq name (lit "plain")
    then ok (record { method = some plain; fed = [] })
    else named name compression_magic

-- The loop over `COMPRESSION_MAGIC` in `decompress`
unfoldable pub detect : List (Text × Format × Bytes) → Bytes → Format
detect [] contents = plain
detect ((_, format, magic) ∷ formats) contents =
    let rest = detect formats contents in if starts_with contents magic then format else rest

-- `inflate` is zlib, bz2 or lzma: what an inner decompressor that was given these blocks makes of the
-- next one, or the exception that it raises.
module _ (inflate : Format → List Bytes → Bytes → Result Bytes) where
  -- The call of `self.decompression_method`
  unfoldable pub apply_method : Format → List Bytes → Bytes → Result Bytes
  apply_method plain fed contents = ok contents
  apply_method gzip fed contents = inflate gzip fed contents
  apply_method bz2 fed contents = inflate bz2 fed contents
  apply_method xz fed contents = inflate xz fed contents

  abbrev method_for : Option Format → Bytes → Format
  method_for (some format) contents = format
  method_for none contents = detect compression_magic contents

  -- `StreamDecompressor.decompress`
  unfoldable pub decompress : StreamDecompressor → Bytes → Result Bytes × StreamDecompressor
  unfolding apply_method
  decompress d contents =
      let format = method_for d.method contents in
      (
        apply_method format d.fed contents,
        record { method = some format; fed = d.fed ++ (contents ∷ []) },
      )

  -- The loop of `copy_with_progress`: what `source.read` gives, up to the first block that is
  -- empty. The result has what was written and the amounts that the progress bar was shown.
  unfoldable pub copy_blocks :
      StreamDecompressor → ℕ → Bytes → List ℕ → List Bytes → Result (Unit {0}) × Bytes × List ℕ
  unfolding decompress
  copy_blocks d copied written shown [] = (ok tt, written, shown)
  copy_blocks d copied written shown ([] ∷ blocks) = (ok tt, written, shown)
  copy_blocks d copied written shown ((byte ∷ bytes) ∷ blocks) =
      let block = byte ∷ bytes in
      let total = copied + length block in
      let (out, d') = decompress d block in
      elim out [
        | err e ↦ (err e, written, shown)
        | ok contents ↦ copy_blocks d' total (written ++ contents) (shown ++ (total ∷ [])) blocks
      ]

  -- `copy_with_progress`
  unfoldable pub copy_with_progress : Bool → List Bytes → Result (Unit {0}) × Bytes × List ℕ
  copy_with_progress false blocks =
      copy_blocks (record { method = some plain; fed = [] }) 0 [] [] blocks
  copy_with_progress true blocks = copy_blocks (record { method = none; fed = [] }) 0 [] [] blocks

abbrev pub one_later : Option ℕ → Option ℕ
one_later none = none
one_later (some i) = some (suc i)

-- `buffer.find(sentinel)`, none for -1
unfoldable pub find : Bytes → Bytes → Option ℕ
find sentinel [] = if is_empty sentinel then some 0 else none
find sentinel (b ∷ buffer) =
    let later = one_later (find sentinel buffer) in
    if starts_with (b ∷ buffer) sentinel then some 0 else later

-- What one turn of the loop of `read_until` finds: `source.peek()` and, when nothing has ended the
-- loop, whether the time is up; or `select` gives nothing.
pub data Turn : Type 0 where
  waiting : Bytes → Bool → Turn
  not_ready : Turn

-- How `read_until` ends: what it returns, with what stays in the source of the last peek; the
-- `TimeoutError`, with its buffer; or it is still reading.
pub data Reading : Type 0 where
  returned : Bytes → Bytes → List Turn → Reading
  timed_out : Bytes → Reading
  still : Bytes → Reading

-- `bytes_to_read`
unfoldable pub bytes_to_read : Bytes → Bytes → ℕ → ℕ
bytes_to_read sentinel buff start =
    if leb (length buff) start
    then (start - length buff) + length sentinel
    else length sentinel - (length buff - start)

-- The loop of `read_until`, with its variable `buff`.
unfoldable pub read_until : Bytes → Bytes → List Turn → Reading
read_until sentinel buff [] = still buff
read_until sentinel buff (not_ready ∷ turns) = timed_out buff
read_until sentinel buff (waiting peeked late ∷ turns) = elim (find sentinel (buff ++ peeked)) [
  | some start ↦
      let n = bytes_to_read sentinel buff start in
      returned (buff ++ take n peeked) (drop n peeked) turns
  | none ↦ if late then timed_out (buff ++ peeked) else read_until sentinel (buff ++ peeked) turns
]
