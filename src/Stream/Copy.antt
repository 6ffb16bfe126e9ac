-- ===== src/Stream/Copy.antt =====
-- transient/utils.py: what `copy_with_progress` writes and shows.
use transient.Base.{
  ℕ, ◌+◌, ◌≡◌, refl, ap, ◌∙◌, Bool, true, false, none, some, List, [], ◌∷◌, ◌++◌, append-nil,
  append_assoc, length, Result, ok, err,
}
use transient.Store.State.{Bytes}
use transient.Stream.{
  Format, plain, compression_magic, detect, apply_method, decompress, copy_blocks,
  copy_with_progress,
}

-- The blocks that are read before the end of the source.
abbrev pub before_end : List Bytes → List Bytes
before_end [] = []
before_end ([] ∷ blocks) = []
before_end ((b ∷ bs) ∷ blocks) = (b ∷ bs) ∷ before_end blocks

abbrev pub concat : List Bytes → Bytes
concat [] = []
concat (b ∷ bs) = b ++ concat bs

-- The amounts after each block.
abbrev pub totals : ℕ → List Bytes → List ℕ
totals n [] = []
totals n (b ∷ bs) = (n + length b) ∷ totals (n + length b) bs

module _ (inflate : Format → List Bytes → Bytes → Result Bytes) where
  plain_blocks :
      (blocks fed : List Bytes) (n : ℕ) (written : Bytes) (shown : List ℕ)
      → copy_blocks inflate (record { method = some plain; fed = fed }) n written shown blocks
        ≡ (ok tt, written ++ concat (before_end blocks), shown ++ totals n (before_end blocks))
  unfolding copy_blocks decompress apply_method
  plain_blocks [] fed n written shown = rw (append-nil written, append-nil shown)
  plain_blocks ([] ∷ blocks) fed n written shown = rw (append-nil written, append-nil shown)
  plain_blocks ((b ∷ bs) ∷ blocks) fed n written shown =
      let block = b ∷ bs in
      plain_blocks blocks (fed ++ (block ∷ [])) (n + length block) (written ++ block)
        (shown ++ ((n + length block) ∷ []))
      ∙ ap (λ (p : Bytes × List ℕ). (ok tt, p.0, p.1))
          (ap
              (λ w. (
                w,
                (shown ++ ((n + length block) ∷ []))
                    ++ totals (n + length block) (before_end blocks),
              ))
              (append_assoc written block (concat (before_end blocks)))
            ∙ ap (λ s. (written ++ (block ++ concat (before_end blocks)), s))
                (append_assoc shown ((n + length block) ∷ [])
                  (totals (n + length block) (before_end blocks))))

  -- The format of the first block, which decides for the whole stream.
  abbrev pub first_format : List Bytes → Format
  first_format [] = plain
  first_format (b ∷ bs) = detect compression_magic b

  first_plain :
      (blocks : List Bytes)
      → first_format (before_end blocks) ≡ plain
      → copy_blocks inflate (record { method = none; fed = [] }) 0 [] [] blocks
        ≡ copy_blocks inflate (record { method = some plain; fed = [] }) 0 [] [] blocks
  unfolding copy_blocks decompress
  first_plain [] h = refl
  first_plain ([] ∷ blocks) h = refl
  first_plain ((b ∷ bs) ∷ blocks) h =
      let block = b ∷ bs in
      ap
        (λ f. elim (apply_method inflate f [] block) [
          | err e ↦ (err e, [], [])
          | ok contents ↦
              copy_blocks inflate (record { method = some f; fed = block ∷ [] }) (0 + length block)
                contents ((0 + length block) ∷ []) blocks
        ])
        h

  -- Copying loses and adds nothing: if no decompression is asked for, or if the first block begins
  -- with no known magic number, then exactly the blocks up to the first empty one are written, in order,
  -- and the progress bar is shown the running totals, whatever the libraries for decompression do.
  pub copy_with_progress_plain :
      (decompressing : Bool) (blocks : List Bytes)
      → (decompressing ≡ true → first_format (before_end blocks) ≡ plain)
      → copy_with_progress inflate decompressing blocks
        ≡ (ok tt, concat (before_end blocks), totals 0 (before_end blocks))
  unfolding copy_with_progress
  copy_with_progress_plain false blocks h = plain_blocks blocks [] 0 [] []
  copy_with_progress_plain true blocks h =
      first_plain blocks (h refl) ∙ plain_blocks blocks [] 0 [] []
