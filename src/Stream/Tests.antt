-- ===== src/Stream/Tests.antt =====
-- transient/utils.py: streams on concrete bytes, and the theorems at them.
use transient.Base.{
  ◌≡◌, refl, true, false, some, List, [], ◌∷◌, starts_with, value_error, Result, ok, err,
}
use transient.Store.State.{Bytes}
use transient.Stream.{
  decompress, copy_blocks, Format, plain, bz2, detect, compression_magic, copy_with_progress, find,
  Turn, waiting, returned, timed_out, bytes_to_read, read_until,
}
use transient.Stream.Until.{Exact, read_until-Exact, read_until_returns}

detected : detect compression_magic (0x42 ∷ 0x5a ∷ 0x68 ∷ 0x39 ∷ []) ≡ bz2
unfolding detect starts_with
detected = refl

-- A first block that is shorter than the magic number is taken to be plain.
short_block : detect compression_magic (0x1f ∷ []) ≡ plain
unfolding detect starts_with
short_block = refl

abbrev broken : Format → List Bytes → Bytes → Result Bytes
broken format fed contents = err value_error

abbrev blocks : List Bytes
blocks = (1 ∷ 2 ∷ []) ∷ (3 ∷ []) ∷ [] ∷ (4 ∷ []) ∷ []

copying : copy_with_progress broken true blocks ≡ (ok tt, 1 ∷ 2 ∷ 3 ∷ [], 2 ∷ 3 ∷ [])
unfolding copy_with_progress copy_blocks decompress detect starts_with
copying = refl

-- The sentinel stands across two peeks.
abbrev turns : List Turn
turns = waiting (7 ∷ 1 ∷ []) false ∷ waiting (2 ∷ 9 ∷ []) false ∷ waiting (5 ∷ []) false ∷ []

reading :
    read_until (1 ∷ 2 ∷ []) [] turns
    ≡ returned (7 ∷ 1 ∷ 2 ∷ []) (9 ∷ []) (waiting (5 ∷ []) false ∷ [])
unfolding read_until find bytes_to_read starts_with
reading = refl

read_until-Exact_example :
    Exact (1 ∷ 2 ∷ []) [] turns (7 ∷ 1 ∷ 2 ∷ []) (9 ∷ []) (waiting (5 ∷ []) false ∷ [])
read_until-Exact_example =
    read_until-Exact 1 (2 ∷ []) turns (7 ∷ 1 ∷ 2 ∷ []) (9 ∷ []) (waiting (5 ∷ []) false ∷ [])
      reading

sentinel_there : find (1 ∷ 2 ∷ []) (7 ∷ 1 ∷ 2 ∷ 9 ∷ 5 ∷ []) ≡ some 1
unfolding find starts_with
sentinel_there = refl

read_until_returns_example :
    (out : Bytes) × (left : Bytes) × (rest : List Turn) × (read_until (1 ∷ 2 ∷ []) [] turns
      ≡ returned out left rest)
read_until_returns_example = read_until_returns 1 (2 ∷ []) turns 1 refl sentinel_there

late : read_until (9 ∷ []) [] (waiting (1 ∷ []) true ∷ turns) ≡ timed_out (1 ∷ [])
unfolding read_until find starts_with
late = refl
