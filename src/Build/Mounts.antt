-- ===== src/Build/Mounts.antt =====
-- transient/build.py: `__partition_instructions_by_mount`.
pub mod Order
use transient.Base.{ℕ, none, some, List, [], ◌∷◌, leb, if◌then◌else◌, Text, count_parts}
use transient.Build.Instruction.{Partition}

-- The partitions that have a mount, with it.
unfoldable pub mountable : List Partition → List (Text × Partition)
mountable [] = []
mountable (p ∷ ps) = elim p.mount [ none ↦ mountable ps | some m ↦ (m, p) ∷ mountable ps ]

-- `sort_key`
unfoldable pub sort_key : Text × Partition → ℕ
unfolding count_parts
sort_key (m, p) = count_parts m

-- A partition goes in front of the first that has no smaller key, so equals keep their order.
unfoldable pub insert_sorted : Text × Partition → List (Text × Partition) → List (Text × Partition)
insert_sorted p [] = p ∷ []
insert_sorted p (q ∷ qs) =
    if leb (sort_key p) (sort_key q) then p ∷ q ∷ qs else q ∷ insert_sorted p qs

-- `sorted(mountable, key=sort_key)`, which is stable
unfoldable pub sort_by_key : List (Text × Partition) → List (Text × Partition)
unfolding insert_sorted
sort_by_key [] = []
sort_by_key (p ∷ ps) = insert_sorted p (sort_by_key ps)

-- `__partition_instructions_by_mount`
unfoldable pub instructions_by_mount : List Partition → List (Text × Partition)
unfolding mountable sort_by_key
instructions_by_mount ps = sort_by_key (mountable ps)
