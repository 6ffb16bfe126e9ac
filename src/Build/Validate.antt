-- ===== src/Build/Validate.antt =====
-- transient/build.py: `ImageBuilder.__validate`.
pub mod Shape
pub mod Accepts
use transient.Base.{
  Text, lit, Bool, true, false, ◌||◌, not, Option, none, some, List, [], ◌∷◌, any, Result, ok, err,
  runtime_error, ◌>>=◌, ◌>>◌, text_eq, lower, if◌then◌else◌, length, ltb, ◌==◌,
}
use transient.Build.Instruction.{Instruction, Partition, Disk}

-- `self.__instruction_type(FromInstruction)`, `DiskInstruction` and `PartitionInstruction`
unfoldable pub from_instructions : List Instruction → List Text
from_instructions [] = []
from_instructions (Instruction.from source ∷ is) = source ∷ from_instructions is
from_instructions (_ ∷ is) = from_instructions is

unfoldable pub disk_instructions : List Instruction → List Disk
disk_instructions [] = []
disk_instructions (Instruction.disk d ∷ is) = d ∷ disk_instructions is
disk_instructions (_ ∷ is) = disk_instructions is

unfoldable pub part_instructions : List Instruction → List Partition
part_instructions [] = []
part_instructions (Instruction.partition p ∷ is) = p ∷ part_instructions is
part_instructions (_ ∷ is) = part_instructions is

-- `__is_from_scratch`
unfoldable pub is_from_scratch : Text → Bool
unfolding text_eq lower lit
is_from_scratch source = text_eq (lower source) (lit "scratch")

mounts_at_root : Partition → Bool
unfolding text_eq lit
mounts_at_root p = elim p.mount [ none ↦ false | some m ↦ text_eq m (lit "/") ]

unfoldable pub has_root : List Partition → Bool
unfolding mounts_at_root
has_root = any mounts_at_root

-- `raise RuntimeError(message)` if the test holds
abbrev pub fail_if : Bool → Text → Result (Unit {0})
fail_if true message = err (runtime_error message)
fail_if false message = ok tt

-- The tests on the kinds of instructions, up to the state machine.
unfoldable pub check_kinds : Text → List Disk → List Partition → Result (Unit {0})
unfolding has_root
check_kinds source disks parts = do
  fail_if (ltb 1 (length disks)) (lit "Only one DISK instruction can appear per Imagefile")
  if is_from_scratch source
      then (do
        fail_if (length disks == 0)
            (lit "Exactly one DISK instruction must appear in images built from scratch")
        fail_if (length parts == 0)
            (lit "At least one PARTITION instruction must appear in images built from scratch")
        fail_if (not (has_root parts)) (lit "At least one PARTITION instruction must mount at /"))
      else fail_if (ltb 0 (length disks) || ltb 0 (length parts))
          (lit "DISK and PARTITION instructions can only appear on images built from scratch")

-- `ImagefileSection`
pub data Section : Type 0 where
  from disk partition execute : Section

abbrev out_of_order : Text → Result (Unit {0})
out_of_order message = err (runtime_error message)

-- The state machine over the instructions. The first argument is the variable `section`.
unfoldable pub check_order : Option Section → List Instruction → Result (Unit {0})
check_order s [] = ok tt
check_order none (Instruction.from _ ∷ is) = check_order (some Section.from) is
check_order (some _) (Instruction.from _ ∷ is) =
    out_of_order (lit "FROM instruction must appear before any other instructions")
check_order (some Section.from) (Instruction.disk _ ∷ is) = check_order (some Section.disk) is
check_order s (Instruction.disk _ ∷ is) =
    out_of_order (lit "DISK instruction must appear immediately after FROM instruction")
check_order (some Section.disk) (Instruction.partition _ ∷ is) =
    check_order (some Section.partition) is
check_order (some Section.partition) (Instruction.partition _ ∷ is) =
    check_order (some Section.partition) is
check_order s (Instruction.partition _ ∷ is) =
    out_of_order (lit "PARTITION instructions must appear immediately after DISK instruction")
check_order s (_ ∷ is) = check_order (some Section.execute) is

-- `self.from_instruction`, set if there is exactly one.
unfoldable pub only_from : List Text → Result Text
only_from (source ∷ []) = ok source
only_from _ = err (runtime_error (lit "Exactly one FROM instruction must appear per Imagefile"))

-- `__validate`; the result is the source of `self.from_instruction`.
unfoldable pub validate : List Instruction → Result Text
unfolding only_from check_kinds check_order from_instructions disk_instructions part_instructions
validate is = do
  source ← only_from (from_instructions is)
  check_kinds source (disk_instructions is) (part_instructions is)
  check_order none is
  ok source
