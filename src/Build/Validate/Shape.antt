-- ===== src/Build/Validate/Shape.antt =====
-- What `ImageBuilder.__validate` of transient/build.py accepts, as a grammar of instruction lists.
use transient.Base.{Text, true, false, some, List, [], ◌∷◌, ◌++◌, map, All, ◌≡◌, refl, ap, ok}
use transient.Build.Instruction.{Instruction, Partition, Disk}
use transient.Build.Validate.{Section, is_from_scratch, has_root, check_order}

-- The instructions that come last: RUN, COPY, ADD and INSPECT.
abbrev pub IsStep : Instruction → Type 0
IsStep (Instruction.from _) = ⊥
IsStep (Instruction.disk _) = ⊥
IsStep (Instruction.partition _) = ⊥
IsStep _ = Unit

-- FROM scratch, one DISK, the PARTITIONs with one at "/", and the steps; or FROM an image and
-- steps alone.
pub data WellFormed (is : List Instruction) (source : Text) : Type 0 where
  scratch :
      (d : Disk) (ps : List Partition) (steps : List Instruction)
      → is_from_scratch source ≡ true
      → has_root ps ≡ true
      → All IsStep steps
      → is ≡ Instruction.from source ∷ Instruction.disk d ∷ (map Instruction.partition ps ++ steps)
      → WellFormed is source
  existing :
      (steps : List Instruction)
      → is_from_scratch source ≡ false
      → All IsStep steps
      → is ≡ Instruction.from source ∷ steps
      → WellFormed is source

-- PARTITIONs and then steps.
pub record Tail (is : List Instruction) : Type 0 where
  pub parts : List Partition
  pub steps : List Instruction
  pub are_steps : All IsStep steps
  pub shape : is ≡ map Instruction.partition parts ++ steps

pub order_execute :
    (is : List Instruction) → check_order (some Section.execute) is ≡ ok tt → All IsStep is
unfolding check_order
order_execute [] h = tt
order_execute (Instruction.from _ ∷ is) h = cc
order_execute (Instruction.disk _ ∷ is) h = cc
order_execute (Instruction.partition _ ∷ is) h = cc
order_execute (_ ∷ is) h = (tt, order_execute is h)

no_parts : (is : List Instruction) → All IsStep is → Tail is
no_parts is h = record { parts = []; steps = is; are_steps = h; shape = refl }

more_parts : (p : Partition) (is : List Instruction) → Tail is → Tail (Instruction.partition p ∷ is)
more_parts p is t = record {
  parts = p ∷ t.parts;
  steps = t.steps;
  are_steps = t.are_steps;
  shape = ap (λ l. Instruction.partition p ∷ l) t.shape;
}

order_partition :
    (is : List Instruction) → check_order (some Section.partition) is ≡ ok tt → Tail is
unfolding check_order
order_partition [] h = no_parts [] tt
order_partition (Instruction.from _ ∷ is) h = cc
order_partition (Instruction.disk _ ∷ is) h = cc
order_partition (Instruction.partition p ∷ is) h = more_parts p is (order_partition is h)
order_partition (_ ∷ is) h = no_parts _ (tt, order_execute is h)

order_disk : (is : List Instruction) → check_order (some Section.disk) is ≡ ok tt → Tail is
unfolding check_order
order_disk [] h = no_parts [] tt
order_disk (Instruction.from _ ∷ is) h = cc
order_disk (Instruction.disk _ ∷ is) h = cc
order_disk (Instruction.partition p ∷ is) h = more_parts p is (order_partition is h)
order_disk (_ ∷ is) h = no_parts _ (tt, order_execute is h)

-- What may follow a FROM.
pub data AfterFrom (is : List Instruction) : Type 0 where
  only_steps : All IsStep is → AfterFrom is
  with_disk :
      (d : Disk) (rest : List Instruction)
      → Tail rest
      → is ≡ Instruction.disk d ∷ rest
      → AfterFrom is

pub order_from : (is : List Instruction) → check_order (some Section.from) is ≡ ok tt → AfterFrom is
unfolding check_order
order_from [] h = only_steps tt
order_from (Instruction.from _ ∷ is) h = cc
order_from (Instruction.disk d ∷ is) h = with_disk d is (order_disk is h) refl
order_from (Instruction.partition p ∷ is) h = cc
order_from (_ ∷ is) h = only_steps (tt, order_execute is h)
