-- ===== src/Build/Validate/Accepts.antt =====
-- `ImageBuilder.__validate` of transient/build.py accepts exactly the well-formed Imagefiles.
use transient.Base.{
  Text, true, false, none, some, List, [], ◌∷◌, ◌++◌, map, All, ◌≡◌, refl, ap, ◌∙◌, ◌↔◌, ok, arith,
}
use transient.Build.Instruction.{Instruction, Partition, Disk}
use transient.Build.Validate.{
  Section, from_instructions, disk_instructions, part_instructions, is_from_scratch, has_root,
  check_kinds, check_order, only_from, validate,
}
use transient.Build.Validate.Shape.{
  IsStep, WellFormed, scratch, existing, order_execute, AfterFrom, only_steps, with_disk,
  order_from,
}

record NoneOfThem (is : List Instruction) : Type 0 where
  froms : from_instructions is ≡ []
  disks : disk_instructions is ≡ []
  parts : part_instructions is ≡ []

steps-NoneOfThem : (is : List Instruction) → All IsStep is → NoneOfThem is
unfolding from_instructions disk_instructions part_instructions
steps-NoneOfThem [] h = record { froms = refl; disks = refl; parts = refl }
steps-NoneOfThem (Instruction.from _ ∷ is) h = absurd h.0
steps-NoneOfThem (Instruction.disk _ ∷ is) h = absurd h.0
steps-NoneOfThem (Instruction.partition _ ∷ is) h = absurd h.0
steps-NoneOfThem (_ ∷ is) h =
    let t = steps-NoneOfThem is h.1 in record { froms = t.froms; disks = t.disks; parts = t.parts }

record OnlyParts (ps : List Partition) (is : List Instruction) : Type 0 where
  froms : from_instructions is ≡ []
  disks : disk_instructions is ≡ []
  parts : part_instructions is ≡ ps

tail-OnlyParts :
    (ps : List Partition) (steps : List Instruction)
    → All IsStep steps
    → OnlyParts ps (map Instruction.partition ps ++ steps)
unfolding from_instructions disk_instructions part_instructions
tail-OnlyParts [] steps h =
    let t = steps-NoneOfThem steps h in record { froms = t.froms; disks = t.disks; parts = t.parts }
tail-OnlyParts (p ∷ ps) steps h =
    let t = tail-OnlyParts ps steps h in
    record { froms = t.froms; disks = t.disks; parts = ap (λ l. p ∷ l) t.parts }

kinds_of_steps : (source : Text) → check_kinds source [] [] ≡ ok tt → is_from_scratch source ≡ false
unfolding check_kinds
kinds_of_steps source h = ground arith

kinds_of_disk :
    (source : Text) (d : Disk) (ps : List Partition)
    → check_kinds source (d ∷ []) ps ≡ ok tt
    → (is_from_scratch source ≡ true) × (has_root ps ≡ true)
unfolding check_kinds
kinds_of_disk source d ps h = ground arith

steps-kinds : (source : Text) → is_from_scratch source ≡ false → check_kinds source [] [] ≡ ok tt
unfolding check_kinds
steps-kinds source h = ground arith

disk-kinds :
    (source : Text) (d : Disk) (ps : List Partition)
    → is_from_scratch source ≡ true
    → has_root ps ≡ true
    → check_kinds source (d ∷ []) ps ≡ ok tt
unfolding check_kinds has_root
disk-kinds source d [] h r = cc
disk-kinds source d (p ∷ ps) h r = ground arith

steps-order :
    (s : Section) (is : List Instruction) → All IsStep is → check_order (some s) is ≡ ok tt
unfolding check_order
steps-order s [] h = refl
steps-order s (Instruction.from _ ∷ is) h = absurd h.0
steps-order s (Instruction.disk _ ∷ is) h = absurd h.0
steps-order s (Instruction.partition _ ∷ is) h = absurd h.0
steps-order Section.from (_ ∷ is) h = steps-order Section.execute is h.1
steps-order Section.disk (_ ∷ is) h = steps-order Section.execute is h.1
steps-order Section.partition (_ ∷ is) h = steps-order Section.execute is h.1
steps-order Section.execute (_ ∷ is) h = steps-order Section.execute is h.1

parts-order :
    (ps : List Partition) (steps : List Instruction)
    → All IsStep steps
    → check_order (some Section.partition) (map Instruction.partition ps ++ steps) ≡ ok tt
unfolding check_order
parts-order [] steps h = steps-order Section.partition steps h
parts-order (p ∷ ps) steps h = parts-order ps steps h

disk-order :
    (ps : List Partition) (steps : List Instruction)
    → All IsStep steps
    → check_order (some Section.disk) (map Instruction.partition ps ++ steps) ≡ ok tt
unfolding check_order
disk-order [] steps h = steps-order Section.disk steps h
disk-order (p ∷ ps) steps h = parts-order ps steps h

-- The three parts of a successful validation.
record Passed (is : List Instruction) (source : Text) : Type 0 where
  froms : only_from (from_instructions is) ≡ ok source
  kinds : check_kinds source (disk_instructions is) (part_instructions is) ≡ ok tt
  order : check_order none is ≡ ok tt

validate-Passed :
    (is : List Instruction) (source : Text) → validate is ≡ ok source → Passed is source
unfolding validate
validate-Passed is source h = record {
  froms = ground arith;
  kinds = ground arith;
  order = ground arith;
}

Passed-validate :
    (is : List Instruction) (source : Text) → Passed is source → validate is ≡ ok source
unfolding validate
Passed-validate is source h = rw (h.froms, h.kinds, h.order)

-- A passed list begins with its FROM.
Passed-head :
    (i : Instruction) (is : List Instruction) (source : Text)
    → Passed (i ∷ is) source
    → (i ≡ Instruction.from source) × (check_order (some Section.from) is ≡ ok tt)
unfolding check_order only_from from_instructions
Passed-head (Instruction.from s) is source h = ground arith
Passed-head (Instruction.disk d) is source h = cc h.order
Passed-head (Instruction.partition p) is source h = cc h.order
Passed-head i is source h = cc ((steps-NoneOfThem is (order_execute is h.order)).froms, h.froms)

Passed-steps :
    (rest : List Instruction) (source : Text)
    → All IsStep rest
    → Passed (Instruction.from source ∷ rest) source
    → WellFormed (Instruction.from source ∷ rest) source
unfolding disk_instructions part_instructions
Passed-steps rest source st h =
    let n = steps-NoneOfThem rest st in
    existing rest (kinds_of_steps source (cc (n.disks, n.parts, h.kinds))) st refl

Passed-disk :
    (d : Disk) (ps : List Partition) (steps : List Instruction) (source : Text)
    → All IsStep steps
    → let is : List Instruction =
        Instruction.from source ∷ Instruction.disk d ∷ (map Instruction.partition ps ++ steps) in
      Passed is source → WellFormed is source
unfolding disk_instructions part_instructions
Passed-disk d ps steps source st h =
    let n = tail-OnlyParts ps steps st in
    let k = kinds_of_disk source d ps (cc (n.disks, n.parts, h.kinds)) in
    scratch d ps steps k.0 k.1 st refl

Passed-shape :
    (rest : List Instruction) (source : Text)
    → Passed (Instruction.from source ∷ rest) source
    → AfterFrom rest
    → WellFormed (Instruction.from source ∷ rest) source
Passed-shape rest source h (only_steps steps) = Passed-steps rest source steps h
Passed-shape rest source h (with_disk d after t shape) =
    let e : rest ≡ Instruction.disk d ∷ (map Instruction.partition t.parts ++ t.steps) =
      shape ∙ ap (λ l. Instruction.disk d ∷ l) t.shape in
    rw e (Passed-disk d t.parts t.steps source t.are_steps (rw e at h))

Passed-WellFormed :
    (is : List Instruction) (source : Text) → Passed is source → WellFormed is source
unfolding only_from from_instructions
Passed-WellFormed [] source h = cc h.froms
Passed-WellFormed (i ∷ is) source h =
    let (first, order) = Passed-head i is source h in
    rw first (Passed-shape is source (rw first at h) (order_from is order))

WellFormed-Passed :
    (is : List Instruction) (source : Text) → WellFormed is source → Passed is source
unfolding only_from from_instructions disk_instructions part_instructions check_order
WellFormed-Passed is source (scratch d ps steps s r st e) =
    let n = tail-OnlyParts ps steps st in
    rw e (record {
      froms = rw n.froms;
      kinds = rw (n.disks, n.parts) (disk-kinds source d ps s r);
      order = disk-order ps steps st;
    })
WellFormed-Passed is source (existing steps s st e) =
    let n = steps-NoneOfThem steps st in
    rw e (record {
      froms = rw n.froms;
      kinds = rw (n.disks, n.parts) (steps-kinds source s);
      order = steps-order Section.from steps st;
    })

-- An Imagefile is accepted, with `source` as its FROM, exactly when it is either FROM scratch, one
-- DISK, PARTITIONs of which one mounts at "/", and then RUN, COPY, ADD and INSPECT alone, or FROM
-- another image followed by RUN, COPY, ADD and INSPECT alone.
pub validate-WellFormed :
    (is : List Instruction) (source : Text) → (validate is ≡ ok source) ↔ WellFormed is source
validate-WellFormed is source = (
  λ h. Passed-WellFormed is source (validate-Passed is source h),
  λ w. Passed-validate is source (WellFormed-Passed is source w),
)
