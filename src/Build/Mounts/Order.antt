-- ===== src/Build/Mounts/Order.antt =====
-- transient/build.py: `__partition_instructions_by_mount` sorts by depth, loses and adds no partition,
-- and keeps the order of partitions at one depth.
use mathlib.Core.List.{Perm}
use mathlib.Core.List.Perm
use transient.Base.{
  ℕ, ◌≤◌, ◌≡◌, refl, ap, ◌∙◌, inl, inr, List, [], ◌∷◌, arith, leb, ◌==◌, if◌then◌else◌, Bool-cases,
  filter, All, Text,
}
use transient.Build.Instruction.{Partition}
use transient.Build.Mounts.{mountable, sort_key, insert_sorted, sort_by_key, instructions_by_mount}

abbrev Entry : Type 0
Entry = Text × Partition

-- Every later entry has a key as large.
abbrev pub IsSorted : List (Text × Partition) → Type 0
IsSorted [] = Unit
IsSorted (p ∷ ps) = All (λ q. sort_key p ≤ sort_key q) ps × IsSorted ps

All-insert_sorted :
    (k : ℕ) (p : Entry) (qs : List Entry)
    → k ≤ sort_key p
    → All (λ q. k ≤ sort_key q) qs
    → All (λ q. k ≤ sort_key q) (insert_sorted p qs)
unfolding insert_sorted
All-insert_sorted k p [] h a = (h, tt)
All-insert_sorted k p (q ∷ qs) h a = elim (Bool-cases (leb (sort_key p) (sort_key q))) [
  | inl e ↦ rw e (h, a)
  | inr e ↦ rw e (a.0, All-insert_sorted k p qs h a.1)
]

All-le_trans :
    (j k : ℕ) (qs : List Entry)
    → j ≤ k
    → All (λ q. k ≤ sort_key q) qs
    → All (λ q. j ≤ sort_key q) qs
All-le_trans j k [] h a = tt
All-le_trans j k (q ∷ qs) h a = (omega (arith, a.0), All-le_trans j k qs h a.1)

insert_sorted-IsSorted : (p : Entry) (qs : List Entry) → IsSorted qs → IsSorted (insert_sorted p qs)
unfolding insert_sorted
insert_sorted-IsSorted p [] s = (tt, tt)
insert_sorted-IsSorted p (q ∷ qs) s = elim (Bool-cases (leb (sort_key p) (sort_key q))) [
  | inl e ↦
      let h : sort_key p ≤ sort_key q = ground arith in
      rw e ((h, All-le_trans (sort_key p) (sort_key q) qs h s.0), s)
  | inr e ↦
      rw e (All-insert_sorted (sort_key q) p qs (ground arith) s.0, insert_sorted-IsSorted p qs s.1)
]

sort_by_key-IsSorted : (ps : List Entry) → IsSorted (sort_by_key ps)
unfolding sort_by_key
sort_by_key-IsSorted [] = tt
sort_by_key-IsSorted (p ∷ ps) = insert_sorted-IsSorted p (sort_by_key ps) (sort_by_key-IsSorted ps)

insert_sorted-perm : (p : Entry) (qs : List Entry) → Perm (insert_sorted p qs) (p ∷ qs)
unfolding insert_sorted
insert_sorted-perm p [] = Perm.refl (p ∷ [])
insert_sorted-perm p (q ∷ qs) = elim (Bool-cases (leb (sort_key p) (sort_key q))) [
  | inl e ↦ rw e (Perm.refl (p ∷ q ∷ qs))
  | inr e ↦ rw e (Perm.trans (Perm.cons q (insert_sorted-perm p qs)) (Perm.swap p q qs))
]

sort_by_key-perm : (ps : List Entry) → Perm (sort_by_key ps) ps
unfolding sort_by_key
sort_by_key-perm [] = Perm.refl []
sort_by_key-perm (p ∷ ps) =
    Perm.trans (insert_sorted-perm p (sort_by_key ps)) (Perm.cons p (sort_by_key-perm ps))

-- The entries of one depth, in their order.
abbrev pub at_depth : ℕ → List (Text × Partition) → List (Text × Partition)
at_depth k = filter (λ q. sort_key q == k)

insert_sorted-stable :
    (k : ℕ) (p : Entry) (qs : List Entry)
    → IsSorted qs
    → at_depth k (insert_sorted p qs) ≡ at_depth k (p ∷ qs)
unfolding insert_sorted
insert_sorted-stable k p [] s = refl
insert_sorted-stable k p (q ∷ qs) s = ground (arith, insert_sorted-stable k p qs s.1)

sort_by_key-stable : (k : ℕ) (ps : List Entry) → at_depth k (sort_by_key ps) ≡ at_depth k ps
unfolding sort_by_key
sort_by_key-stable k [] = refl
sort_by_key-stable k (p ∷ ps) =
    insert_sorted-stable k p (sort_by_key ps) (sort_by_key-IsSorted ps)
    ∙ ap (λ l. if sort_key p == k then p ∷ l else l) (sort_by_key-stable k ps)

-- The partitions are mounted in the order of the number of parts of their mounts as paths; each partition
-- with a mount is there exactly as often as in the Imagefile; and those with equally many parts keep the
-- order of the Imagefile.
pub instructions_by_mount_order :
    (ps : List Partition)
    → IsSorted (instructions_by_mount ps)
      × Perm (instructions_by_mount ps) (mountable ps)
      × ((k : ℕ) → at_depth k (instructions_by_mount ps) ≡ at_depth k (mountable ps))
unfolding instructions_by_mount
instructions_by_mount_order ps = (
  sort_by_key-IsSorted (mountable ps),
  sort_by_key-perm (mountable ps),
  λ k. sort_by_key-stable k (mountable ps),
)
