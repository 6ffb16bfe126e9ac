-- ===== src/Build/Tests.antt =====
-- transient/build.py on concrete Imagefiles: runs, and the theorems at their inputs.
use transient.Base.{
  List, Text, [], err, lit, lower, map, map_result, none, ok, refl, runtime_error, some, text_eq,
  true, ℕ, ◌++◌, ◌>>=◌, ◌↔◌, ◌∷◌, ◌≡◌,
}
use mathlib.Core.List.{Perm}
use transient.Base.Io.{World}
use transient.Build.Instruction.{Ast, Instruction, Partition, build_instruction}
use transient.Build.Validate.{validate, check_kinds, check_order, is_from_scratch, has_root}
use transient.Build.Validate.Shape.{WellFormed}
use transient.Build.Validate.Accepts.{validate-WellFormed}
use transient.Build.Mounts.{sort_key, mountable, instructions_by_mount}
use transient.Build.Mounts.Order.{IsSorted, at_depth, instructions_by_mount_order}
use transient.Build.Command.{escape_quotes, single_quote, instruction_text}
use transient.Build.Command.Quoting.{shell_word, outside, shell_word-escape_quotes}
use transient.Build.Builder.{Builder, Action, build}
use transient.Build.Builder.Publish.{Ending, build-Ending}

-- "FROM scratch", "DISK 2gb GPT", "PARTITION 1 SIZE 300MB FLAGS bios_grub",
-- "PARTITION 2 FORMAT ext2 MOUNT /", "ADD rootfs.tar.xz /"
abbrev alpine : List Ast
alpine =
    Ast.from (lit "scratch")
    ∷ Ast.disk (lit "2") (lit "gb") (lit "GPT")
    ∷ Ast.partition (record {
      number = lit "1";
      size = some (lit "300", lit "MB");
      format = none;
      mount = none;
      flags = some (lit "bios_grub" ∷ []);
    })
    ∷ Ast.partition (record {
      number = lit "2";
      size = none;
      format = some (lit "ext2", none);
      mount = some (lit "/");
      flags = none;
    })
    ∷ Ast.add (lit "rootfs.tar.xz" ∷ []) (lit "/")
    ∷ []

alpine_valid : (map_result build_instruction alpine >>= validate) ≡ ok (lit "scratch")
unfolding build_instruction validate check_kinds check_order is_from_scratch has_root lit text_eq
    lower
alpine_valid = refl

two_froms :
    validate (Instruction.from (lit "a") ∷ Instruction.from (lit "b") ∷ [])
    ≡ err (runtime_error (lit "Exactly one FROM instruction must appear per Imagefile"))
unfolding validate
two_froms = refl

late_from :
    validate (Instruction.run (lit "ls") ∷ Instruction.from (lit "b") ∷ [])
    ≡ err (runtime_error (lit "FROM instruction must appear before any other instructions"))
unfolding validate is_from_scratch lit text_eq lower
late_from = refl

abbrev simple : List Instruction
simple = Instruction.from (lit "a") ∷ Instruction.run (lit "ls") ∷ []

validate-WellFormed_example : (validate simple ≡ ok (lit "a")) ↔ WellFormed simple (lit "a")
validate-WellFormed_example = validate-WellFormed simple (lit "a")

abbrev part : Text → ℕ → Partition
part m n = record {
  number = n;
  size = none;
  units = none;
  format = none;
  options = [];
  mount = some m;
  flags = none;
}

abbrev parts : List Partition
parts = part (lit "/usr/local") 1 ∷ part (lit "/") 2 ∷ part (lit "/usr") 3 ∷ []

mounted :
    map (λ (m, p). m) (instructions_by_mount parts) ≡ lit "/" ∷ lit "/usr" ∷ lit "/usr/local" ∷ []
unfolding instructions_by_mount transient.Build.Mounts.sort_key lit
mounted = refl

instructions_by_mount_order_example :
    IsSorted (instructions_by_mount parts)
    × Perm (instructions_by_mount parts) (mountable parts)
    × ((k : ℕ) → at_depth k (instructions_by_mount parts) ≡ at_depth k (mountable parts))
instructions_by_mount_order_example = instructions_by_mount_order parts

shell_word-escape_quotes_example :
    shell_word outside (single_quote ∷ (escape_quotes (lit "echo 'a'") ++ (single_quote ∷ [])))
    ≡ some (lit "echo 'a'")
shell_word-escape_quotes_example = shell_word-escape_quotes (lit "echo 'a'")

-- The size is printed in "MB" whatever its units are.
wrong_units :
    instruction_text (
      Instruction.partition (record {
        number = 1;
        size = some 2;
        units = some (lit "GB");
        format = none;
        options = [];
        mount = none;
        flags = none;
      }))
    ≡ lit "PARTITION 1 SIZE 2MB"
unfolding instruction_text lit
wrong_units = refl

abbrev builder : Builder
builder = record {
  config = record { name = lit "new"; file = none; build_dir = lit "."; local = true };
  dirs = record { backend = lit "/b"; working = lit "/b/.working" };
  instructions = simple;
  source = lit "a";
}

-- An environment in which every action succeeds.
abbrev willing : World Action Text
willing h a = ok []

build-Ending_example :
    Ending willing builder [] (build willing builder []).0 (build willing builder []).1
build-Ending_example = build-Ending willing builder []
