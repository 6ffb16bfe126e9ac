-- ===== src/Build/Instruction.antt =====
-- transient/build.py: the instruction classes, and `_build_instruction`, which makes them from
-- the parse tree. The parser is lark's; `Ast` has one constructor for each rule of the grammar that
-- stands under `instruction`, with the texts of its tokens.
use transient.Base.{
  ℕ, Text, lit, Bool, Option, none, some, List, [], ◌∷◌, ◌++◌, map, any, Result, ok, err,
  runtime_error, value_error, ◌>>=◌, text_eq, lower, upper, join, strip, replace_char,
  if◌then◌else◌,
}
use transient.Base.Decimal.{read_nat}

-- `partition_size`, `partition_format` with its `partition_options`, and the other parts.
pub record PartitionAst : Type 0 where
  pub number : Text
  pub size : Option (Text × Text)
  pub format : Option (Text × Option Text)
  pub mount : Option Text
  pub flags : Option (List Text)

pub data Ast : Type 0 where
  run : List Text → Ast
  copy : List Text → Text → Ast
  add : List Text → Text → Ast
  from : Text → Ast
  disk : Text → Text → Text → Ast
  inspect : Ast
  partition : PartitionAst → Ast
  other : Text → Ast

-- `PartitionInstruction`
pub record Partition : Type 0 where
  pub number : ℕ
  pub size : Option ℕ
  pub units : Option Text
  pub format : Option Text
  pub options : Text
  pub mount : Option Text
  pub flags : Option (List Text)

-- `DiskInstruction`
pub record Disk : Type 0 where
  pub size : ℕ
  pub units : Text
  pub type : Text

-- The subclasses of `ImageInstruction`.
pub data Instruction : Type 0 where
  inspect : Instruction
  run : Text → Instruction
  copy : List Text → Text → Instruction
  add : List Text → Text → Instruction
  disk : Disk → Instruction
  partition : Partition → Instruction
  from : Text → Instruction

-- `int(token)` on a token of digits
unfoldable pub to_int : Text → Result ℕ
unfolding read_nat
to_int s = elim (read_nat s) [ none ↦ err value_error | some n ↦ ok n ]

-- `DiskInstruction.__init__`
unfoldable pub build_disk : Text → Text → Text → Result Instruction
unfolding to_int upper replace_char
build_disk size units type = do
  n ← to_int size
  ok (
      Instruction.disk
        (record { size = n; units = replace_char b'B' [] (upper units); type = upper type }))

-- `__supported_formats`
abbrev pub supported_formats : List Text
supported_formats = lit "ext2" ∷ lit "ext3" ∷ lit "ext4" ∷ lit "xfs" ∷ []

unfoldable pub is_supported : Text → Bool
unfolding text_eq lit
is_supported f = any (text_eq f) supported_formats

-- The format in lower case, and the options without their quotes.
unfoldable pub partition_format : Option (Text × Option Text) → Result (Option Text × Text)
unfolding is_supported lower strip
partition_format none = ok (none, [])
partition_format (some (f, options)) =
    let f' = lower f in
    if is_supported f'
    then elim options [ none ↦ ok (some f', []) | some o ↦ ok (some f', strip b'"' o) ]
    else err (runtime_error (lit "Unsupported partition format '" ++ (f' ++ lit "'")))

unfoldable pub partition_size : Option (Text × Text) → Result (Option Text × Option ℕ)
unfolding to_int upper
partition_size none = ok (none, none)
partition_size (some (size, units)) = do n ← to_int size; ok (some (upper units), some n)

unfoldable pub lower_flags : Option (List Text) → Option (List Text)
unfolding lower
lower_flags none = none
lower_flags (some fs) = some (map lower fs)

-- `PartitionInstruction.__init__`
unfoldable pub build_partition : PartitionAst → Result Instruction
unfolding to_int partition_format partition_size lower_flags
build_partition a = do
  n ← to_int a.number
  (format, options) ← partition_format a.format
  (units, size) ← partition_size a.size
  ok (
      Instruction.partition (record {
        number = n;
        size = size;
        units = units;
        format = format;
        options = options;
        mount = a.mount;
        flags = lower_flags a.flags;
      }))

-- `_build_instruction`
unfoldable pub build_instruction : Ast → Result Instruction
unfolding build_disk build_partition join
build_instruction (Ast.run parts) = ok (Instruction.run (join (lit " ") parts))
build_instruction Ast.inspect = ok Instruction.inspect
build_instruction (Ast.copy source destination) = ok (Instruction.copy source destination)
build_instruction (Ast.add source destination) = ok (Instruction.add source destination)
build_instruction (Ast.disk size units type) = build_disk size units type
build_instruction (Ast.partition a) = build_partition a
build_instruction (Ast.from source) = ok (Instruction.from source)
build_instruction (Ast.other rule) =
    err (runtime_error (lit "Unsupported build instruction: '" ++ (rule ++ lit "'")))
