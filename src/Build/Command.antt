-- ===== src/Build/Command.antt =====
-- transient/build.py, transient/editor.py and transient/utils.py: the commands of an instruction.
pub mod Quoting
use transient.Base.{
  ℕ, ◌-◌, Bool, true, false, ◌&&◌, ◌||◌, Option, none, some, List, [], ◌∷◌, ◌++◌, map,
  if◌then◌else◌, is_empty, Text, lit, text_eq, ends_with, join, replace_char, lstrip, strip_spaces,
  path_join, path_join_all,
}
use transient.Base.Decimal.{show_nat}
use transient.Build.Instruction.{Instruction, Partition}

-- utils.py, `join_absolute_paths`
unfoldable pub join_absolute_paths : Text → List Text → Text
unfolding path_join_all lstrip
join_absolute_paths path paths = path_join_all path (map (lstrip b'/') paths)

-- editor.py, `combine_commands`
unfoldable pub combine_commands : List Text → Bool → Text
unfolding join lit
combine_commands cmds true = join (lit "; ") cmds
combine_commands cmds false = join (lit " && ") cmds

-- `HostCommand` of a `copy_in`, and `GuestCommand` with the file on its standard input, if any.
pub data Command : Type 0 where
  host_copy : Text → Text → Command
  guest : Text → Option Text → Command

abbrev pub single_quote : ℕ
single_quote = 39

-- `cmd.replace("'", r"'\''")`
unfoldable pub escape_quotes : Text → Text
unfolding replace_char lit
escape_quotes cmd = replace_char single_quote (lit "'\\''") cmd

-- `GuestChrootCommand`
unfoldable pub chroot_command : Text → Text
unfolding escape_quotes lit
chroot_command cmd =
    lit "unshare --fork --pid chroot /mnt /bin/sh -c '" ++ (escape_quotes cmd ++ lit "' ")

-- `AddInstruction.__is_compressed`
unfoldable pub is_compressed : Text → Bool
unfolding ends_with lit
is_compressed name = ends_with name (lit ".tar.gz") || ends_with name (lit ".tar.xz")

-- The loop body of `AddInstruction.commands`.
unfoldable pub add_command : Text → Text → Text → Command
unfolding is_compressed path_join join_absolute_paths lit
add_command build_dir destination src =
    let host_src = path_join build_dir src in
    if is_compressed src
    then guest
        (lit "bsdtar xfP - --directory=" ++ join_absolute_paths (lit "/mnt") (destination ∷ []))
        (some host_src)
    else host_copy host_src destination

-- What a flag adds to the line for sfdisk, and whether it sets the type.
unfoldable pub flag_text : Text → Text × Bool
unfolding text_eq lit
flag_text flag =
    if text_eq flag (lit "boot")
    then (lit "bootable,", false)
    else if text_eq flag (lit "efi")
    then (lit "type=U,", true)
    else if text_eq flag (lit "bios_grub")
    then (lit "type=21686148-6449-6E6F-744E-656564454649,", true)
    else ([], false)

-- The loop over the flags, with `partition_cmd` and `has_type`.
unfoldable pub add_flags : List Text → Text × Bool → Text × Bool
unfolding flag_text
add_flags [] acc = acc
add_flags (flag ∷ flags) (cmd, has_type) =
    add_flags flags (cmd ++ (flag_text flag).0, has_type || (flag_text flag).1)

abbrev show_units : Option Text → Text
show_units none = lit "None"
show_units (some u) = u

size_text : Partition → Text
unfolding show_nat lit
size_text p = elim p.size [
  | none ↦ []
  | some n ↦ lit "size=" ++ (show_nat n ++ (show_units p.units ++ lit ","))
]

abbrev flags_of : Option (List Text) → List Text
flags_of none = []
flags_of (some fs) = fs

with_type : Text × Bool → Text
unfolding lit
with_type (cmd, true) = cmd
with_type (cmd, false) = cmd ++ lit "type=L,"

-- `partition_cmd`, the line that is given to sfdisk
unfoldable pub sfdisk_line : Partition → Text
unfolding size_text add_flags with_type
sfdisk_line p = with_type (add_flags (flags_of p.flags) (size_text p, false))

format_command : Partition → List Command
unfolding show_nat lit
format_command p = elim p.format [
  | none ↦ []
  | some f ↦
      guest
        (lit "mkfs." ++ (f ++ (lit " " ++ (p.options ++ (lit " /dev/sda" ++ show_nat p.number)))))
        none
      ∷ []
]

-- `commands` of each class; `build_dir` is the builder's.
unfoldable pub commands : Text → Instruction → List Command
unfolding chroot_command path_join add_command sfdisk_line format_command lit
commands build_dir (Instruction.run cmd) = guest (chroot_command cmd) none ∷ []
commands build_dir (Instruction.copy source destination) =
    map (λ src. host_copy (path_join build_dir src) destination) source
commands build_dir (Instruction.add source destination) =
    map (add_command build_dir destination) source
commands build_dir (Instruction.disk d) =
    guest (lit "echo label:" ++ (d.type ++ lit " | sfdisk /dev/sda")) none ∷ []
commands build_dir (Instruction.partition p) =
    guest (lit "echo '" ++ (sfdisk_line p ++ lit "' | sfdisk /dev/sda -a")) none ∷ format_command p
commands build_dir Instruction.inspect = []
commands build_dir (Instruction.from source) = []

-- "word " if there is a value
abbrev worded : Text → Option Text → Text
worded word none = []
worded word (some t) = word ++ (t ++ lit " ")

abbrev flag_words : List Text → Text
flag_words [] = []
flag_words (f ∷ fs) = f ++ (lit " " ++ flag_words fs)

partition_text : Partition → Text
unfolding show_nat strip_spaces lit
partition_text p = strip_spaces (
    lit "PARTITION "
    ++ (show_nat p.number
        ++ (lit " "
            ++ (elim p.size [ none ↦ [] | some n ↦ lit "SIZE " ++ (show_nat n ++ lit "MB ") ]
                ++ (worded (lit "FORMAT ") p.format
                    ++ ((if is_empty p.options
                          then []
                          else lit "OPTIONS \"" ++ (p.options ++ lit "\" "))
                        ++ (worded (lit "MOUNT ") p.mount ++ elim p.flags [
                          | none ↦ []
                          | some fs ↦ lit "FLAGS " ++ flag_words fs
                        ])))))))

-- `__str__` of each class
unfoldable pub instruction_text : Instruction → Text
unfolding partition_text show_nat join lit
instruction_text Instruction.inspect = lit "INSPECT"
instruction_text (Instruction.run cmd) = lit "RUN " ++ cmd
instruction_text (Instruction.copy source destination) =
    lit "COPY " ++ (join (lit " ") source ++ (lit " " ++ destination))
instruction_text (Instruction.add source destination) =
    lit "ADD " ++ (join (lit " ") source ++ (lit " " ++ destination))
instruction_text (Instruction.disk d) =
    lit "DISK " ++ (show_nat d.size ++ (d.units ++ (lit " " ++ d.type)))
instruction_text (Instruction.partition p) = partition_text p
instruction_text (Instruction.from source) = lit "FROM " ++ source
