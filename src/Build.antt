-- ===== src/Build.antt =====
-- transient/build.py: Imagefiles, from the parse tree to the steps of a build.
pub mod Instruction
pub mod Command
pub mod Validate
pub mod Mounts
pub mod Builder
mod Tests
