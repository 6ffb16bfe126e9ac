-- ===== src/Machine.antt =====
-- transient/transient.py: the run of a virtual machine.
pub mod Config
pub mod Announce
pub mod Arguments
pub mod Exit
pub mod Run
pub mod Phases
pub mod Order
pub mod Signal
pub mod Tests
