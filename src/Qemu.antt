-- ===== src/Qemu.antt =====
-- transient/qemu.py: the client of QEMU's monitor, and the process of QEMU.
pub mod Client
pub mod Connection
pub mod Delivery
pub mod Replies
pub mod Runner
pub mod Framing
pub mod Guards
pub mod Tests
