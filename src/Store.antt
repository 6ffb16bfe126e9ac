-- ===== src/Store.antt =====
-- transient/store.py: names in the stores, image specifications, and the two stores.
pub mod Name
pub mod Protocols
pub mod Spec
pub mod Frontend
pub mod State
pub mod Backend
pub mod Vm
mod Tests
