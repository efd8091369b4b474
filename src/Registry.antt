-- ===== src/Registry.antt =====
-- internal/registry/registry.go: which peers are reachable, by how long they have been silent.
pub mod Defs
pub mod Expiry
pub mod Bounds
pub mod Admission
pub mod Windows
pub mod Tests
