-- ===== src/Config.antt =====
-- internal/config/store.go: the configuration store and the invariants that it restores.
pub mod Lists
pub mod Profiles
pub mod Rules
pub mod Store
