-- ===== src/Rules.antt =====
-- internal/rules: the rule engine, the built-in domain families and the reading of rule input.
pub mod Engine
pub mod Catalog
pub mod Normalize
