-- ===== src/RuleEdit.antt =====
-- The rule operations of app.go: UpsertRule, BatchUpsertRules, DeleteRule, MoveRule and their
-- helpers. Normalize.antt below has `normalizeSingleRule` and `splitBatchContent`, Change.antt
-- `applyRuleChange`, Commands.antt the four operations on the store's configuration.
pub mod Normalize
pub mod Change
pub mod Commands
