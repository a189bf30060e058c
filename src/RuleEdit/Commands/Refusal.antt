-- ===== src/RuleEdit/Commands/Refusal.antt =====
-- DeleteRule and MoveRule of app.go: errors and the invariants of the store.
use proxy_rule_manager.Common.{
  ℕ, suc, ◌≡◌, Bool, true, false, Option, none, some, List, [], ◌∷◌, refl, sym, Bool-cases, inl,
  inr, ◌==◌, if◌then◌else◌, Option-cases, ◌↔◌, none≢some, any, arith,
}
use proxy_rule_manager.Text.{Text, text_beq}
use proxy_rule_manager.Platform.{Platform}
use proxy_rule_manager.Model.{RuleType, Rule, AppConfig}
use proxy_rule_manager.Model.Equality.{type_beq}
use proxy_rule_manager.RuleEdit.Commands.{
  delete_loop, delete_rule, find_position, move_at, move_loop, move_rule, commit_or_fail,
}
use proxy_rule_manager.RuleEdit.Commands.Safety.{IsSafe, ensure_invariants-HasInvariants}
use proxy_rule_manager.RuleEdit.Commands.Delete.{is_protected, delete_loop-none_iff}

-- The first rule with the identifier is of type MATCH.
unfoldable pub is_fixed : Text → List Rule → Bool
is_fixed id [] = false
is_fixed id (rule ∷ rules) =
    let later = is_fixed id rules in if rule.id == id then rule.type == RuleType.match else later

abbrev found_match : Option (ℕ × Rule) → Bool
found_match none = false
found_match (some (idx, rule)) = rule.type == RuleType.match

found_match-find_position :
    (id : Text) (idx : ℕ) (rules : List Rule)
    → found_match (find_position id idx rules) ≡ is_fixed id rules
unfolding find_position is_fixed
found_match-find_position id idx [] = refl
found_match-find_position id idx (rule ∷ rules) = elim (Bool-cases (rule.id == id)) [
  | inl e ↦ rw e refl
  | inr e ↦ rw e (found_match-find_position id (suc idx) rules)
]

-- What the callback of MoveRule does with the position that it finds.
abbrev moved : Text → List Rule → Option (ℕ × Rule) → Option (List Rule)
moved direction rules none = some rules
moved direction rules (some (idx, rule)) =
    if rule.type == RuleType.match then none else some (move_at direction idx rules)

moved-none_iff :
    (direction : Text) (rules : List Rule) (found : Option (ℕ × Rule))
    → (moved direction rules found ≡ none) ↔ (found_match found ≡ true)
moved-none_iff direction rules none = ground arith
moved-none_iff direction rules (some (idx, rule)) = ground arith

move_loop-moved :
    (id direction : Text) (rules : List Rule)
    → move_loop id direction rules ≡ moved direction rules (find_position id 0 rules)
unfolding move_loop
move_loop-moved id direction rules = elim (Option-cases (find_position id 0 rules)) [
  | inl e ↦ rw (e, move_loop) refl
  | inr ((idx, rule), e) ↦ rw (e, move_loop) refl
]

-- The callback of MoveRule fails exactly where the first rule with the identifier is of type MATCH.
move_loop-none_iff :
    (id direction : Text) (rules : List Rule)
    → (move_loop id direction rules ≡ none) ↔ (is_fixed id rules ≡ true)
move_loop-none_iff id direction rules = rw (move_loop-moved id direction rules) (
    rw⁻¹ (found_match-find_position id 0 rules)
      (moved-none_iff direction rules (find_position id 0 rules)))

module _ ⦃p : Platform⦄ where
  commit_or_fail-IsSafe :
      (refused : Bool) (cfg : AppConfig) (result : Option (List Rule)) (n : ℕ)
      → (result ≡ none) ↔ (refused ≡ true)
      → IsSafe refused (commit_or_fail cfg result n).0
  commit_or_fail-IsSafe refused cfg none n h = h.0 refl
  commit_or_fail-IsSafe true cfg (some rules) n h = absurd (none≢some (sym (h.1 refl)))
  commit_or_fail-IsSafe false cfg (some rules) n h =
      (refl, ensure_invariants-HasInvariants (record cfg { rules = rules }) n)

  -- DeleteRule, whatever the identifier and the store: it is refused exactly where a rule with the
  -- identifier is of type MATCH, and otherwise the saved rule list has the invariants.
  pub delete_rule-IsSafe :
      (id : Text) (cfg : AppConfig) (n : ℕ)
      → IsSafe (any (is_protected id) cfg.rules) (delete_rule id cfg n).0
  unfolding delete_rule
  delete_rule-IsSafe id cfg n =
      commit_or_fail-IsSafe (any (is_protected id) cfg.rules) cfg (delete_loop id cfg.rules) n
        (delete_loop-none_iff id cfg.rules)

  -- MoveRule, whatever the identifier, the direction and the store: it is refused exactly where the
  -- first rule with the identifier is of type MATCH, and otherwise the saved rule list has the
  -- invariants.
  pub move_rule-IsSafe :
      (id direction : Text) (cfg : AppConfig) (n : ℕ)
      → IsSafe (is_fixed id cfg.rules) (move_rule id direction cfg n).0
  unfolding move_rule
  move_rule-IsSafe id direction cfg n =
      commit_or_fail-IsSafe (is_fixed id cfg.rules) cfg (move_loop id direction cfg.rules) n
        (move_loop-none_iff id direction cfg.rules)
