-- ===== src/Rules/Engine.antt =====
-- internal/rules/engine.go
pub mod FirstMatch
use proxy_rule_manager.Common.{
  ℕ, suc, Bool, true, false, ◌||◌, ◌&&◌, Option, none, some, List, [], ◌∷◌, ◌++◌, if◌then◌else◌,
  ◌==◌, length,
}
use proxy_rule_manager.Common.Int.{pos, pred_ℤ}
use proxy_rule_manager.Text.{Text, codes, text_beq, trim, trim_space, is_dot, has_suffix, contains}
use proxy_rule_manager.Platform.{Platform, to_lower}
use proxy_rule_manager.Net.{net_contains}
use proxy_rule_manager.Model.{
  RuleType, domain, domain_suffix, domain_keyword, domain_regex, ip_cidr, direct, Rule, MatchedRule,
}

module _ ⦃p : Platform⦄ where
  unfoldable pub normalize_host : Text → Text
  normalize_host host = trim is_dot (trim_space (to_lower host))

  -- `matchRule` on the rule's type and value
  unfoldable pub match_value : RuleType → Text → Text → Bool
  match_value domain value host = host == normalize_host value
  match_value domain_suffix value host =
      host == normalize_host value || has_suffix host (b'.' ∷ normalize_host value)
  match_value domain_keyword value host = contains host (to_lower (trim_space value))
  match_value domain_regex value host = elim (p.compile (trim_space value)) [
    | none ↦ false
    | some re ↦ re host
  ]
  match_value ip_cidr value host = elim (p.parse_ip host) [
    | none ↦ false
    | some ip ↦ elim (p.parse_cidr (trim_space value)) [
      | none ↦ false
      | some (_, network) ↦ net_contains network ip
    ]
  ]
  match_value RuleType.match value host = true
  match_value (RuleType.other _) value host = false

  unfoldable pub match_rule : Text → Rule → Bool
  unfolding match_value
  match_rule host rule = match_value rule.type rule.value host

  abbrev pub matched_at : ℕ → Rule → MatchedRule
  matched_at idx rule = record { index = pos idx; type = rule.type; value = rule.value }

  -- the loop of `Match`, from position `idx`
  unfoldable pub match_from : Text → ℕ → List Rule → Option (Rule × MatchedRule)
  match_from host idx [] = none
  match_from host idx (rule ∷ rules) =
      let rest = match_from host (suc idx) rules in
      if rule.enabled && match_rule host rule then some (rule, matched_at idx rule) else rest

  abbrev pub fallback : Rule
  fallback = record {
    id = [];
    enabled = false;
    type = RuleType.match;
    value = codes "MATCH";
    target = direct;
    folder = [];
    remark = [];
  }

  abbrev pub fallback_matched : List Rule → MatchedRule
  fallback_matched rules = record {
    index = pred_ℤ (length rules);
    type = RuleType.match;
    value = codes "MATCH";
  }

  unfoldable pub match : Text → List Rule → Rule × MatchedRule
  unfolding match_from match_rule normalize_host
  match host rules = elim (match_from (normalize_host host) 0 rules) [
    | some found ↦ found
    | none ↦ (fallback, fallback_matched rules)
  ]
