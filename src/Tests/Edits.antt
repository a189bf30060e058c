-- ===== src/Tests/Edits.antt =====
-- Concrete runs of the rule edits.
use proxy_rule_manager.Common.{
  ℕ, ◌≤◌, arith, ◌==◌, ◌≡◌, ◌≢◌, true, false, some, List, [], ◌∷◌, ◌++◌, All, refl, arith, any,
}
use proxy_rule_manager.Text.{
  codes, text_eq, is_empty, trim_space, trim, trim_left, trim_right, trim_prefix, trim_suffix,
  is_space, has_prefix, has_suffix, contains,
}
use proxy_rule_manager.Model.{RuleType, Rule, proxy, reject, domain, AppConfig}
use proxy_rule_manager.Model.Equality.{type_eq, target_eq}
use proxy_rule_manager.Rules.Engine.{match, matched_at, normalize_host, match_rule}
use proxy_rule_manager.Rules.Engine.FirstMatch.{hit}
use proxy_rule_manager.Rules.Normalize.{same_rule_pattern, equivalent_rule}
use proxy_rule_manager.Config.Rules.{
  is_fallback, prepare_rule, split_rules, add_builtins, close_rules, ensure_rules,
}
use proxy_rule_manager.Rules.Catalog.{
  common_domain_families, common_domain_rules, family_rules, in_domain, find_family, clean_host,
  match_domain_family, default_folder_for_rule, default_remark_for_rule,
}
use proxy_rule_manager.Config.Rules.Invariants.{ensure_rules-HasInvariants}
use proxy_rule_manager.Config.Store.{ensure_invariants}
use proxy_rule_manager.RuleEdit.Change.{Change, added, merge_duplicate_rules, apply_rule_change}
use proxy_rule_manager.RuleEdit.Change.Laws.{
  apply_rule_change-added, added_keeps_answer, added_answers, merge_duplicate_rules_first, others,
}
use proxy_rule_manager.RuleEdit.Change.Total.{apply_rule_change_total}
use proxy_rule_manager.RuleEdit.Commands.{
  Outcome, saved, BatchRuleRequest, delete_loop, upsert_rule, batch_upsert_rules, delete_rule,
  move_rule, move_loop, find_position, move_at, swap_next,
}
use proxy_rule_manager.RuleEdit.Commands.Safety.{
  IsSafe, IsSafeBatch, upsert_rule-IsSafe, batch_upsert_rules-IsSafeBatch,
}
use proxy_rule_manager.RuleEdit.Commands.Refusal.{is_fixed, delete_rule-IsSafe, move_rule-IsSafe}
use proxy_rule_manager.RuleEdit.Normalize.{split_batch_content}
use proxy_rule_manager.Model.Equality.{type_beq}
use proxy_rule_manager.RuleEdit.Commands.Move.{IsReordered, move_rule-IsReordered}
use proxy_rule_manager.RuleEdit.Commands.Delete.{is_protected, delete_rule-removes}
use proxy_rule_manager.Tests.{
  ascii, plain_rule, example_com, ads, last_rule, sample_rules, sample_config,
}

abbrev mail : Rule
mail = plain_rule (codes "r5") domain (codes "mail.test") reject

abbrev ordinary : List Rule
ordinary = example_com ∷ ads ∷ []

abbrev request : BatchRuleRequest
request = record {
  content = codes "a.test, b.test";
  target = proxy;
  folder = [];
  remark = [];
  enabled = true;
}

rule_tests : Unit {0}
unfolding text_eq type_eq target_eq trim_space equivalent_rule normalize_host match_rule match
    delete_loop find_position move_at swap_next
rule_tests = tt

upsert_rule-IsSafe_example :
    IsSafe (mail.type == RuleType.match) (upsert_rule mail sample_config 0).0
upsert_rule-IsSafe_example = upsert_rule-IsSafe mail sample_config 0 refl

batch_upsert_rules-IsSafeBatch_example :
    IsSafeBatch
      (is_empty (split_batch_content request.content))
      (batch_upsert_rules request sample_config 0).0
batch_upsert_rules-IsSafeBatch_example = batch_upsert_rules-IsSafeBatch request sample_config 0 refl

delete_rule-IsSafe_example :
    IsSafe
      (any (is_protected (codes "r1")) sample_config.rules)
      (delete_rule (codes "r1") sample_config 0).0
delete_rule-IsSafe_example = delete_rule-IsSafe (codes "r1") sample_config 0

move_rule-IsSafe_example :
    IsSafe
      (is_fixed (codes "r1") sample_config.rules)
      (move_rule (codes "r1") (codes "down") sample_config 0).0
move_rule-IsSafe_example = move_rule-IsSafe (codes "r1") (codes "down") sample_config 0

apply_rule_change_total_example :
    (next : List Rule) × (change : Change) × (apply_rule_change mail sample_rules
      ≡ some (next, change))
    × (is_empty next ≡ false)
apply_rule_change_total_example = apply_rule_change_total mail sample_rules refl

apply_rule_change-added_example :
    apply_rule_change mail sample_rules ≡ some (ordinary ++ (mail ∷ (last_rule ∷ [])), added)
unfolding rule_tests
apply_rule_change-added_example =
    apply_rule_change-added mail last_rule ordinary
      (ground arith, (ground arith, (ground arith, tt))) (refl, (refl, (refl, tt)))

added_keeps_answer_example :
    (next : List Rule) × (apply_rule_change mail sample_rules ≡ some (next, added))
    × (match (codes "www.example.com") next ≡ match (codes "www.example.com") sample_rules)
unfolding rule_tests has_suffix
added_keeps_answer_example =
    added_keeps_answer (codes "www.example.com") mail last_rule ordinary 0 example_com
      (hit (refl, refl)) (ground arith, (ground arith, (ground arith, tt)))
      (refl, (refl, (refl, tt)))

added_answers_example :
    (next : List Rule) × (apply_rule_change mail sample_rules ≡ some (next, added))
    × (match (codes "mail.test") next ≡ (mail, matched_at 2 mail))
unfolding rule_tests has_suffix contains has_prefix
added_answers_example =
    added_answers (codes "mail.test") mail last_rule ordinary (ground arith, (ground arith, tt))
      (refl, refl) (ground arith, (ground arith, (ground arith, tt))) (refl, (refl, (refl, tt)))

abbrev noted : Rule
noted = record example_com { id = codes "r7"; remark = codes "note" }

merge_duplicate_rules_first_example :
    merge_duplicate_rules (codes "r1") (example_com ∷ (noted ∷ (last_rule ∷ [])))
    ≡ example_com ∷ others (codes "r1") example_com (noted ∷ (last_rule ∷ []))
merge_duplicate_rules_first_example =
    merge_duplicate_rules_first example_com (noted ∷ (last_rule ∷ []))

-- A rule with the first identifier that the program took.
abbrev issued_config : AppConfig
issued_config = record sample_config {
  rules = record example_com { id = ascii.uuid 0 } ∷ ads ∷ last_rule ∷ [];
}

abbrev without_issued : AppConfig
without_issued = (ensure_invariants (record sample_config { rules = ads ∷ last_rule ∷ [] }) 1).0

not_issued_again : (m : ℕ) → 1 ≤ m → ascii.uuid m ≢ ascii.uuid 0
not_issued_again m h e = let same = ascii.uuid_injective m 0 e in omega (arith, h, same)

delete_rule-removes_example : All (λ r. r.id ≢ ascii.uuid 0) without_issued.rules
unfolding delete_rule rule_tests
delete_rule-removes_example =
    delete_rule-removes (ascii.uuid 0) issued_config without_issued 1 not_issued_again refl

abbrev settled_config : AppConfig
settled_config = record sample_config { rules = (ensure_rules sample_rules 0).0 }

abbrev saved_or : AppConfig → Outcome AppConfig → AppConfig
saved_or cfg (saved cfg') = cfg'
saved_or cfg Outcome.failed = cfg
saved_or cfg Outcome.panicked = cfg

abbrev moved_config : AppConfig
moved_config = saved_or sample_config (move_rule (codes "r1") (codes "down") settled_config 99).0

move_rule-IsReordered_example :
    IsReordered
      (ensure_rules-HasInvariants sample_rules 0).ordinary
      (ensure_rules-HasInvariants sample_rules 0).last
      moved_config.rules
unfolding move_rule move_loop rule_tests common_domain_rules add_builtins close_rules ensure_rules
    is_fallback prepare_rule split_rules clean_host common_domain_families default_folder_for_rule
    default_remark_for_rule family_rules find_family in_domain match_domain_family same_rule_pattern
    has_prefix has_suffix is_space trim trim_left trim_prefix trim_right trim_suffix
move_rule-IsReordered_example =
    move_rule-IsReordered (codes "r1") (codes "down") settled_config moved_config 99
      (ensure_rules-HasInvariants sample_rules 0) refl
