-- ===== src/Config/Rules.antt =====
-- The rule list of the store: `defaultRules` and the part of `ensureInvariants` that keeps the
-- identifiers, the built-in rules and the fallback rule.
pub mod Settled
pub mod Builtins
pub mod Invariants
use proxy_rule_manager.Common.{
  Bool, true, false, ◌&&◌, Option, none, some, List, [], ◌∷◌, ◌++◌, if◌then◌else◌, ◌==◌, any,
}
use proxy_rule_manager.Text.{Text, codes, text_beq, is_empty}
use proxy_rule_manager.Platform.{Platform}
use proxy_rule_manager.Ids.{Ids, pure, ◌>>=◌, new_id}
use proxy_rule_manager.Model.{RuleType, direct, Rule}
use proxy_rule_manager.Model.Equality.{type_beq, target_beq}
use proxy_rule_manager.Rules.Catalog.{
  common_domain_rules, default_folder_for_rule, default_remark_for_rule,
}
use proxy_rule_manager.Rules.Normalize.{same_rule_pattern}

abbrev pub fallback_rule : Text → Rule
fallback_rule id = record {
  id = id;
  enabled = true;
  type = RuleType.match;
  value = codes "MATCH";
  target = direct;
  folder = codes "系统";
  remark = codes "Fallback rule";
}

unfoldable pub is_fallback : Rule → Bool
is_fallback rule = rule.type == RuleType.match && rule.target == direct

module _ ⦃p : Platform⦄ where
  unfoldable pub with_new_ids : List Rule → Ids (List Rule)
  with_new_ids [] = pure []
  with_new_ids (rule ∷ rules) = do
    id ← new_id
    rest ← with_new_ids rules
    pure (record rule { id = id } ∷ rest)

  unfoldable pub default_rules : Ids (List Rule)
  unfolding with_new_ids
  default_rules = do
    base ← with_new_ids common_domain_rules
    id ← new_id
    pure (base ++ fallback_rule id ∷ [])

  abbrev pub labelled : Rule → Rule
  labelled rule =
      let foldered = record rule { folder = default_folder_for_rule rule } in
      record foldered { remark = default_remark_for_rule foldered }

  -- the head of the first loop of `ensureInvariants`: the missing id and the default labels
  unfoldable pub prepare_rule : Rule → Ids Rule
  prepare_rule rule n =
      if rule.id == []
      then (labelled (record rule { id = (new_id n).0 }), (new_id n).1)
      else (labelled rule, n)

  -- the first loop, with `filtered` and `fallback`
  unfoldable pub split_rules : List Rule → Option Rule → List Rule → Ids (List Rule × Option Rule)
  unfolding prepare_rule is_fallback
  split_rules filtered fallback [] = pure (filtered, fallback)
  split_rules filtered fallback (rule ∷ rules) = do
    prepared ← prepare_rule rule
    let as_fallback = split_rules filtered (some prepared) rules
    let as_rule = split_rules (filtered ++ prepared ∷ []) fallback rules
    if is_fallback prepared then as_fallback else as_rule

  -- the loop over the built-in rules
  unfoldable pub add_builtins : List Rule → List Rule → Ids (List Rule)
  unfolding same_rule_pattern
  add_builtins filtered [] n = (filtered, n)
  add_builtins filtered (builtin ∷ builtins) n =
      let present = add_builtins filtered builtins n in
      let added =
        add_builtins (filtered ++ record builtin { id = (new_id n).0 } ∷ []) builtins
          (new_id n).1 in
      if any (λ rule. same_rule_pattern rule builtin) filtered then present else added

  unfoldable pub close_rules : List Rule → Option Rule → Ids (List Rule)
  close_rules filtered (some fallback) = pure (filtered ++ fallback ∷ [])
  close_rules filtered none = do id ← new_id; pure (filtered ++ fallback_rule id ∷ [])

  abbrev pub or_default : List Rule → Ids (List Rule)
  or_default [] = default_rules
  or_default (rule ∷ rules) = pure (rule ∷ rules)

  unfoldable pub ensure_rules : List Rule → Ids (List Rule)
  unfolding default_rules split_rules add_builtins close_rules
  ensure_rules rules = do
    start ← or_default rules
    (filtered, fallback) ← split_rules [] none start
    complete ← add_builtins filtered common_domain_rules
    close_rules complete fallback
