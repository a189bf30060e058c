-- ===== src/RuleEdit/Normalize.antt =====
-- app.go: normalizeSingleRule, expandRuleSet, mergeRemarks, splitBatchContent
use proxy_rule_manager.Common.{
  ℕ, Bool, true, false, not, ◌&&◌, ◌||◌, List, [], ◌∷◌, ◌++◌, map, if◌then◌else◌, ◌==◌, nat_eq,
}
use proxy_rule_manager.Text.{Text, codes, text_beq, trim_space, is_empty}
use proxy_rule_manager.Platform.{Platform}
use proxy_rule_manager.Model.{
  RuleType, domain, domain_suffix, domain_keyword, domain_regex, ip_cidr, Rule,
}
use proxy_rule_manager.Model.Equality.{type_beq}
use proxy_rule_manager.Rules.Catalog.{expand_rule_siblings}
use proxy_rule_manager.Rules.Normalize.{no_type, detect_rule_type}
use proxy_rule_manager.Config.Rules.{labelled}
use proxy_rule_manager.Config.Lists.{normalize_string_list}

-- The switch of `normalizeSingleRule`: a type of the form keeps, any other takes the type detected.
-- The inner test on DOMAIN assigns the type that the rule has.
unfoldable pub kept_type : RuleType → RuleType → RuleType
kept_type RuleType.match detected = detected
kept_type (RuleType.other _) detected = detected
kept_type domain detected = domain
kept_type domain_suffix detected = domain_suffix
kept_type domain_keyword detected = domain_keyword
kept_type domain_regex detected = domain_regex
kept_type ip_cidr detected = ip_cidr

-- mergeRemarks on trimmed texts
abbrev joined : Text → Text → Text
joined left right =
    if left == []
    then right
    else if right == []
    then left
    else if left == right
    then left
    else left ++ (codes " | " ++ right)

unfoldable pub merge_remarks : Text → Text → Text
merge_remarks left right = joined (trim_space left) (trim_space right)

module _ ⦃p : Platform⦄ where
  unfoldable pub retyped : Rule → Rule
  unfolding kept_type
  retyped rule =
      let (detected_type, detected_value) = detect_rule_type rule.value in
      if rule.type == no_type || not (trim_space rule.value == detected_value)
      then record rule { type = kept_type rule.type detected_type; value = detected_value }
      else rule

  abbrev trimmed_fields : Rule → Rule
  trimmed_fields rule = record rule {
    value = trim_space rule.value;
    folder = trim_space rule.folder;
    remark = trim_space rule.remark;
  }

  unfoldable pub normalize_single_rule : Rule → Rule
  unfolding retyped
  normalize_single_rule rule = labelled (trimmed_fields (retyped rule))

  unfoldable pub expand_rule_set : Rule → List Rule
  unfolding normalize_single_rule
  expand_rule_set rule = map normalize_single_rule (expand_rule_siblings rule)

  -- strings.NewReplacer on the line ends and the full-width separators; the flag says that the last
  -- character was a carriage return.
  unfoldable pub replace_separators : Bool → Text → Text
  replace_separators after_cr [] = []
  replace_separators after_cr (c ∷ s) =
      let swallowed = replace_separators false s in
      let line = 10 ∷ replace_separators true s in
      let comma = b',' ∷ replace_separators false s in
      let semicolon = b';' ∷ replace_separators false s in
      let plain = c ∷ replace_separators false s in
      if after_cr && nat_eq c 10
      then swallowed
      else if nat_eq c 13
      then line
      else if nat_eq c 0xff0c
      then comma
      else if nat_eq c 0xff1b
      then semicolon
      else plain

  abbrev is_separator : ℕ → Bool
  is_separator c = nat_eq c 10 || nat_eq c b',' || nat_eq c b';' || nat_eq c 9

  -- strings.FieldsFunc with the current field
  unfoldable pub fields_from : Text → Text → List Text
  fields_from current [] = if is_empty current then [] else current ∷ []
  fields_from current (c ∷ s) =
      let closed = fields_from [] s in
      let longer = fields_from (current ++ c ∷ []) s in
      if is_separator c then (if is_empty current then closed else current ∷ closed) else longer

  unfoldable pub split_batch_content : Text → List Text
  unfolding replace_separators fields_from normalize_string_list
  split_batch_content content =
      normalize_string_list (fields_from [] (replace_separators false content))
