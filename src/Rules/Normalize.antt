-- ===== src/Rules/Normalize.antt =====
-- internal/rules/normalize.go; `cleanHost` is in Catalog.antt
use proxy_rule_manager.Common.{
  Bool, not, ◌&&◌, ◌||◌, Option, none, some, [], ◌∷◌, ◌++◌, if◌then◌else◌, ◌==◌, any,
}
use proxy_rule_manager.Text.{
  Text, codes, text_beq, trim, trim_space, trim_prefix, trim_suffix, has_prefix, contains,
  is_bracket, replace_all,
}
use proxy_rule_manager.Platform.{Platform, Bytes, to_lower, equal_fold}
use proxy_rule_manager.Net.{to4}
use proxy_rule_manager.Model.{
  RuleType, domain, domain_suffix, domain_keyword, domain_regex, ip_cidr, RuleTarget, Rule,
}
use proxy_rule_manager.Model.Equality.{type_beq, target_beq}
use proxy_rule_manager.Rules.Catalog.{clean_host}

-- The empty rule type "" of Go.
abbrev pub no_type : RuleType
no_type = RuleType.other []

unfoldable pub looks_like_regex : Text → Bool
looks_like_regex value =
    any (λ c. contains value (c ∷ []))
      (b'^' ∷ b'$' ∷ b'[' ∷ b']' ∷ b'(' ∷ b')' ∷ b'|' ∷ b'\\' ∷ b'+' ∷ [])

unfoldable pub is_likely_hostname : Text → Bool
is_likely_hostname value = contains value (codes ".") && not (contains value (codes " "))

module _ ⦃p : Platform⦄ where
  -- the loop over the two URL prefixes of `DetectRuleType`
  unfoldable pub strip_url : Text → Text
  strip_url value =
      if has_prefix value (codes "https://") || has_prefix value (codes "http://")
      then elim (p.url_hostname value) [ some host ↦ host | none ↦ value ]
      else value

  -- the trimming in front of the switch
  unfoldable pub strip_decoration : Text → Text
  strip_decoration value =
      let spaceless = trim_space value in
      let starless = trim_prefix spaceless (codes "*.") in
      let dotless = trim_prefix starless (codes ".") in
      let slashless = trim_suffix dotless (codes "/") in trim is_bracket slashless

  unfoldable pub detect_by_prefix : Text → Option (RuleType × Text)
  detect_by_prefix value =
      if has_prefix value (codes "domain-suffix:")
      then some (domain_suffix, clean_host (trim_prefix value (codes "domain-suffix:")))
      else if has_prefix value (codes "suffix:")
      then some (domain_suffix, clean_host (trim_prefix value (codes "suffix:")))
      else if has_prefix value (codes "domain:")
      then some (domain, clean_host (trim_prefix value (codes "domain:")))
      else if has_prefix value (codes "keyword:")
      then some (domain_keyword, trim_space (trim_prefix value (codes "keyword:")))
      else if has_prefix value (codes "regex:")
      then some (domain_regex, trim_space (trim_prefix value (codes "regex:")))
      else if has_prefix value (codes "cidr:")
      then some (ip_cidr, trim_space (trim_prefix value (codes "cidr:")))
      else none

  abbrev with_bits : Text → Bytes → RuleType × Text
  with_bits value ip = elim (to4 ip) [
    | some _ ↦ (ip_cidr, value ++ codes "/32")
    | none ↦ (ip_cidr, value ++ codes "/128")
  ]

  -- the tests on hosts, behind those on addresses
  unfoldable pub detect_host : Text → Text → RuleType × Text
  unfolding looks_like_regex is_likely_hostname
  detect_host raw value =
      if looks_like_regex value
      then (domain_regex, raw)
      else if contains value (codes "*")
      then (domain_suffix, clean_host (replace_all b'*' [] value))
      else if is_likely_hostname value
      then (domain_suffix, clean_host value)
      else (domain_keyword, trim_space raw)

  unfoldable pub detect_plain : Text → Text → RuleType × Text
  unfolding to4 detect_host
  detect_plain raw value = elim (p.parse_cidr value) [
    | some _ ↦ (ip_cidr, value)
    | none ↦ elim (p.parse_ip value) [ some ip ↦ with_bits value ip | none ↦ detect_host raw value ]
  ]

  unfoldable pub detect_rule_type : Text → RuleType × Text
  unfolding strip_url strip_decoration detect_by_prefix detect_plain
  detect_rule_type raw =
      let lowered = trim_space (to_lower raw) in
      let value = strip_decoration (strip_url lowered) in
      if lowered == []
      then (no_type, [])
      else elim (detect_by_prefix value) [ some found ↦ found | none ↦ detect_plain raw value ]

  -- `none` where the Go function returns false
  unfoldable pub normalize_rule_input : Text → RuleTarget → Text → Text → Bool → Option Rule
  unfolding detect_rule_type
  normalize_rule_input raw fallback_target fallback_folder fallback_remark enabled =
      let value = trim_space raw in
      let (rule_type, normalized) = detect_rule_type value in
      if value == [] || rule_type == no_type || normalized == [] || rule_type == RuleType.match
      then none
      else some (record {
        id = [];
        enabled = enabled;
        type = rule_type;
        value = normalized;
        target = fallback_target;
        folder = trim_space fallback_folder;
        remark = trim_space fallback_remark;
      })

  unfoldable pub same_rule_pattern : Rule → Rule → Bool
  same_rule_pattern left right =
      left.type == right.type && equal_fold (trim_space left.value) (trim_space right.value)

  unfoldable pub equivalent_rule : Rule → Rule → Bool
  equivalent_rule left right =
      left.type == right.type
      && equal_fold (trim_space left.value) (trim_space right.value)
      && left.target == right.target
