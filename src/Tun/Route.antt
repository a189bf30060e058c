-- ===== src/Tun/Route.antt =====
-- decideAppRoute, forcedAppDecision and fallbackAppDecision
pub mod Laws
use proxy_rule_manager.Common.{
  ℕ, Bool, true, false, Option, none, some, List, [], ◌∷◌, ◌++◌, if◌then◌else◌, ◌==◌,
}
use proxy_rule_manager.Common.Int.{negsuc}
use proxy_rule_manager.Text.{Text, codes, text_beq}
use proxy_rule_manager.Platform.{Platform, Bytes}
use proxy_rule_manager.Net.{to4}
use proxy_rule_manager.Net.HostPort.{normalize_detected_host}
use proxy_rule_manager.Model.{
  RuleTarget, proxy, direct, reject, RuleType, ip_cidr, Rule, MatchedRule, TunAppRoutingMode,
  rules_proxy_fallback, rules_direct_fallback, force_proxy, force_direct,
}
use proxy_rule_manager.Model.Equality.{type_beq}
use proxy_rule_manager.Rules.Engine.{match}

pub record AppRouteDecision : Type 0 where
  pub rule : Rule
  pub matched : MatchedRule
  pub host : Text
  pub match_host : Text
  pub basis : Text

abbrev match_rule_to : RuleTarget → Rule
match_rule_to target = record {
  id = [];
  enabled = false;
  type = RuleType.match;
  value = codes "MATCH";
  target = target;
  folder = [];
  remark = [];
}

-- string(target)
abbrev target_text : RuleTarget → Text
target_text proxy = codes "PROXY"
target_text direct = codes "DIRECT"
target_text reject = codes "REJECT"
target_text (RuleTarget.other s) = s

unfoldable pub fallback_app_decision : RuleTarget → Text → Text → AppRouteDecision
fallback_app_decision target matched_value basis = record {
  rule = match_rule_to target;
  matched = record { index = negsuc 0; type = RuleType.match; value = matched_value };
  host = [];
  match_host = [];
  basis = basis;
}

unfoldable pub forced_app_decision : RuleTarget → Text → AppRouteDecision
forced_app_decision target basis = record {
  rule = match_rule_to target;
  matched = record {
    index = negsuc 0;
    type = RuleType.match;
    value = codes "APP-PROFILE-" ++ target_text target;
  };
  host = [];
  match_host = [];
  basis = basis;
}

abbrev pub decision_for : Text → Text → Rule × MatchedRule → AppRouteDecision
decision_for host basis (rule, matched) = record {
  rule = rule;
  matched = matched;
  host = host;
  match_host = host;
  basis = basis;
}

-- the last switch
unfoldable pub fall_back : TunAppRoutingMode → AppRouteDecision
unfolding fallback_app_decision
fall_back rules_direct_fallback =
    fallback_app_decision direct (codes "APP-FALLBACK-DIRECT") (codes "fallback-direct")
fall_back rules_proxy_fallback =
    fallback_app_decision proxy (codes "APP-FALLBACK-PROXY") (codes "fallback-proxy")
fall_back force_proxy =
    fallback_app_decision proxy (codes "APP-FALLBACK-PROXY") (codes "fallback-proxy")
fall_back force_direct =
    fallback_app_decision proxy (codes "APP-FALLBACK-PROXY") (codes "fallback-proxy")
fall_back (TunAppRoutingMode.other _) =
    fallback_app_decision proxy (codes "APP-FALLBACK-PROXY") (codes "fallback-proxy")

module _ ⦃p : Platform⦄ where
  -- the part for a connection with no host name
  unfoldable pub route_by_address : Bytes → List Rule → TunAppRoutingMode → AppRouteDecision
  route_by_address remote_ip rules mode = elim (to4 remote_ip) [
    | none ↦ fall_back mode
    | some ip ↦
        let found = match (p.ip_string ip) rules in
        if found.1.type == ip_cidr
        then decision_for (p.ip_string ip) (codes "ip-cidr") found
        else fall_back mode
  ]

  -- the part behind the switch on the mode
  unfoldable pub route_by_rules : Text → Bytes → List Rule → TunAppRoutingMode → AppRouteDecision
  route_by_rules sniffed_host remote_ip rules mode =
      let host = normalize_detected_host sniffed_host in
      if host == []
      then route_by_address remote_ip rules mode
      else decision_for host (codes "host") (match host rules)

  unfoldable pub decide_app_route : Text → Bytes → List Rule → TunAppRoutingMode → AppRouteDecision
  unfolding forced_app_decision
  decide_app_route sniffed_host remote_ip rules force_direct =
      forced_app_decision direct (codes "profile-force-direct")
  decide_app_route sniffed_host remote_ip rules force_proxy =
      forced_app_decision proxy (codes "profile-force-proxy")
  decide_app_route sniffed_host remote_ip rules rules_proxy_fallback =
      route_by_rules sniffed_host remote_ip rules rules_proxy_fallback
  decide_app_route sniffed_host remote_ip rules rules_direct_fallback =
      route_by_rules sniffed_host remote_ip rules rules_direct_fallback
  decide_app_route sniffed_host remote_ip rules (TunAppRoutingMode.other mode) =
      route_by_rules sniffed_host remote_ip rules (TunAppRoutingMode.other mode)
