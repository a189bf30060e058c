-- ===== src/Model/Equality.antt =====
-- The comparisons `==` of rule types and targets.
use proxy_rule_manager.Common.{◌≡◌, ◌↔◌, Bool, true, false, arith, Comparable}
use proxy_rule_manager.Text.{text_eq, text_eq_iff}
use proxy_rule_manager.Model.{
  RuleTarget, proxy, direct, reject, RuleType, domain, domain_suffix, domain_keyword, domain_regex,
  ip_cidr, match, TrafficStatus, active, closed, error,
}

unfoldable pub type_eq : RuleType → RuleType → Bool
type_eq domain domain = true
type_eq domain_suffix domain_suffix = true
type_eq domain_keyword domain_keyword = true
type_eq domain_regex domain_regex = true
type_eq ip_cidr ip_cidr = true
type_eq match match = true
type_eq (RuleType.other s) (RuleType.other t) = text_eq s t
type_eq _ _ = false

pub type_eq_iff : (a b : RuleType) → (type_eq a b ≡ true) ↔ (a ≡ b)
unfolding type_eq
type_eq_iff domain domain = ground arith
type_eq_iff (RuleType.other s) (RuleType.other t) = ground (arith, text_eq_iff s t)
type_eq_iff _ _ = ground arith

instance abbrev pub type_beq : Comparable RuleType
type_beq = record { same = type_eq; same_iff = type_eq_iff }

unfoldable pub target_eq : RuleTarget → RuleTarget → Bool
target_eq proxy proxy = true
target_eq direct direct = true
target_eq reject reject = true
target_eq (RuleTarget.other s) (RuleTarget.other t) = text_eq s t
target_eq _ _ = false

pub target_eq_iff : (a b : RuleTarget) → (target_eq a b ≡ true) ↔ (a ≡ b)
unfolding target_eq
target_eq_iff proxy proxy = ground arith
target_eq_iff (RuleTarget.other s) (RuleTarget.other t) = ground (arith, text_eq_iff s t)
target_eq_iff _ _ = ground arith

instance abbrev pub target_beq : Comparable RuleTarget
target_beq = record { same = target_eq; same_iff = target_eq_iff }

unfoldable pub status_eq : TrafficStatus → TrafficStatus → Bool
status_eq active active = true
status_eq closed closed = true
status_eq error error = true
status_eq (TrafficStatus.other s) (TrafficStatus.other t) = text_eq s t
status_eq _ _ = false
