-- ===== src/Tests.antt =====
-- A platform and sample data for the tests: ASCII case mapping, a parser that knows the address
-- 10.0.0.1 and the network 10.0.0.0/8, and identifiers of one character.
mod Matching
mod Store
mod Edits
mod Runtime
mod Tunnel
mod Monitoring
mod Routes
use proxy_rule_manager.Common.{
  ℕ, ◌-◌, ◌≡◌, ◌≢◌, Bool, true, false, ◌&&◌, Option, none, some, List, [], ◌∷◌, ◌++◌, refl, arith,
  leb, nat_eq, if◌then◌else◌, ◌==◌, Bool-cases, inl, inr,
}
use proxy_rule_manager.Common.Int.{pos}
use proxy_rule_manager.Text.{Text, codes, is_space, text_beq}
use proxy_rule_manager.Platform.{Platform, Bytes, Network, ascii_lower}
use proxy_rule_manager.Model.{
  RuleType, domain_suffix, domain, domain_keyword, ip_cidr, RuleTarget, proxy, direct, reject, Rule,
  AppConfig, TrafficLog, active,
}

pub ascii_lower-lower : (c : ℕ) → ascii_lower (ascii_lower c) ≡ ascii_lower c
ascii_lower-lower c = ground arith

pub is_space-ascii_lower : (c : ℕ) → is_space (ascii_lower c) ≡ is_space c
unfolding is_space
is_space-ascii_lower c = elim (Bool-cases (leb b'A' c && leb c b'Z')) [
  | inl e ↦ rw e (ground (arith, e))
  | inr e ↦ rw e
]

abbrev pub ten : Bytes
ten = 10 ∷ 0 ∷ 0 ∷ 1 ∷ []

abbrev tens : Network
tens = record { base = 10 ∷ 0 ∷ 0 ∷ 0 ∷ []; mask = 255 ∷ 0 ∷ 0 ∷ 0 ∷ [] }

abbrev parse_ten : Text → Option Bytes
parse_ten s = if s == codes "10.0.0.1" then some ten else none

abbrev parse_tens : Text → Option (Bytes × Network)
parse_tens s = if s == codes "10.0.0.0/8" then some (ten, tens) else none

pub first_inj : (m n : ℕ) → ◌≡◌ {A = List ℕ} (m ∷ []) (n ∷ []) → m ≡ n
first_inj m n e = cc

pub first_ne : (m : ℕ) → ◌≢◌ {A = List ℕ} (m ∷ []) []
first_ne m e = cc

instance abbrev pub ascii : Platform
ascii = record {
  lower = ascii_lower;
  upper = λ c. if leb b'a' c && leb c b'z' then c - 32 else c;
  fold = ascii_lower;
  parse_ip = parse_ten;
  ip_string = λ _. codes "10.0.0.1";
  parse_cidr = parse_tens;
  url_hostname = λ _. none;
  compile = λ _. none;
  path_match = λ pattern s. pattern == s;
  decode = λ s. s;
  uuid = λ n. n ∷ [];
  lower_ascii = λ c _. refl;
  lower_idem = ascii_lower-lower;
  is_space-lower = is_space-ascii_lower;
  uuid_ne_nil = first_ne;
  uuid_injective = first_inj;
}

abbrev pub plain_rule : Text → RuleType → Text → RuleTarget → Rule
plain_rule id type value target = record {
  id = id;
  enabled = true;
  type = type;
  value = value;
  target = target;
  folder = [];
  remark = [];
}

abbrev pub example_com : Rule
example_com = plain_rule (codes "r1") domain_suffix (codes "example.com") proxy

abbrev pub ads : Rule
ads = plain_rule (codes "r2") domain_keyword (codes "ads") reject

abbrev pub tens_rule : Rule
tens_rule = plain_rule (codes "r3") ip_cidr (codes "10.0.0.0/8") reject

abbrev pub last_rule : Rule
last_rule = plain_rule (codes "r9") RuleType.match (codes "MATCH") direct

abbrev pub sample_rules : List Rule
sample_rules = example_com ∷ ads ∷ last_rule ∷ []

abbrev pub sample_config : AppConfig
sample_config = record {
  rules = sample_rules;
  pac_listen_addr = [];
  proxy_listen_addr = [];
  upstream_proxy_addr = [];
  upstream_proxy_type = [];
  proxy_interface_name = [];
  upstream_proxy_route_enabled = false;
  upstream_proxy_route_interface = [];
  upstream_proxy_route_targets = [];
  proxy_guard_enabled = false;
  proxy_guard_interface = [];
  proxy_guard_program_paths = [];
  direct_interface_name = [];
  tun_interface_name = [];
  tun_address_cidr = [];
  tun_mtu = pos 0;
  tun_app_profiles = [];
  tun_included_apps = [];
  auto_start_tun_service = false;
  auto_start_pac_service = false;
  auto_start_proxy_service = false;
  auto_enable_system_pac = false;
  disable_system_pac_on_exit = false;
  max_log_entries = pos 0;
  saved_windows_proxy = none;
}
