-- ===== src/Model.antt =====
-- The data of internal/model (types.go). A string type with named constants is a data type whose
-- constructor `other` holds any string that is none of them.
pub mod Equality
pub mod Safety
use proxy_rule_manager.Common.{ℕ, Bool, Option, List}
use proxy_rule_manager.Common.Int.{ℤ}
use proxy_rule_manager.Text.{Text}

pub data RuleTarget : Type 0 where
  proxy direct reject : RuleTarget
  other : Text → RuleTarget

pub data RuleType : Type 0 where
  domain domain_suffix domain_keyword domain_regex ip_cidr match : RuleType
  other : Text → RuleType

pub record Rule : Type 0 where
  pub id : Text
  pub enabled : Bool
  pub type : RuleType
  pub value : Text
  pub target : RuleTarget
  pub folder : Text
  pub remark : Text

pub record MatchedRule : Type 0 where
  pub index : ℤ
  pub type : RuleType
  pub value : Text

pub data TrafficStatus : Type 0 where
  active closed error : TrafficStatus
  other : Text → TrafficStatus

-- Counters are not negative in the program.
pub record TrafficLog : Type 0 where
  pub id : Text
  pub time : Text
  pub source : Text
  pub host : Text
  pub port : Text
  pub protocol : Text
  pub process_id : ℕ
  pub process_name : Text
  pub process_path : Text
  pub matched_rule_type : RuleType
  pub matched_rule_value : Text
  pub matched_rule_index : ℤ
  pub target : RuleTarget
  pub path : Text
  pub upload_bytes : ℕ
  pub download_bytes : ℕ
  pub duration_ms : ℕ
  pub status : TrafficStatus
  pub error : Text

pub record WindowsProxyConfig : Type 0 where
  pub auto_config_url : Text
  pub proxy_enable : Bool
  pub proxy_server : Text

pub data TunAppRoutingMode : Type 0 where
  rules_proxy_fallback rules_direct_fallback force_proxy force_direct : TunAppRoutingMode
  other : Text → TunAppRoutingMode

pub record TunAppProfile : Type 0 where
  pub id : Text
  pub name : Text
  pub enabled : Bool
  pub queries : List Text
  pub routing_mode : TunAppRoutingMode
  pub bypass_transparent_proxy : Bool
  pub remark : Text

pub record AppConfig : Type 0 where
  pub rules : List Rule
  pub pac_listen_addr : Text
  pub proxy_listen_addr : Text
  pub upstream_proxy_addr : Text
  pub upstream_proxy_type : Text
  pub proxy_interface_name : Text
  pub upstream_proxy_route_enabled : Bool
  pub upstream_proxy_route_interface : Text
  pub upstream_proxy_route_targets : List Text
  pub proxy_guard_enabled : Bool
  pub proxy_guard_interface : Text
  pub proxy_guard_program_paths : List Text
  pub direct_interface_name : Text
  pub tun_interface_name : Text
  pub tun_address_cidr : Text
  pub tun_mtu : ℤ
  pub tun_app_profiles : List TunAppProfile
  pub tun_included_apps : List Text
  pub auto_start_tun_service : Bool
  pub auto_start_pac_service : Bool
  pub auto_start_proxy_service : Bool
  pub auto_enable_system_pac : Bool
  pub disable_system_pac_on_exit : Bool
  pub max_log_entries : ℤ
  pub saved_windows_proxy : Option WindowsProxyConfig
