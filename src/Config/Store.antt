-- ===== src/Config/Store.antt =====
-- The store's state and its operations `ensureInvariants`, `Update`, `Replace` and `Get`.
use proxy_rule_manager.Common.{Bool, true, false, Option, none, some, [], if◌then◌else◌, ◌==◌}
use proxy_rule_manager.Common.Int.{ℤ, pos, is_positive}
use proxy_rule_manager.Text.{Text, codes, text_beq}
use proxy_rule_manager.Platform.{Platform}
use proxy_rule_manager.Ids.{Ids, pure, ◌>>=◌}
use proxy_rule_manager.Model.{AppConfig}
use proxy_rule_manager.Config.Lists.{normalize_string_list}
use proxy_rule_manager.Config.Rules.{default_rules, ensure_rules}
use proxy_rule_manager.Config.Profiles.{
  default_tun_app_profiles, flatten_tun_app_profiles, migrate_tun_app_profiles,
}

abbrev pub or_text : Text → Text → Text
or_text s t = if s == [] then t else s

abbrev pub or_size : ℤ → ℤ → ℤ
or_size i j = if is_positive i then i else j

module _ ⦃p : Platform⦄ where
  unfoldable pub default_config : Ids AppConfig
  unfolding default_tun_app_profiles default_rules flatten_tun_app_profiles
  default_config = do
    default_profiles ← default_tun_app_profiles
    rules ← default_rules
    pure (record {
      rules = rules;
      pac_listen_addr = codes "127.0.0.1:18088";
      proxy_listen_addr = codes "127.0.0.1:18089";
      upstream_proxy_addr = codes "127.0.0.1:7892";
      upstream_proxy_type = codes "http";
      proxy_interface_name = [];
      upstream_proxy_route_enabled = false;
      upstream_proxy_route_interface = [];
      upstream_proxy_route_targets = [];
      proxy_guard_enabled = false;
      proxy_guard_interface = [];
      proxy_guard_program_paths = [];
      direct_interface_name = [];
      tun_interface_name = codes "ProxyRuleManagerTun";
      tun_address_cidr = codes "172.19.0.1/30";
      tun_mtu = pos 1500;
      tun_app_profiles = default_profiles;
      tun_included_apps = flatten_tun_app_profiles default_profiles;
      auto_start_tun_service = false;
      auto_start_pac_service = false;
      auto_start_proxy_service = false;
      auto_enable_system_pac = false;
      disable_system_pac_on_exit = false;
      max_log_entries = pos 500;
      saved_windows_proxy = none;
    })

  unfoldable pub ensure_invariants : AppConfig → Ids AppConfig
  unfolding migrate_tun_app_profiles flatten_tun_app_profiles ensure_rules
  ensure_invariants cfg = do
    profiles ← migrate_tun_app_profiles cfg.tun_app_profiles cfg.tun_included_apps
    rules ← ensure_rules cfg.rules
    pure (record cfg {
      rules = rules;
      pac_listen_addr = or_text cfg.pac_listen_addr (codes "127.0.0.1:18088");
      proxy_listen_addr = or_text cfg.proxy_listen_addr (codes "127.0.0.1:18089");
      upstream_proxy_addr = or_text cfg.upstream_proxy_addr (codes "127.0.0.1:7892");
      upstream_proxy_type = or_text cfg.upstream_proxy_type (codes "http");
      upstream_proxy_route_targets = normalize_string_list cfg.upstream_proxy_route_targets;
      tun_interface_name = or_text cfg.tun_interface_name (codes "ProxyRuleManagerTun");
      tun_address_cidr = or_text cfg.tun_address_cidr (codes "172.19.0.1/30");
      tun_mtu = or_size cfg.tun_mtu (pos 1500);
      tun_app_profiles = profiles;
      tun_included_apps = flatten_tun_app_profiles profiles;
      max_log_entries = or_size cfg.max_log_entries (pos 500);
    })

  -- A mutator that fails has changed nothing in the callers of the program, so `none` stands for
  -- its error and leaves the configuration.
  unfoldable pub update : (AppConfig → Ids (Option AppConfig)) → AppConfig → Ids (AppConfig × Bool)
  unfolding ensure_invariants
  update mutator cfg n =
      let (changed, n') = mutator cfg n in
      elim changed [
        | none ↦ ((cfg, false), n')
        | some next ↦ (((ensure_invariants next n').0, true), (ensure_invariants next n').1)
      ]

  unfoldable pub replace : AppConfig → Ids AppConfig
  unfolding ensure_invariants
  replace cfg = ensure_invariants cfg
