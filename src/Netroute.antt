-- ===== src/Netroute.antt =====
-- internal/netroute/routes.go: the routes of Windows that take the nodes of the upstream proxy out by
-- one adapter. What PowerShell answers is a parameter, and its calls are recorded in their order.
pub mod Laws
use proxy_rule_manager.Common.{
  ℕ, Bool, true, false, ◌||◌, ◌&&◌, not, Option, none, some, List, [], ◌∷◌, ◌++◌, if◌then◌else◌,
  ◌==◌, nat_eq, leb, any, length,
}
use proxy_rule_manager.Text.{
  Text, codes, text_beq, trim, trim_space, contains, is_bracket, is_empty,
}
use proxy_rule_manager.Platform.{Platform, Bytes}
use proxy_rule_manager.Net.{to4}
use proxy_rule_manager.Monitor.Decimal.{decimal}

pub record UpstreamProxyRouteOptions : Type 0 where
  pub enabled : Bool
  pub interface_alias : Text
  pub fallback_alias : Text
  pub upstream_addr : Text
  pub program_paths : List Text
  pub manual_targets : List Text
  pub previous_targets : List Text
  pub previous_gateway : Text

pub record UpstreamProxyRouteStatus : Type 0 where
  pub applied : Bool
  pub message : Text
  pub interface_alias : Text
  pub gateway : Text
  pub route_count : ℕ
  pub targets : List Text

pub data Applying : Type 0 where
  through : Text → Applying
  refused : Text → Applying

-- Removal with its error, discovery with the addresses and the error, and application.
pub record Windows : Type 0 where
  pub remove_routes : List Text → Text → Option Text
  pub discover : Text → List Text → List Text × Option Text
  pub apply_routes : Text → List Text → Applying

pub data RouteCall : Type 0 where
  removed : List Text → Text → RouteCall
  applied : Text → List Text → RouteCall

-- The tests of package net on an address in the form that `To4` returns.
unfoldable pub is_unsafe_route_target : Bytes → Bool
is_unsafe_route_target (a ∷ (b ∷ (c ∷ (d ∷ [])))) =
    (nat_eq a 0 && nat_eq b 0 && nat_eq c 0 && nat_eq d 0)
    || nat_eq a 127
    || (leb 224 a && leb a 239)
    || (nat_eq a 169 && nat_eq b 254)
    || (nat_eq a 255 && nat_eq b 255 && nat_eq c 255 && nat_eq d 255)
is_unsafe_route_target _ = false

module _ ⦃p : Platform⦄ where
  -- The part of `normalizeIPv4Target` behind the CIDR form.
  unfoldable pub plain_target : Text → Text
  unfolding to4 is_unsafe_route_target trim
  plain_target trimmed = elim (p.parse_ip (trim is_bracket trimmed)) [
    | none ↦ []
    | some parsed ↦ elim (to4 parsed) [
      | none ↦ []
      | some ip ↦ if is_unsafe_route_target ip then [] else p.ip_string ip
    ]
  ]

  -- A mask has 32 ones of 32 bits where it is 255.255.255.255.
  unfoldable pub normalize_ipv4_target : Text → Text
  unfolding plain_target trim_space contains
  normalize_ipv4_target value =
      let trimmed = trim_space value in
      if is_empty trimmed
      then []
      else if contains trimmed (codes "/")
      then elim (p.parse_cidr trimmed) [
        | none ↦ []
        | some (ip, network) ↦
            if network.mask == 255 ∷ 255 ∷ 255 ∷ 255 ∷ [] then plain_target (p.ip_string ip) else []
      ]
      else plain_target trimmed

  -- The loop of `NormalizeIPv4Targets`, with the addresses that were seen.
  unfoldable pub normalize_targets_from : List Text → List Text → List Text
  unfolding normalize_ipv4_target
  normalize_targets_from seen [] = []
  normalize_targets_from seen (value ∷ values) =
      let ip = normalize_ipv4_target value in
      let skipped = normalize_targets_from seen values in
      let kept = normalize_targets_from (ip ∷ seen) values in
      if is_empty ip then skipped else if any (λ s. s == ip) seen then skipped else ip ∷ kept

  unfoldable pub normalize_ipv4_targets : List Text → List Text
  unfolding normalize_targets_from
  normalize_ipv4_targets values = normalize_targets_from [] values

  -- `removeUpstreamProxyRoutes`: its calls and its error
  unfoldable pub remove_upstream_proxy_routes :
      Windows → List Text → Text → List RouteCall × Option Text
  remove_upstream_proxy_routes w [] gateway = ([], none)
  remove_upstream_proxy_routes w (target ∷ targets) gateway =
      (removed (target ∷ targets) gateway ∷ [], w.remove_routes (target ∷ targets) gateway)

  unfoldable pub clear_upstream_proxy_routes :
      Windows → List Text → Text → List RouteCall × Option Text
  unfolding normalize_ipv4_targets remove_upstream_proxy_routes
  clear_upstream_proxy_routes w targets gateway =
      remove_upstream_proxy_routes w (normalize_ipv4_targets targets) gateway

  abbrev no_route : Text → UpstreamProxyRouteStatus
  no_route message = record {
    applied = false;
    message = message;
    interface_alias = [];
    gateway = [];
    route_count = 0;
    targets = [];
  }

  abbrev pub chosen_interface : UpstreamProxyRouteOptions → Text
  chosen_interface o =
      if is_empty (trim_space o.interface_alias)
      then trim_space o.fallback_alias
      else trim_space o.interface_alias

  abbrev pub all_targets : Windows → UpstreamProxyRouteOptions → List Text
  all_targets w o =
      normalize_ipv4_targets
        (normalize_ipv4_targets o.manual_targets ++ (w.discover o.upstream_addr o.program_paths).0)

  abbrev not_found : Option Text → Text
  not_found discover_err =
      codes "未发现可添加的代理节点 IPv4；请先让上游代理建立连接，或手动填写节点 IP"
      ++ elim discover_err [ none ↦ [] | some e ↦ codes ": " ++ e ]

  -- The last part, with the adapter and the targets.
  unfoldable pub apply_targets :
      Windows
      → Text
      → List Text
      → Option Text
      → List RouteCall × (UpstreamProxyRouteStatus × Option Text)
  unfolding decimal
  apply_targets w iface [] discover_err =
      ([], (record (no_route (not_found discover_err)) { interface_alias = iface }, none))
  apply_targets w iface (target ∷ more) discover_err =
      let targets = target ∷ more in
      elim (w.apply_routes iface targets) [
        | refused e ↦ (
          applied iface targets ∷ [],
          (
            record {
              applied = false;
              message = codes "应用代理节点路由失败: " ++ e;
              interface_alias = iface;
              gateway = [];
              route_count = length targets;
              targets = targets;
            },
            some e,
          ),
        )
        | through gateway ↦ (
          applied iface targets ∷ [],
          (
            record {
              applied = true;
              message =
                  codes "已将 "
                  ++ decimal (length targets)
                  ++ codes " 个代理节点 IPv4 固定到 "
                  ++ iface
                  ++ codes " 出站";
              interface_alias = iface;
              gateway = gateway;
              route_count = length targets;
              targets = targets;
            },
            none,
          ),
        )
      ]

  -- The part behind the removal of the routes of before.
  unfoldable pub reconcile_new :
      Windows
      → UpstreamProxyRouteOptions
      → List RouteCall × (UpstreamProxyRouteStatus × Option Text)
  unfolding apply_targets normalize_ipv4_targets trim_space
  reconcile_new w o =
      if not o.enabled
      then ([], (no_route (codes "未启用代理节点路由"), none))
      else if is_empty (chosen_interface o)
      then (
        [],
        (no_route (codes "请先选择上游代理出口网卡"), some (codes "upstream proxy route interface is empty")),
      )
      else apply_targets w (chosen_interface o) (all_targets w o)
          (w.discover o.upstream_addr o.program_paths).1

  unfoldable pub reconcile_upstream_proxy_routes :
      Windows
      → UpstreamProxyRouteOptions
      → List RouteCall × (UpstreamProxyRouteStatus × Option Text)
  unfolding clear_upstream_proxy_routes reconcile_new
  reconcile_upstream_proxy_routes w o =
      let (calls, failure) = clear_upstream_proxy_routes w o.previous_targets o.previous_gateway in
      let (more, result) = reconcile_new w o in
      elim failure [
        | some e ↦ (calls, (no_route (codes "清理旧代理节点路由失败: " ++ e), some e))
        | none ↦ (calls ++ more, result)
      ]
