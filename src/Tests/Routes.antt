-- ===== src/Tests/Routes.antt =====
-- Concrete runs of the routes of the upstream proxy.
use proxy_rule_manager.Common.{◌≡◌, true, none, [], ◌∷◌, All, refl}
use proxy_rule_manager.Text.{
  codes, text_eq, trim, trim_left, trim_right, trim_space, is_space, contains, has_prefix,
}
use proxy_rule_manager.Net.{to4}
use proxy_rule_manager.Netroute.{
  UpstreamProxyRouteOptions, Windows, through, applied, is_unsafe_route_target, plain_target,
  normalize_ipv4_target, normalize_targets_from, normalize_ipv4_targets,
  remove_upstream_proxy_routes, clear_upstream_proxy_routes, apply_targets, reconcile_new,
  reconcile_upstream_proxy_routes,
}
use proxy_rule_manager.Netroute.Laws.{IsSafeCall, reconcile_upstream_proxy_routes-All}
use proxy_rule_manager.Tests.{ascii}

abbrev windows : Windows
windows = record {
  remove_routes = λ _ _. none;
  discover = λ _ _. (codes "10.0.0.1" ∷ codes "127.0.0.1" ∷ [], none);
  apply_routes = λ _ _. through (codes "10.0.0.254");
}

abbrev by_ethernet : UpstreamProxyRouteOptions
by_ethernet = record {
  enabled = true;
  interface_alias = [];
  fallback_alias = codes "Ethernet";
  upstream_addr = codes "127.0.0.1:7892";
  program_paths = [];
  manual_targets = codes "10.0.0.1" ∷ [];
  previous_targets = [];
  previous_gateway = [];
}

route_tests :
    (reconcile_upstream_proxy_routes windows by_ethernet).0
    ≡ applied (codes "Ethernet") (codes "10.0.0.1" ∷ []) ∷ []
unfolding reconcile_upstream_proxy_routes reconcile_new apply_targets clear_upstream_proxy_routes
    remove_upstream_proxy_routes normalize_ipv4_targets normalize_targets_from normalize_ipv4_target
    plain_target is_unsafe_route_target to4 trim trim_left trim_right trim_space is_space contains
    has_prefix text_eq
route_tests = refl

reconcile_upstream_proxy_routes-All_example :
    All IsSafeCall (reconcile_upstream_proxy_routes windows by_ethernet).0
reconcile_upstream_proxy_routes-All_example =
    reconcile_upstream_proxy_routes-All windows by_ethernet
