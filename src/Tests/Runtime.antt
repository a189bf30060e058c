-- ===== src/Tests/Runtime.antt =====
-- Concrete runs of the local proxy and of the profiles.
use proxy_rule_manager.Common.{◌≡◌, true, false, none, [], ◌∷◌, All, refl}
use proxy_rule_manager.Common.Int.{pos}
use proxy_rule_manager.Text.{
  Text, codes, text_eq, trim, trim_space, contains, has_prefix, has_suffix,
}
use proxy_rule_manager.Model.{TunAppProfile, TunAppRoutingMode, rules_proxy_fallback}
use proxy_rule_manager.Model.Equality.{target_eq}
use proxy_rule_manager.Model.Safety.{
  is_steam_query, is_steam_related_tun_profile, apply_safety_defaults,
}
use proxy_rule_manager.Model.Safety.Laws.{IsDefaulted, apply_safety_defaults-IsDefaulted}
use proxy_rule_manager.Config.Lists.Laws.{IsRepresented}
use proxy_rule_manager.Net.HostPort.{split_first, split_last, split_host_port}
use proxy_rule_manager.Rules.Engine.{match, match_rule, normalize_host}
use proxy_rule_manager.Logs
use proxy_rule_manager.Tun.Apps.{
  flatten_transparent_queries, flatten_queries, flatten_queries-IsRepresented,
}
use proxy_rule_manager.Proxy.{
  Setting, ok, HttpRequest, World, responded, dialed, asked_upstream, answered, emit, finish_log,
  add_log, split_endpoint, open_entry, connect, hijacked, run_tunnel, connect_tunnel,
  connect_upstream, ask_upstream, end_tunnel, handle_connect, handle_http,
}
use proxy_rule_manager.Proxy.Served.{IsServed, asked_endpoint, handle_http-IsServed}
use proxy_rule_manager.Tests.{ascii, ten, sample_rules}

abbrev setting : Setting
setting = record {
  upstream_proxy_addr = codes "127.0.0.1:7892";
  direct_iface = [];
  time = [];
  duration_ms = 5;
  lookup = λ _. ok ten;
  lookup_fallback = λ _. ok ten;
  client_do = λ _. answered 200 1 2 none;
  hijackable = true;
  hijack = none;
  dial = λ _ _. none;
  write_connect = λ _. none;
  read_response = ok (200, codes "200 OK");
  tunnel = ((10, 20), (none, none));
}

abbrev fresh_world : World
fresh_world = record { logs = Logs.new_store (pos 10); events = [] }

abbrev ask : Text → HttpRequest
ask host = record { method = codes "CONNECT"; host = host; url_host = [] }

proxy_tests :
    ((handle_http setting sample_rules (ask (codes "ads.net:443")) (codes "u") fresh_world).events
      ≡ responded 403 ∷ [])
    × ((handle_http setting sample_rules
          (ask (codes "example.com:443"))
          (codes "u")
          fresh_world).events
        ≡ dialed none (codes "127.0.0.1:7892")
          ∷ asked_upstream (codes "example.com:443")
          ∷ responded 200
          ∷ [])
unfolding handle_http handle_connect connect hijacked run_tunnel connect_tunnel connect_upstream
    ask_upstream end_tunnel emit finish_log add_log open_entry split_endpoint split_first split_last
    split_host_port match match_rule normalize_host target_eq text_eq trim trim_space contains
    has_suffix
proxy_tests = (refl, refl)

handle_http-IsServed_example :
    IsServed setting
      (codes "u")
      (codes "ads.net:443")
      (match
        (asked_endpoint setting sample_rules (codes "u") (ask (codes "ads.net:443"))).0
        sample_rules).0.target
      true
      fresh_world
      (handle_http setting sample_rules (ask (codes "ads.net:443")) (codes "u") fresh_world)
unfolding Logs.new_store text_eq
handle_http-IsServed_example =
    handle_http-IsServed setting sample_rules (codes "u") (ask (codes "ads.net:443")) fresh_world tt

abbrev steam_profile : TunAppProfile
steam_profile = record {
  id = codes "p";
  name = codes "Games";
  enabled = true;
  queries = codes "Steam.exe" ∷ [];
  routing_mode = TunAppRoutingMode.other [];
  bypass_transparent_proxy = false;
  remark = [];
}

abbrev safe_profile : TunAppProfile
safe_profile = record steam_profile {
  routing_mode = rules_proxy_fallback;
  bypass_transparent_proxy = true;
}

steam_tests : is_steam_related_tun_profile steam_profile ≡ true
unfolding is_steam_related_tun_profile is_steam_query text_eq trim_space contains has_prefix
steam_tests = refl

apply_safety_defaults-IsDefaulted_example :
    IsDefaulted steam_profile (apply_safety_defaults steam_profile)
    × (apply_safety_defaults (apply_safety_defaults steam_profile)
        ≡ apply_safety_defaults steam_profile)
apply_safety_defaults-IsDefaulted_example = apply_safety_defaults-IsDefaulted steam_profile

flatten_queries-IsRepresented_example :
    All
      (IsRepresented [] (flatten_queries (steam_profile ∷ safe_profile ∷ []) []))
      (flatten_transparent_queries (steam_profile ∷ safe_profile ∷ []) [])
flatten_queries-IsRepresented_example =
    flatten_queries-IsRepresented (steam_profile ∷ safe_profile ∷ []) []
