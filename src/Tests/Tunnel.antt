-- ===== src/Tests/Tunnel.antt =====
-- Concrete runs of the redirection.
use proxy_rule_manager.Common.{
  Option, ◌≡◌, ◌⊎◌, true, false, none, some, List, [], ◌∷◌, ◌++◌, refl, arith, nat_beq,
}
use proxy_rule_manager.Common.Assoc.{lookup, remove, insert}
use proxy_rule_manager.Text.{codes}
use proxy_rule_manager.Platform.{Bytes}
use proxy_rule_manager.Model.{TunAppProfile, TunAppRoutingMode, rules_proxy_fallback}
use proxy_rule_manager.Tun.Sni.{done}
use proxy_rule_manager.Tun.Packet.{parse_ipv4_tcp_packet}
use proxy_rule_manager.Tun.Packet.Buffer.{byte}
use proxy_rule_manager.Tun.Packet.Laws.{IsTcp, view, parse_ipv4_tcp_packet-IsTcp}
use proxy_rule_manager.Tun.Packet.Fields.{quad, Holds}
use proxy_rule_manager.Tun.Table.{
  Connection, empty_table, Event, register, unregister, reap, accept, run, apply, update,
  register_connection, release, connection_by_local, connection_by_redirect, pointed,
}
use proxy_rule_manager.Tun.Table.Sound.{IsSound}
use proxy_rule_manager.Tun.Table.Invariant.{run-IsSound}
use proxy_rule_manager.Tun.Table.Linked.{IsLinked, run-IsLinked}
use proxy_rule_manager.Tun.Reflect.{Address, Driver, Loop, handle_packet}
use proxy_rule_manager.Tun.Reflect.Laws.{WritesChecksums, IsWellFormed}
use proxy_rule_manager.Tun.Reflect.Delivery.{Delivers}
use proxy_rule_manager.Tun.Reflect.Transparent.{handle_packet-Delivers, taught}
use proxy_rule_manager.Tun.Apps.{flatten_transparent_queries}
use proxy_rule_manager.Tun.Profiles.{resolve_tun_app_profiles, flatten_resolved_tun_queries}
use proxy_rule_manager.Tun.Profiles.Laws.{flatten_resolved_tun_queries-flatten_transparent_queries}
use proxy_rule_manager.Tun.Connect
use proxy_rule_manager.Tun.Payload
use proxy_rule_manager.Tun.Payload.Laws.{IsCaptured, concat, capture_initial_payload-IsCaptured}
use proxy_rule_manager.Tun.Serve
use proxy_rule_manager.Tun.Serve.Laws.{IsServed, serve_reflected_connection-IsServed}
use proxy_rule_manager.Tests.{ascii, ten, sample_rules}

abbrev far : Bytes
far = 93 ∷ 184 ∷ 216 ∷ 34 ∷ []

abbrev browser : Connection
browser = record {
  process_id = 7;
  process_name = codes "a.exe";
  process_path = [];
  query = codes "a.exe";
  profile_id = [];
  profile_name = codes "a.exe";
  routing_mode = rules_proxy_fallback;
  if_idx = 3;
  sub_if_idx = 0;
  local_addr = ten;
  local_port = 5000;
  remote_addr = far;
  remote_port = 443;
  redirect_port = 6000;
  listening = true;
  created_at = 100;
  accepted = false;
}

abbrev later : Connection
later = record browser { redirect_port = 6001; created_at = 120 }

-- An IPv4 header of 20 bytes, the ports, and a rest.
abbrev segment : Bytes → Bytes → Bytes → Bytes
segment src dst ports =
    0x45
    ∷ 0
    ∷ 0
    ∷ 40
    ∷ 0
    ∷ 0
    ∷ 0
    ∷ 0
    ∷ 64
    ∷ 6
    ∷ 0
    ∷ 0
    ∷ (src
        ++ dst
        ++ ports
        ++ 0 ∷ 0 ∷ 0 ∷ 0 ∷ 0 ∷ 0 ∷ 0 ∷ 0 ∷ 0x50 ∷ 0 ∷ 0 ∷ 0 ∷ 0 ∷ 0 ∷ 0 ∷ 0 ∷ 71 ∷ [])

abbrev asking : Bytes
asking = segment ten far (19 ∷ 136 ∷ 1 ∷ 187 ∷ [])

abbrev answering : Bytes
answering = segment ten far (23 ∷ 112 ∷ 1 ∷ 187 ∷ [])

abbrev quiet : Driver
quiet = record { calc_checksums = λ s. s; sends = λ _. true }

quiet-WritesChecksums : WritesChecksums quiet
quiet-WritesChecksums = record {
  length_eq = λ s. refl;
  kept = λ s j h k. refl;
  payload = λ s. refl;
}

parse_ipv4_tcp_packet-IsTcp_example :
    (IsTcp asking × (parse_ipv4_tcp_packet asking ≡ done (some (view asking))))
    ⊎ (¬ IsTcp asking × (parse_ipv4_tcp_packet asking ≡ done none))
parse_ipv4_tcp_packet-IsTcp_example = parse_ipv4_tcp_packet-IsTcp asking

abbrev events : List Event
events = register browser ∷ accept 0 ∷ register later ∷ unregister 80 ∷ reap 110 ∷ []

run-IsSound_example : IsSound (run events empty_table)
run-IsSound_example = run-IsSound events

run-IsLinked_example : IsLinked (run (register browser ∷ register later ∷ []) empty_table)
unfolding lookup release remove insert connection_by_local pointed apply register_connection update
run-IsLinked_example = run-IsLinked (register browser ∷ register later ∷ []) (refl, (refl, tt))

abbrev idle : Loop
idle = record {
  table = run (register browser ∷ []) empty_table;
  forward_reflected = 0;
  reverse_reflected = 0;
  packet_count = 0;
  byte_count = 0;
  offered = ([], record { if_idx = 0; sub_if_idx = 0; outbound = true });
}

asking-Holds : Holds asking ten far 5000 443
unfolding byte
asking-Holds = record {
  tcp = record { version = refl; least = omega arith; fits = omega arith; protocol = refl };
  src_eq = refl;
  dst_eq = refl;
  src_port_eq = refl;
  dst_port_eq = refl;
}

answering-Holds : Holds answering ten far 6000 443
unfolding byte
answering-Holds = record {
  tcp = record { version = refl; least = omega arith; fits = omega arith; protocol = refl };
  src_eq = refl;
  dst_eq = refl;
  src_port_eq = refl;
  dst_port_eq = refl;
}

browser-IsWellFormed : IsWellFormed browser
browser-IsWellFormed = record {
  local_addr = quad 10 0 0 1;
  remote_addr = quad 93 184 216 34;
  local_port = omega arith;
  remote_port = omega arith;
  redirect_port = omega arith;
}

one-IsLinked : IsLinked (run (register browser ∷ []) empty_table)
unfolding lookup release remove insert connection_by_local pointed
one-IsLinked = run-IsLinked (register browser ∷ []) (refl, tt)

abbrev on_three : Address
on_three = record { if_idx = 3; sub_if_idx = 1; outbound = true }

handle_packet-Delivers_example :
    (out : Loop) × (handle_packet quiet asking on_three idle ≡ done out)
    × Delivers quiet asking on_three browser far ten 443 6000 out
    × (back : Loop) × (handle_packet quiet answering on_three out ≡ done back)
    × Delivers quiet answering on_three (taught on_three browser) far ten 443 5000 back
unfolding run apply register_connection release lookup insert remove connection_by_local
    connection_by_redirect pointed
handle_packet-Delivers_example =
    handle_packet-Delivers quiet quiet-WritesChecksums browser browser-IsWellFormed 0 idle
      one-IsLinked refl refl refl asking answering on_three on_three asking-Holds answering-Holds

abbrev two_profiles : List TunAppProfile
two_profiles =
    record {
      id = codes "p";
      name = codes "Web";
      enabled = true;
      queries = codes " a.exe" ∷ codes "A.exe" ∷ [];
      routing_mode = TunAppRoutingMode.other [];
      bypass_transparent_proxy = false;
      remark = [];
    }
    ∷ []

flatten_resolved_tun_queries-flatten_transparent_queries_example :
    flatten_resolved_tun_queries (resolve_tun_app_profiles two_profiles [])
    ≡ flatten_transparent_queries two_profiles []
flatten_resolved_tun_queries-flatten_transparent_queries_example =
    flatten_resolved_tun_queries-flatten_transparent_queries two_profiles []

abbrev outside : Connect.Outside
outside = record {
  upstream_proxy_addr = codes "127.0.0.1:7892";
  process_path = λ pid. [];
  file_base = λ path. codes "a.exe";
  lookup_ip = λ _. none;
  interface_index = λ _. 3;
  now = 100;
  listen = some 6000;
  blocks_udp = λ _. true;
}

abbrev opening : Connect.SocketEvent
opening = record {
  kind = Connect.connect;
  process_id = 7;
  protocol = 6;
  local_addr = (167772161, 0xffff, 0, 0);
  local_port = 5000;
  remote_addr = (1572395042, 0xffff, 0, 0);
  remote_port = 443;
}

abbrev waiting : Connect.Service
waiting = record {
  queries = codes "a.exe" ∷ [];
  query_map = [];
  table = empty_table;
  proc_cache = [];
  udp_blocked = [];
  socket_connect_events = 0;
  matched_connects = 0;
  redirect_prepared = 0;
  last_matched_process = [];
}

abbrev request : Bytes
request = codes "GET / HTTP/1.1\r\nHost: ads.net\r\n\r\n"

abbrev in_parts : Payload.Incoming
in_parts = record {
  deadline = none;
  segments = codes "GET / HT" ∷ request ∷ [];
  end = Payload.timeout;
}

abbrev outlet : Serve.Outlet
outlet = record {
  rules = sample_rules;
  upstream_proxy_addr = codes "127.0.0.1:7892";
  upstream_proxy_type = [];
  direct_interface = [];
  accepts = true;
  incoming = in_parts;
  lookup_ipv4 = λ _. Serve.address ten;
  lookup_fallback_ipv4 = λ _. Serve.address ten;
  dial = λ _ _. none;
  write_http_connect = λ _. none;
  socks5 = λ _ _. none;
}

abbrev unserved : Serve.State
unserved = record {
  table = run (register browser ∷ []) empty_table;
  accept_count = 0;
  upstream_dial_failed = 0;
  tunnel_established = 0;
  last_upstream_error = [];
  dials = [];
  pending = [];
}

serve_reflected_connection-IsServed_example :
    (out : Serve.State) × (Serve.serve_reflected_connection outlet 0 browser unserved ≡ done out)
    × IsServed outlet browser unserved out
serve_reflected_connection-IsServed_example =
    serve_reflected_connection-IsServed outlet 0 browser unserved refl refl

capture_initial_payload-IsCaptured_example :
    (out : Bytes × Option Payload.ReadError) × (Payload.capture_initial_payload in_parts 100
      ≡ done out)
    × IsCaptured 100 (concat in_parts.segments) out.0
capture_initial_payload-IsCaptured_example = capture_initial_payload-IsCaptured in_parts 100 refl
