-- ===== src/Tun/Serve.antt =====
-- internal/tun/service_windows.go: the serving of a connection that was reflected to its listener.
-- What the network and the adapters answer is a parameter; the dials are recorded in their order.
pub mod Laws
use proxy_rule_manager.Common.{
  ℕ, ◌+◌, ◌%◌, ◌^◌, Bool, true, false, ◌||◌, Option, none, some, List, [], ◌∷◌, ◌++◌, if◌then◌else◌,
  ◌==◌,
}
use proxy_rule_manager.Text.{Text, codes, text_beq, trim_space, is_empty, contains}
use proxy_rule_manager.Platform.{Platform, Bytes, to_lower}
use proxy_rule_manager.Model.{RuleTarget, reject, direct, Rule}
use proxy_rule_manager.Model.Equality.{target_beq}
use proxy_rule_manager.Monitor.Decimal.{decimal}
use proxy_rule_manager.Tun.Sni.{Reading, done, ◌>>=◌}
use proxy_rule_manager.Tun.Route.{decide_app_route}
use proxy_rule_manager.Tun.Payload.{
  Incoming, capture_initial_payload, detect_host_from_initial_payload,
}
use proxy_rule_manager.Tun.Table.{
  Connection, Table, close_listener, mark_accepted, unregister_connection, update,
}

pub data AdapterAnswer : Type 0 where
  address : Bytes → AdapterAnswer
  unknown : Text → AdapterAnswer

-- The options of the service, and what comes from outside: whether the application connects in time,
-- its bytes, the adapters' addresses, and the errors of a dial from a local address, of a CONNECT
-- request and of a dial through SOCKS5, which golang.org/x/net/proxy does.
pub record Outlet : Type 0 where
  pub rules : List Rule
  pub upstream_proxy_addr : Text
  pub upstream_proxy_type : Text
  pub direct_interface : Text
  pub accepts : Bool
  pub incoming : Incoming
  pub lookup_ipv4 : Text → AdapterAnswer
  pub lookup_fallback_ipv4 : Text → AdapterAnswer
  pub dial : Option Bytes → Text → Option Text
  pub write_http_connect : Text → Option Text
  pub socks5 : Text → Text → Option Text

pub data Dial : Type 0 where
  dialed : Option Bytes → Text → Dial
  asked : Text → Dial
  through : Text → Text → Dial

-- The removals that are to come are those of `time.AfterFunc`, by their local ports.
pub record State : Type 0 where
  pub table : Table
  pub accept_count : ℕ
  pub upstream_dial_failed : ℕ
  pub tunnel_established : ℕ
  pub last_upstream_error : Text
  pub dials : List Dial
  pub pending : List ℕ

abbrev one_more : ℕ → ℕ
one_more n = (n + 1) % 2 ^ 64

-- net.JoinHostPort
abbrev pub join_host_port : Text → Text → Text
join_host_port host port =
    if contains host (codes ":") || contains host (codes "%")
    then codes "[" ++ host ++ codes "]:" ++ port
    else host ++ codes ":" ++ port

-- The local address of a direct dial, or the error.
unfoldable pub build_direct_dialer : Outlet → Option Bytes × Option Text
unfolding trim_space
build_direct_dialer o =
    let iface = trim_space o.direct_interface in
    if is_empty iface then (none, none) else elim (o.lookup_ipv4 iface) [
      | address ip ↦ (some ip, none)
      | unknown e ↦ elim (o.lookup_fallback_ipv4 iface) [
        | address ip ↦ (some ip, none)
        | unknown _ ↦ (none, some e)
      ]
    ]

-- Dials with the error of the last, if any.
abbrev pub Dialing : Type 0
Dialing = List Dial × Option Text

unfoldable pub dial_http : Outlet → Text → Text → Dialing
dial_http o upstream destination = elim (o.dial none upstream) [
  | some e ↦ (dialed none upstream ∷ [], some e)
  | none ↦ (dialed none upstream ∷ asked destination ∷ [], o.write_http_connect destination)
]

module _ ⦃p : Platform⦄ where
  abbrev pub upstream_type : Outlet → Text
  upstream_type o = to_lower (trim_space o.upstream_proxy_type)

  unfoldable pub dial_upstream : Outlet → Text → Dialing
  unfolding dial_http trim_space
  dial_upstream o destination =
      let upstream = trim_space o.upstream_proxy_addr in
      if is_empty (upstream_type o) || upstream_type o == codes "http"
      then dial_http o upstream destination
      else if upstream_type o == codes "socks" || upstream_type o == codes "socks5"
      then (through upstream destination ∷ [], o.socks5 upstream destination)
      else ([], some (codes "unsupported upstream type: " ++ upstream_type o))

  unfoldable pub dial_direct : Outlet → Text → Dialing
  unfolding build_direct_dialer
  dial_direct o destination = elim (build_direct_dialer o).1 [
    | some e ↦ ([], some e)
    | none ↦
        let local = (build_direct_dialer o).0 in
        (dialed local destination ∷ [], o.dial local destination)
  ]

  unfoldable pub dial_by_target : Outlet → RuleTarget → Text → Dialing
  unfolding dial_direct dial_upstream
  dial_by_target o target destination =
      if target == direct then dial_direct o destination else dial_upstream o destination

  abbrev pub destination : Connection → Text
  destination rc = join_host_port (p.ip_string rc.remote_addr) (decimal rc.remote_port)

  -- After a dial: the error is noted, or the tunnel runs and its end leaves a removal to come.
  unfoldable pub after_dial : Connection → Dialing → State → State
  after_dial rc (dials, some e) s = record s {
    dials = s.dials ++ dials;
    upstream_dial_failed = one_more s.upstream_dial_failed;
    last_upstream_error = e;
  }
  after_dial rc (dials, none) s = record s {
    dials = s.dials ++ dials;
    tunnel_established = one_more s.tunnel_established;
    pending = rc.local_port ∷ s.pending;
  }

  unfoldable pub serve_target : Outlet → RuleTarget → Connection → State → State
  unfolding dial_by_target after_dial decimal contains
  serve_target o target rc s =
      if target == reject then s else after_dial rc (dial_by_target o target (destination rc)) s

  -- From the accepted connection on.
  unfoldable pub serve_accepted : Outlet → Connection → State → Reading State
  unfolding capture_initial_payload detect_host_from_initial_payload decide_app_route serve_target
  serve_accepted o rc s = do
    captured ← capture_initial_payload o.incoming 16384
    found ← detect_host_from_initial_payload captured.0
    done (
        serve_target o (decide_app_route found.0 rc.remote_addr o.rules rc.routing_mode).rule.target
          rc s)

  -- The deferred closing of the listener, whatever the function did before.
  abbrev pub closing : ℕ → State → State
  closing r s = record s { table = close_listener r s.table }

  unfoldable pub serve_reflected_connection : Outlet → ℕ → Connection → State → Reading State
  unfolding serve_accepted update
  serve_reflected_connection o r rc s =
      let accepted : State = record s {
        table = mark_accepted r s.table;
        accept_count = one_more s.accept_count;
      } in
      if o.accepts
      then (serve_accepted o rc accepted >>= λ served. done (closing r served))
      else done (closing r s)

-- The function that `time.AfterFunc` calls 15 seconds later.
unfoldable pub remove_later : ℕ → State → State
unfolding unregister_connection
remove_later port s = record s { table = unregister_connection port s.table }
