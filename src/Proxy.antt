-- ===== src/Proxy.antt =====
-- internal/proxy/server.go: the handlers of the local proxy. What sockets, dialers and adapters
-- answer is a parameter; the handlers' calls of them are recorded in the order of the code.
pub mod Course
pub mod Laws
pub mod Served
use proxy_rule_manager.Common.{
  ℕ, suc, Bool, true, false, ◌||◌, ◌&&◌, not, Option, none, some, List, [], ◌∷◌, ◌++◌,
  if◌then◌else◌, ◌==◌, any, nat_eq,
}
use proxy_rule_manager.Text.{
  Text, codes, text_beq, trim, trim_space, trim_prefix, contains, count, has_prefix, is_bracket,
}
use proxy_rule_manager.Platform.{Platform, Bytes, to_lower, equal_fold}
use proxy_rule_manager.Net.HostPort.{split_first, split_host_port}
use proxy_rule_manager.Model.{
  RuleTarget, proxy, direct, reject, Rule, MatchedRule, TrafficStatus, active, closed, error,
  TrafficLog,
}
use proxy_rule_manager.Model.Equality.{target_beq}
use proxy_rule_manager.Rules.Engine.{match}
use proxy_rule_manager.Logs

-- An error of Go: its text, and whether it is net.ErrClosed.
pub record Failure : Type 0 where
  pub text : Text
  pub is_net_closed : Bool

pub data Result (A : Type 0) : Type 0 where
  ok : A → Result A
  err : Failure → Result A

-- The parts of http.Transport and net.Dialer that the target decides.
pub record Transport : Type 0 where
  pub local : Option Bytes
  pub via : Option Text

pub data RoundTrip : Type 0 where
  -- client.Do failed; the bytes read of the request's body
  refused : ℕ → Failure → RoundTrip
  -- status code, bytes up and down, and the error of io.Copy
  answered : ℕ → ℕ → ℕ → Option Failure → RoundTrip

pub record HttpRequest : Type 0 where
  pub method : Text
  pub host : Text
  -- r.URL.Host, empty where r.URL is nil
  pub url_host : Text

-- Fields of the server, and what the outside answers to one request.
pub record Setting : Type 0 where
  pub upstream_proxy_addr : Text
  pub direct_iface : Text
  pub time : Text
  pub duration_ms : ℕ
  -- netadapter.LookupIPv4 and LookupFallbackIPv4
  pub lookup : Text → Result Bytes
  pub lookup_fallback : Text → Result Bytes
  pub client_do : Transport → RoundTrip
  pub hijackable : Bool
  pub hijack : Option Failure
  pub dial : Option Bytes → Text → Option Failure
  pub write_connect : Text → Option Failure
  -- status code and status line
  pub read_response : Result (ℕ × Text)
  -- bytes up and down, and the errors of the two copies in the order they arrive
  pub tunnel : (ℕ × ℕ) × (Option Failure × Option Failure)

pub data Event : Type 0 where
  -- the status of the answer to the client
  responded : ℕ → Event
  sent : Transport → Event
  dialed : Option Bytes → Text → Event
  asked_upstream : Text → Event

pub record World : Type 0 where
  pub logs : Logs.Store
  pub events : List Event

unfoldable pub emit : Event → World → World
emit e w = record w { events = w.events ++ e ∷ [] }

unfoldable pub split_endpoint : Text → Text × Text
unfolding split_host_port split_first trim_prefix count
split_endpoint host_port =
    let bare : Text × Text = elim (split_first b']' host_port) [
      | some (before, _) ↦
          if has_prefix host_port (codes "[")
          then (trim_prefix before (codes "["), codes "443")
          else (host_port, codes "80")
      | none ↦ (host_port, codes "80")
    ] in
    let once : Text × Text = elim (split_first b':' host_port) [
      | some found ↦ if nat_eq (count host_port b':') 1 then found else bare
      | none ↦ bare
    ] in
    elim (split_host_port host_port) [
      | some (host, port) ↦ (trim is_bracket host, port)
      | none ↦ once
    ]

unfoldable pub default_http_host : HttpRequest → Text
default_http_host r = if r.url_host == [] then r.host else r.url_host

unfoldable pub describe_path : RuleTarget → Text → Text
describe_path proxy upstream = codes "本程序 -> 上游代理 " ++ (upstream ++ codes " -> 实际出口由代理程序或系统路由决定")
describe_path reject upstream = codes "本程序拒绝连接"
describe_path direct upstream = codes "本程序 -> 目标网站 -> Windows 默认路由/有线"
describe_path (RuleTarget.other _) upstream = codes "本程序 -> 目标网站 -> Windows 默认路由/有线"

unfoldable pub finished : Setting → ℕ → ℕ → TrafficStatus → Text → TrafficLog → TrafficLog
finished o upload download status message item = record item {
  upload_bytes = upload;
  download_bytes = download;
  duration_ms = o.duration_ms;
  status = status;
  error = message;
}

unfoldable pub finish_log : Setting → Text → ℕ → ℕ → TrafficStatus → Text → World → World
unfolding Logs.update finished
finish_log o id upload download status message w = record w {
  logs = Logs.update id (finished o upload download status message) w.logs;
}

unfoldable pub build_direct_dialer : Setting → Result (Option Bytes)
build_direct_dialer o =
    let iface = trim_space o.direct_iface in
    if iface == [] then ok none else elim (o.lookup iface) [
      | ok ip ↦ ok (some ip)
      | err e ↦ elim (o.lookup_fallback iface) [ ok ip ↦ ok (some ip) | err _ ↦ err e ]
    ]

abbrev local_or_none : Result (Option Bytes) → Option Bytes
local_or_none (ok local) = local
local_or_none (err _) = none

unfoldable pub build_transport : Setting → RuleTarget → Transport
unfolding build_direct_dialer
build_transport o target = record {
  local = if target == direct then local_or_none (build_direct_dialer o) else none;
  via = if target == proxy then some o.upstream_proxy_addr else none;
}

-- The end of both handlers: a status and a message for an error that may have been met.
abbrev pub end_status : Option Failure → TrafficStatus
end_status none = closed
end_status (some _) = error

abbrev pub end_message : Option Failure → Text
end_message none = []
end_message (some e) = e.text

unfoldable pub open_entry : Setting → Text → Text × Text → Text → Rule × MatchedRule → TrafficLog
unfolding describe_path
open_entry o id (host, port) protocol (rule, matched) = record {
  id = id;
  time = o.time;
  source = codes "web";
  host = host;
  port = port;
  protocol = protocol;
  process_id = 0;
  process_name = [];
  process_path = [];
  matched_rule_type = matched.type;
  matched_rule_value = matched.value;
  matched_rule_index = matched.index;
  target = rule.target;
  path = describe_path rule.target o.upstream_proxy_addr;
  upload_bytes = 0;
  download_bytes = 0;
  duration_ms = 0;
  status = active;
  error = [];
}

unfoldable pub add_log : TrafficLog → World → World
unfolding Logs.add
add_log entry w = record w { logs = Logs.add entry w.logs }

-- what `handleForwardHTTP` does with the result of client.Do
unfoldable pub answer_forward : Setting → Text → RoundTrip → World → World
unfolding emit finish_log
answer_forward o id (refused upload e) w =
    finish_log o id upload 0 error e.text (emit (responded 502) w)
answer_forward o id (answered code upload download e) w =
    finish_log o id upload download (end_status e) (end_message e) (emit (responded code) w)

-- `handleForwardHTTP` behind the test for a rejected host
unfoldable pub forward : Setting → Text → RuleTarget → World → World
unfolding emit build_transport answer_forward
forward o id target w =
    let transport = build_transport o target in
    answer_forward o id (o.client_do transport) (emit (sent transport) w)

abbrev pub refused_connect : Result (ℕ × Text) → Option Failure
refused_connect (err e) = some e
refused_connect (ok (code, status)) =
    if nat_eq code 200
    then none
    else some (record { text = codes "upstream CONNECT failed: " ++ status; is_net_closed = false })

-- `connectTunnel` through the upstream proxy, once it is connected
unfoldable pub ask_upstream : Setting → Text → World → World × Option Failure
unfolding emit
ask_upstream o host_port w =
    let asked = emit (asked_upstream host_port) w in
    elim (o.write_connect host_port) [
      | some e ↦ (asked, some e)
      | none ↦ (asked, refused_connect o.read_response)
    ]

unfoldable pub connect_upstream : Setting → Text → World → World × Option Failure
unfolding ask_upstream
connect_upstream o host_port w =
    let called = emit (dialed none o.upstream_proxy_addr) w in
    elim (o.dial none o.upstream_proxy_addr) [
      | some e ↦ (called, some e)
      | none ↦ ask_upstream o host_port called
    ]

-- `connectTunnel` with the dialer for a direct connection
unfoldable pub connect_direct :
    Setting → Text → Result (Option Bytes) → World → World × Option Failure
unfolding emit
connect_direct o host_port (err e) w = (w, some e)
connect_direct o host_port (ok local) w = (emit (dialed local host_port) w, o.dial local host_port)

unfoldable pub connect_tunnel : Setting → RuleTarget → Text → World → World × Option Failure
unfolding connect_upstream connect_direct build_direct_dialer
connect_tunnel o target host_port w =
    let upstream = connect_upstream o host_port w in
    let straight = connect_direct o host_port (build_direct_dialer o) w in
    if target == direct then straight else upstream

module _ ⦃p : Platform⦄ where
  unfoldable pub is_conn_closed_err : Failure → Bool
  is_conn_closed_err e = e.is_net_closed || contains (to_lower e.text) (codes "closed")

  -- one turn of the loop over the errors of the two copies
  unfoldable pub note_error : Option Failure → Option Failure → Option Failure
  unfolding is_conn_closed_err
  note_error none final = final
  note_error (some e) final = if is_conn_closed_err e then final else some e

  -- `handleConnect` behind `connectTunnel`
  unfoldable pub end_tunnel : Setting → Text → Option Failure → World → World
  unfolding emit finish_log note_error
  end_tunnel o id (some e) w = finish_log o id 0 0 error e.text (emit (responded 502) w)
  end_tunnel o id none w =
      let ((upload, download), (first, second)) = o.tunnel in
      let final = note_error second (note_error first none) in
      finish_log o id upload download (end_status final) (end_message final)
        (emit (responded 200) w)

  -- `handleConnect` behind the hijacking
  unfoldable pub run_tunnel : Setting → Text → RuleTarget → Text → World → World
  unfolding connect_tunnel end_tunnel
  run_tunnel o id target host_port w =
      let (connected, failure) = connect_tunnel o target host_port w in
      end_tunnel o id failure connected

  -- what `handleConnect` does with the error of `Hijack`
  unfoldable pub hijacked : Setting → Text → RuleTarget → Text → Option Failure → World → World
  unfolding run_tunnel
  hijacked o id target host_port (some e) w = finish_log o id 0 0 error e.text w
  hijacked o id target host_port none w = run_tunnel o id target host_port w

  -- `handleConnect` behind the test for a rejected host
  unfoldable pub connect : Setting → Text → RuleTarget → Text → World → World
  unfolding hijacked
  connect o id target host_port w =
      let taken = hijacked o id target host_port o.hijack w in
      if o.hijackable
      then taken
      else finish_log o id 0 0 error (codes "hijacking not supported") (emit (responded 500) w)

  unfoldable pub handle_forward_http : Setting → List Rule → HttpRequest → Text → World → World
  unfolding default_http_host split_endpoint match open_entry add_log finish_log forward
  handle_forward_http o rules r id w =
      let endpoint = split_endpoint (default_http_host r) in
      let found = match endpoint.0 rules in
      let logged = add_log (open_entry o id endpoint (codes "HTTP") found) w in
      let forwarded = forward o id found.0.target logged in
      if found.0.target == reject
      then finish_log o id 0 0 closed [] (emit (responded 403) logged)
      else forwarded

  unfoldable pub handle_connect : Setting → List Rule → HttpRequest → Text → World → World
  unfolding split_endpoint match open_entry add_log finish_log connect
  handle_connect o rules r id w =
      let endpoint = split_endpoint r.host in
      let found = match endpoint.0 rules in
      let logged = add_log (open_entry o id endpoint (codes "HTTPS CONNECT") found) w in
      let connected = connect o id found.0.target r.host logged in
      if found.0.target == reject
      then finish_log o id 0 0 closed [] (emit (responded 403) logged)
      else connected

  -- `id` is the identifier that uuid.NewString gives the request's entry.
  unfoldable pub handle_http : Setting → List Rule → HttpRequest → Text → World → World
  unfolding handle_forward_http handle_connect
  handle_http o rules r id w =
      if equal_fold r.method (codes "CONNECT")
      then handle_connect o rules r id w
      else handle_forward_http o rules r id w
