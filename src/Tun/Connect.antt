-- ===== src/Tun/Connect.antt =====
-- internal/tun/service_windows.go: what `socketLoop` does with one event of the SOCKET layer.
pub mod Laws
pub mod Upstream
use proxy_rule_manager.Common.{
  ℕ, zero, suc, ◌+◌, ◌-◌, ◌*◌, ◌/◌, ◌%◌, ◌^◌, Bool, true, false, ◌||◌, ◌&&◌, not, Option, none,
  some, List, [], ◌∷◌, ◌++◌, if◌then◌else◌, ◌==◌, nat_eq, ltb, leb, any, nat_beq,
}
use proxy_rule_manager.Common.Assoc.{lookup, insert}
use proxy_rule_manager.Monitor.Decimal.{decimal}
use proxy_rule_manager.Text.{Text, codes, text_beq, trim, trim_space, is_bracket, is_empty}
use proxy_rule_manager.Platform.{Platform, Bytes, to_lower, equal_fold}
use proxy_rule_manager.Net.{ip_equal, is_loopback}
use proxy_rule_manager.Net.HostPort.{split_host_port}
use proxy_rule_manager.Procmatch.{match_process}
use proxy_rule_manager.Tun.Profiles.{ResolvedTunAppProfile, profile_for_query}
use proxy_rule_manager.Tun.Table.{Connection, Table, register_connection, unregister_connection}

-- `processInfo` of this package
pub record Process : Type 0 where
  pub pid : ℕ
  pub name : Text
  pub path : Text

pub data EventKind : Type 0 where
  connect close : EventKind
  other : ℕ → EventKind

-- What the loop reads of an event: an address is four words of 32 bits.
pub record SocketEvent : Type 0 where
  pub kind : EventKind
  pub process_id : ℕ
  pub protocol : ℕ
  pub local_addr : ℕ × ℕ × ℕ × ℕ
  pub local_port : ℕ
  pub remote_addr : ℕ × ℕ × ℕ × ℕ
  pub remote_port : ℕ

-- What comes from outside: the path of a process, filepath.Base, the resolver, the interface of an
-- address, the clock, the port of a new listener and whether the rule that blocks UDP was made.
pub record Outside : Type 0 where
  pub upstream_proxy_addr : Text
  pub process_path : ℕ → Text
  pub file_base : Text → Text
  pub lookup_ip : Text → Option (List Bytes)
  pub interface_index : Bytes → ℕ
  pub now : ℕ
  pub listen : Option ℕ
  pub blocks_udp : Text → Bool

pub record Service : Type 0 where
  pub queries : List Text
  pub query_map : List (Text × ResolvedTunAppProfile)
  pub table : Table
  pub proc_cache : List (ℕ × Process)
  pub udp_blocked : List Text
  pub socket_connect_events : ℕ
  pub matched_connects : ℕ
  pub redirect_prepared : ℕ
  pub last_matched_process : Text

abbrev add_one : ℕ → ℕ
add_one n = (n + 1) % 2 ^ 64

unfoldable pub ipv4_from_mapped : ℕ × ℕ × ℕ × ℕ → Option Bytes
ipv4_from_mapped (w0, w1, w2, w3) =
    if not (nat_eq w1 0xffff) || not (nat_eq w2 0) || not (nat_eq w3 0)
    then none
    else some (w0 / 16777216 % 256 ∷ w0 / 65536 % 256 ∷ w0 / 256 % 256 ∷ w0 % 256 ∷ [])

-- strconv.ParseUint(s, 10, 16) on the digits that are left, with the value so far
unfoldable pub parse_digits : ℕ → Text → Option ℕ
parse_digits n [] = if ltb n 65536 then some n else none
parse_digits n (c ∷ s) =
    let rest = parse_digits (n * 10 + (c - b'0')) s in
    if leb b'0' c && leb c b'9' then rest else none

unfoldable pub parse_uint16 : Text → Option ℕ
unfolding parse_digits
parse_uint16 [] = none
parse_uint16 (c ∷ s) = parse_digits 0 (c ∷ s)

unfoldable pub count_event : SocketEvent → Service → Service
count_event e s = elim e.kind [
  | connect ↦ record s { socket_connect_events = add_one s.socket_connect_events }
  | close ↦ s
  | other _ ↦ s
]

-- `lookupProcess` while the service runs: what was found for a number is kept for good.
unfoldable pub lookup_process : Outside → ℕ → Service → Process × Service
unfolding lookup insert decimal
lookup_process o pid s = elim (lookup pid s.proc_cache) [
  | some proc ↦ (proc, s)
  | none ↦
      let path = o.process_path pid in
      let name = o.file_base path in
      let proc : Process = record {
        pid = pid;
        name = if is_empty name then codes "pid-" ++ decimal pid else name;
        path = path;
      } in
      (proc, record s { proc_cache = insert pid proc s.proc_cache })
]

module _ ⦃p : Platform⦄ where
  -- The part of `shouldBypassTransparentConnect` behind the test of the port.
  unfoldable pub is_upstream_host : Outside → Text → Bytes → Bool
  unfolding ip_equal is_loopback trim
  is_upstream_host o host remote_ip =
      let bare = trim is_bracket host in
      if equal_fold bare (codes "localhost")
      then is_loopback remote_ip
      else elim (p.parse_ip bare) [
        | some ip ↦ ip_equal ip remote_ip
        | none ↦ elim (o.lookup_ip bare) [
          | none ↦ false
          | some ips ↦ any (λ ip. ip_equal ip remote_ip) ips
        ]
      ]

  unfoldable pub should_bypass_transparent_connect : Outside → Bytes → ℕ → Bool
  unfolding is_upstream_host split_host_port parse_uint16 trim_space
  should_bypass_transparent_connect o remote_ip remote_port =
      elim (split_host_port (trim_space o.upstream_proxy_addr)) [
        | none ↦ false
        | some (host, port) ↦ elim (parse_uint16 port) [
          | none ↦ false
          | some parsed_port ↦
              if nat_eq parsed_port remote_port then is_upstream_host o host remote_ip else false
        ]
      ]

  -- `ensureUDPBlock`; calls for one path at a time
  unfoldable pub ensure_udp_block : Outside → Text → Service → Service
  unfolding trim_space
  ensure_udp_block o path s =
      let key = to_lower (trim_space path) in
      if is_empty key
      then s
      else if any (λ k. k == key) s.udp_blocked
      then s
      else if o.blocks_udp path
      then record s { udp_blocked = key ∷ s.udp_blocked }
      else s

  abbrev pub connection_for :
      Outside → Process → Text → ResolvedTunAppProfile → Bytes → ℕ → Bytes → ℕ → ℕ → Connection
  connection_for o proc query profile local_ip local_port remote_ip remote_port port = record {
    process_id = proc.pid;
    process_name = proc.name;
    process_path = proc.path;
    query = query;
    profile_id = profile.id;
    profile_name = profile.name;
    routing_mode = profile.routing_mode;
    if_idx = o.interface_index local_ip;
    sub_if_idx = 0;
    local_addr = local_ip;
    local_port = local_port;
    remote_addr = remote_ip;
    remote_port = remote_port;
    redirect_port = port % 65536;
    listening = true;
    created_at = o.now;
    accepted = false;
  }

  -- `registerConnection` from its listener on
  unfoldable pub register : Outside → (ℕ → Connection) → Service → Service
  unfolding register_connection
  register o make s = elim o.listen [
    | none ↦ s
    | some port ↦ record s {
      table = register_connection (make port) s.table;
      redirect_prepared = add_one s.redirect_prepared;
    }
  ]

  -- The case of the switch for a new connection.
  unfoldable pub on_connect : Outside → Process → Bytes → ℕ → Bytes → ℕ → Service → Service
  unfolding match_process should_bypass_transparent_connect profile_for_query register
      ensure_udp_block
  on_connect o proc local_ip local_port remote_ip remote_port s =
      elim (match_process proc.name proc.path s.queries) [
        | none ↦ s
        | some query ↦
            if should_bypass_transparent_connect o remote_ip remote_port
            then s
            else let matched : Service = record s {
              matched_connects = add_one s.matched_connects;
              last_matched_process = proc.path;
            } in
              let profile = profile_for_query s.query_map query in
              let make =
                connection_for o proc query profile local_ip local_port remote_ip remote_port in
              let registered = register o make matched in
              if is_empty proc.path then registered else ensure_udp_block o proc.path registered
      ]

  unfoldable pub on_event : Outside → Process → SocketEvent → Bytes → Bytes → Service → Service
  unfolding on_connect unregister_connection
  on_event o proc e local_ip remote_ip s = elim e.kind [
    | connect ↦ on_connect o proc local_ip e.local_port remote_ip e.remote_port s
    | close ↦ record s { table = unregister_connection e.local_port s.table }
    | other _ ↦ s
  ]

  -- The tests of the loop for an event of TCP over IPv4 that is not on the loopback interface.
  unfoldable pub on_addresses : Outside → Process → SocketEvent → Service → Service
  unfolding ipv4_from_mapped is_loopback on_event
  on_addresses o proc e s = elim (ipv4_from_mapped e.local_addr) [
    | none ↦ s
    | some local_ip ↦ elim (ipv4_from_mapped e.remote_addr) [
      | none ↦ s
      | some remote_ip ↦
          if is_loopback local_ip || is_loopback remote_ip
          then s
          else on_event o proc e local_ip remote_ip s
    ]
  ]

  unfoldable pub handle_socket_event : Outside → SocketEvent → Service → Service
  unfolding on_addresses count_event lookup_process
  handle_socket_event o e s =
      let (proc, looked) = lookup_process o e.process_id (count_event e s) in
      if nat_eq e.protocol 6 then on_addresses o proc e looked else looked
