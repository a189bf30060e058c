-- ===== src/Tun/Reflect.antt =====
-- internal/tun/service_windows.go: what `networkLoop` does with one packet. The driver, which is
-- WinDivert, writes the checksums and sends; here its answer to a sending is a function.
pub mod Laws
pub mod Payload
pub mod Delivery
pub mod Transparent
use proxy_rule_manager.Common.{
  ℕ, suc, ◌+◌, ◌%◌, ◌^◌, Bool, true, false, ◌&&◌, Option, none, some, List, [], ◌∷◌, if◌then◌else◌,
  nat_eq, length,
}
use proxy_rule_manager.Platform.{Bytes}
use proxy_rule_manager.Net.{ip_equal}
use proxy_rule_manager.Tun.Sni.{Reading, done, ◌>>=◌}
use proxy_rule_manager.Tun.Packet.{
  Packet, parse_ipv4_tcp_packet, set_src_ip, set_dst_ip, set_src_port, set_dst_port,
}
use proxy_rule_manager.Tun.Table.{
  Connection, Table, connection_by_local, connection_by_redirect, learn_interface,
}

-- What `networkLoop` reads and writes of the address that comes with a packet.
pub record Address : Type 0 where
  pub if_idx : ℕ
  pub sub_if_idx : ℕ
  pub outbound : Bool

pub record Driver : Type 0 where
  pub calc_checksums : Bytes → Bytes
  pub sends : Bytes → Bool

pub record Loop : Type 0 where
  pub table : Table
  pub forward_reflected : ℕ
  pub reverse_reflected : ℕ
  pub packet_count : ℕ
  pub byte_count : ℕ
  -- the packet and the address that `send` was last called with, whether the driver took them or not
  pub offered : Bytes × Address

-- atomic.AddUint64
abbrev add_uint64 : ℕ → ℕ → ℕ
add_uint64 n delta = (n + delta) % 2 ^ 64

-- The packet belongs to the connection.
abbrev pub concerns : Connection → Packet → Bool
concerns conn view = nat_eq conn.remote_port view.dst_port && ip_equal conn.remote_addr view.dst_ip

-- The interface that a packet came from is kept with its connection.
abbrev pub learned : ℕ → Address → Table → Table
learned r addr t =
    if nat_eq addr.if_idx 0 then t else learn_interface r addr.if_idx addr.sub_if_idx t

-- The address with which a packet is reflected: inbound, and on the interface that the connection
-- has after `learned`.
abbrev pub inbound : Connection → Address → Address
inbound conn addr =
    let if_idx = if nat_eq addr.if_idx 0 then conn.if_idx else addr.if_idx in
    let sub_if_idx = if nat_eq addr.if_idx 0 then conn.sub_if_idx else addr.sub_if_idx in
    if nat_eq if_idx 0
    then record addr { outbound = false }
    else record { if_idx = if_idx; sub_if_idx = sub_if_idx; outbound = false }

unfoldable pub rewrite_reverse : Connection → Packet → Packet
unfolding set_src_ip set_dst_ip set_src_port set_dst_port
rewrite_reverse conn view =
    set_dst_port conn.local_port (
      set_src_port conn.remote_port (set_dst_ip conn.local_addr (set_src_ip conn.remote_addr view)))

unfoldable pub rewrite_forward : Connection → Packet → Packet
unfolding set_src_ip set_dst_ip set_src_port set_dst_port
rewrite_forward conn view =
    set_src_port conn.remote_port
      (set_src_ip conn.remote_addr (set_dst_ip view.src_ip (set_dst_port conn.redirect_port view)))

-- The two counters that both directions add to.
abbrev count_packet : ℕ → Loop → Loop
count_packet size s = record s {
  packet_count = add_uint64 s.packet_count 1;
  byte_count = add_uint64 s.byte_count size;
}

unfoldable pub reflect_reverse : Driver → ℕ → Connection → Packet → Address → Loop → Loop
unfolding rewrite_reverse learn_interface
reflect_reverse d r conn view addr s =
    let buf = d.calc_checksums (rewrite_reverse conn view).raw in
    let t = record s { table = learned r addr s.table; offered = (buf, inbound conn addr) } in
    if d.sends buf
    then count_packet (length buf)
        (record t { reverse_reflected = add_uint64 t.reverse_reflected 1 })
    else t

unfoldable pub reflect_forward : Driver → ℕ → Connection → Packet → Address → Loop → Loop
unfolding rewrite_forward learn_interface
reflect_forward d r conn view addr s =
    let buf = d.calc_checksums (rewrite_forward conn view).raw in
    let t = record s { table = learned r addr s.table; offered = (buf, inbound conn addr) } in
    if d.sends buf
    then count_packet (length buf)
        (record t { forward_reflected = add_uint64 t.forward_reflected 1 })
    else t

abbrev pub pass_through : Bytes → Address → Loop → Loop
pass_through buf addr s = record s { offered = (buf, addr) }

-- The second test of the loop.
unfoldable pub handle_outgoing : Driver → Packet → Address → Loop → Loop
unfolding connection_by_local reflect_forward ip_equal
handle_outgoing d view addr s = elim (connection_by_local view.src_port s.table) [
  | none ↦ pass_through view.raw addr s
  | some (r, conn) ↦
      if concerns conn view
      then reflect_forward d r conn view addr s
      else pass_through view.raw addr s
]

unfoldable pub handle_view : Driver → Packet → Address → Loop → Loop
unfolding connection_by_redirect reflect_reverse handle_outgoing ip_equal
handle_view d view addr s = elim (connection_by_redirect view.src_port s.table) [
  | none ↦ handle_outgoing d view addr s
  | some (r, conn) ↦
      if concerns conn view
      then reflect_reverse d r conn view addr s
      else handle_outgoing d view addr s
]

unfoldable pub handle_packet : Driver → Bytes → Address → Loop → Reading Loop
unfolding parse_ipv4_tcp_packet handle_view
handle_packet d buf addr s = do
  parsed ← parse_ipv4_tcp_packet buf
  elim parsed [
    | none ↦ done (pass_through buf addr s)
    | some view ↦ done (handle_view d view addr s)
  ]
