-- ===== src/Tun/Packet.antt =====
-- internal/tun/service_windows.go: the IPv4 TCP packets that the driver hands over, as bytes.
pub mod Buffer
pub mod Laws
pub mod Fields
pub mod Setters
use proxy_rule_manager.Common.{
  ℕ, suc, ◌+◌, ◌*◌, ◌/◌, ◌%◌, Bool, true, false, ◌||◌, ◌&&◌, not, Option, none, some, List, [], ◌∷◌,
  if◌then◌else◌, nat_eq, ltb, length,
}
use proxy_rule_manager.Platform.{Bytes}
use proxy_rule_manager.Net.{to4}
use proxy_rule_manager.Tun.Sni.{Reading, done, panicked, ◌>>=◌, at, uint16}
use Buffer.{put, copy_at}

pub record Packet : Type 0 where
  pub raw : Bytes
  pub ihl : ℕ
  pub src_ip : Bytes
  pub dst_ip : Bytes
  pub src_port : ℕ
  pub dst_port : ℕ

-- net.IPv4(s[i], s[i+1], s[i+2], s[i+3]).To4()
unfoldable pub read_ip : Bytes → ℕ → Reading Bytes
read_ip s i = do
  a ← at s i
  b ← at s (i + 1)
  c ← at s (i + 2)
  d ← at s (i + 3)
  done (a ∷ b ∷ c ∷ d ∷ [])

-- `parseIPv4TCPPacket` behind the tests
unfoldable pub read_fields : Bytes → ℕ → Reading Packet
unfolding read_ip uint16
read_fields packet ihl = do
  src_ip ← read_ip packet 12
  dst_ip ← read_ip packet 16
  src_port ← uint16 packet ihl
  dst_port ← uint16 packet (ihl + 2)
  done (record {
    raw = packet;
    ihl = ihl;
    src_ip = src_ip;
    dst_ip = dst_ip;
    src_port = src_port;
    dst_port = dst_port;
  })

unfoldable pub parse_ipv4_tcp_packet : Bytes → Reading (Option Packet)
unfolding at read_fields
parse_ipv4_tcp_packet packet = if ltb (length packet) 20 then done none else do
  first ← at packet 0
  let ihl = first % 16 * 4
  if not (nat_eq (first / 16) 4)
      then done none
      else if ltb ihl 20 || ltb (length packet) (ihl + 20)
      then done none
      else do
        protocol ← at packet 9
        if not (nat_eq protocol 6)
            then done none
            else do view ← read_fields packet ihl; done (some view)

abbrev pub four : Option Bytes → Bytes
four none = []
four (some ip) = ip

unfoldable pub set_src_ip : Bytes → Packet → Packet
unfolding copy_at to4
set_src_ip ip p = record p { raw = copy_at p.raw 12 (four (to4 ip)) }

unfoldable pub set_dst_ip : Bytes → Packet → Packet
unfolding copy_at to4
set_dst_ip ip p = record p { raw = copy_at p.raw 16 (four (to4 ip)) }

-- binary.BigEndian.PutUint16
abbrev pub port_bytes : ℕ → Bytes
port_bytes port = port / 256 % 256 ∷ port % 256 ∷ []

unfoldable pub set_src_port : ℕ → Packet → Packet
unfolding copy_at
set_src_port port p = record p { raw = copy_at p.raw p.ihl (port_bytes port) }

unfoldable pub set_dst_port : ℕ → Packet → Packet
unfolding copy_at
set_dst_port port p = record p { raw = copy_at p.raw (p.ihl + 2) (port_bytes port) }
