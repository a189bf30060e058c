-- ===== src/Tun/Reflect/Laws.antt =====
-- What the two ends of a connection see of the packets that are reflected.
use proxy_rule_manager.Common.{
  ℕ, ◌+◌, ◌≤◌, ◌<◌, ◌≡◌, refl, ◌∙◌, true, none, some, arith, length, drop, inl, inr, Bool-cases,
  ◌⊎◌, ==-refl, nat_beq,
}
use proxy_rule_manager.Text.{text_beq}
use proxy_rule_manager.Platform.{Bytes}
use proxy_rule_manager.Net.{ip_equal}
use proxy_rule_manager.Tun.Sni.{done}
use proxy_rule_manager.Tun.Packet.{Packet}
use proxy_rule_manager.Tun.Packet.Buffer.{byte}
use proxy_rule_manager.Tun.Packet.Laws.{header}
use proxy_rule_manager.Tun.Packet.Fields.{IsQuad, Holds, Apart}
use proxy_rule_manager.Tun.Packet.Setters.{
  Stands, Stands-set_src_ip, Stands-set_dst_ip, Stands-set_src_port, Stands-set_dst_port,
  parse-Holds,
}
use proxy_rule_manager.Tun.Table.{Connection, connection_by_local, connection_by_redirect}
use proxy_rule_manager.Tun.Reflect.{
  inbound, Address, Driver, Loop, concerns, rewrite_reverse, rewrite_forward, reflect_reverse,
  reflect_forward, handle_outgoing, handle_view, handle_packet,
}

-- The driver changes nothing but the checksum of the IP header and that of the TCP header.
pub record WritesChecksums (d : Driver) : Type 0 where
  pub length_eq : (s : Bytes) → length (d.calc_checksums s) ≡ length s
  pub kept :
      (s : Bytes) (j : ℕ)
      → Apart j 1 10 2
      → Apart j 1 (header s + 16) 2
      → byte (d.calc_checksums s) j ≡ byte s j
  pub payload : (s : Bytes) → drop (header s + 20) (d.calc_checksums s) ≡ drop (header s + 20) s

-- What `socketLoop` and the listener give a connection: IPv4 addresses and ports of 16 bits.
pub record IsWellFormed (c : Connection) : Type 0 where
  pub local_addr : IsQuad c.local_addr
  pub remote_addr : IsQuad c.remote_addr
  pub local_port : c.local_port < 65536
  pub remote_port : c.remote_port < 65536
  pub redirect_port : c.redirect_port < 65536

module _ {src dst : Bytes} {src_port dst_port : ℕ} (c : Connection) (w : IsWellFormed c)
    (p : Packet) where
  pub rewrite_reverse-Stands :
      Stands p src dst src_port dst_port
      → Stands (rewrite_reverse c p) c.remote_addr c.local_addr c.remote_port c.local_port
  unfolding rewrite_reverse
  rewrite_reverse-Stands s = Stands-set_dst_port _ c.local_port w.local_port (
      Stands-set_src_port _ c.remote_port w.remote_port (
        Stands-set_dst_ip _ c.local_addr w.local_addr
          (Stands-set_src_ip p c.remote_addr w.remote_addr s)))

  pub rewrite_forward-Stands :
      IsQuad p.src_ip
      → Stands p src dst src_port dst_port
      → Stands (rewrite_forward c p) c.remote_addr p.src_ip c.remote_port c.redirect_port
  unfolding rewrite_forward
  rewrite_forward-Stands q s = Stands-set_src_port _ c.remote_port w.remote_port (
      Stands-set_src_ip _ c.remote_addr w.remote_addr
        (Stands-set_dst_ip _ p.src_ip q (Stands-set_dst_port p c.redirect_port w.redirect_port s)))

-- The packet that was read from bytes.
abbrev pub packet_of : Bytes → Bytes → Bytes → ℕ → ℕ → Packet
packet_of s src dst src_port dst_port = record {
  raw = s;
  ihl = header s;
  src_ip = src;
  dst_ip = dst;
  src_port = src_port;
  dst_port = dst_port;
}

pub Stands-packet_of :
    (s src dst : Bytes) (src_port dst_port : ℕ)
    → Holds s src dst src_port dst_port
    → Stands (packet_of s src dst src_port dst_port) src dst src_port dst_port
Stands-packet_of s src dst sp dp h = record { ihl_eq = refl; holds = h }

-- Bytes that agree where the headers have the ends.
Holds-agree :
    (s t src dst : Bytes) (src_port dst_port : ℕ)
    → length t ≡ length s
    → ((j : ℕ) → (j < 10) ⊎ (11 < j) → j < 20 → byte t j ≡ byte s j)
    → ((j : ℕ) → header s ≤ j → j < header s + 4 → byte t j ≡ byte s j)
    → Holds s src dst src_port dst_port
    → Holds t src dst src_port dst_port
Holds-agree s t src dst sp dp n low high h =
    let e = low 0 (inl (omega arith)) (omega arith) in
    let e9 = low 9 (inl (omega arith)) (omega arith) in
    let at : (j : ℕ) → (11 < j) → j < 20 → byte t j ≡ byte s j = λ j k l. low j (inr k) l in
    record {
      tcp = record {
        version = rw e h.tcp.version;
        least = rw e h.tcp.least;
        fits = rw e (rw n h.tcp.fits);
        protocol = rw e9 h.tcp.protocol;
      };
      src_eq = rw (at 12 (omega arith) (omega arith)) (
          rw (at 13 (omega arith) (omega arith)) (
            rw (at 14 (omega arith) (omega arith))
              (rw (at 15 (omega arith) (omega arith)) h.src_eq)));
      dst_eq = rw (at 16 (omega arith) (omega arith)) (
          rw (at 17 (omega arith) (omega arith)) (
            rw (at 18 (omega arith) (omega arith))
              (rw (at 19 (omega arith) (omega arith)) h.dst_eq)));
      src_port_eq = rw e (
          rw (high (header s) (omega arith) (omega arith))
            (rw (high (header s + 1) (omega arith) (omega arith)) h.src_port_eq));
      dst_port_eq = rw e (
          rw (high (header s + 2) (omega arith) (omega arith))
            (rw (high (header s + 2 + 1) (omega arith) (omega arith)) h.dst_port_eq));
    }

-- The ends survive the writing of the checksums.
pub checksums-Holds :
    (d : Driver) (s src dst : Bytes) (src_port dst_port : ℕ)
    → WritesChecksums d
    → Holds s src dst src_port dst_port
    → Holds (d.calc_checksums s) src dst src_port dst_port
checksums-Holds d s src dst sp dp w h =
    let l = h.tcp.least in
    Holds-agree s (d.calc_checksums s) src dst sp dp (w.length_eq s)
      (λ j o k.
        w.kept s j (elim o [ inl e ↦ inl (omega (arith, e)) | inr e ↦ inr (omega (arith, e)) ])
          (inl (omega (arith, l, k))))
      (λ j k m. w.kept s j (inr (omega (arith, l, k))) (inl (omega (arith, m)))) h

-- The bytes that the loop handed to the driver last.
abbrev pub bytes_offered : Loop → Bytes
bytes_offered s = s.offered.0

pub reflect_forward-offered :
    (d : Driver) (r : ℕ) (c : Connection) (v : Packet) (addr : Address) (s : Loop)
    → (reflect_forward d r c v addr s).offered
      ≡ (d.calc_checksums (rewrite_forward c v).raw, inbound c addr)
unfolding reflect_forward
reflect_forward-offered d r c v addr s =
    elim (Bool-cases (d.sends (d.calc_checksums (rewrite_forward c v).raw))) [
      | inl e ↦ rw e refl
      | inr e ↦ rw e refl
    ]

pub reflect_reverse-offered :
    (d : Driver) (r : ℕ) (c : Connection) (v : Packet) (addr : Address) (s : Loop)
    → (reflect_reverse d r c v addr s).offered
      ≡ (d.calc_checksums (rewrite_reverse c v).raw, inbound c addr)
unfolding reflect_reverse
reflect_reverse-offered d r c v addr s =
    elim (Bool-cases (d.sends (d.calc_checksums (rewrite_reverse c v).raw))) [
      | inl e ↦ rw e refl
      | inr e ↦ rw e refl
    ]

ip_equal_refl : (ip : Bytes) → ip_equal ip ip ≡ true
unfolding ip_equal
ip_equal_refl ip = rw (==-refl (length ip)) (==-refl ip)

concerns_own :
    (c : Connection) (s src : Bytes) (src_port : ℕ)
    → concerns c (packet_of s src c.remote_addr src_port c.remote_port) ≡ true
concerns_own c s src sp = rw (==-refl c.remote_port) (ip_equal_refl c.remote_addr)

handle_packet-view :
    (d : Driver) (s src dst : Bytes) (src_port dst_port : ℕ) (addr : Address) (l : Loop)
    → Holds s src dst src_port dst_port
    → handle_packet d s addr l ≡ done (handle_view d (packet_of s src dst src_port dst_port) addr l)
unfolding handle_packet
handle_packet-view d s src dst sp dp addr l h = rw (parse-Holds s src dst sp dp h) refl

-- The application's packet of a tracked connection.
pub handle_packet_outgoing :
    (d : Driver) (c : Connection) (r : ℕ) (s : Bytes) (addr : Address) (l : Loop)
    → Holds s c.local_addr c.remote_addr c.local_port c.remote_port
    → connection_by_local c.local_port l.table ≡ some (r, c)
    → connection_by_redirect c.local_port l.table ≡ none
    → handle_packet d s addr l
      ≡ done (
          reflect_forward d r c
            (packet_of s c.local_addr c.remote_addr c.local_port c.remote_port)
            addr
            l)
unfolding handle_view handle_outgoing
handle_packet_outgoing d c r s addr l h e n =
    handle_packet-view d s c.local_addr c.remote_addr c.local_port c.remote_port addr l h
    ∙ rw (n, handle_view)
        (rw (e, handle_outgoing) (rw (concerns_own c s c.local_addr c.local_port) refl))

-- The packet of the listener of a tracked connection.
pub handle_packet_reply :
    (d : Driver) (c : Connection) (r : ℕ) (s : Bytes) (addr : Address) (l : Loop)
    → Holds s c.local_addr c.remote_addr c.redirect_port c.remote_port
    → connection_by_redirect c.redirect_port l.table ≡ some (r, c)
    → handle_packet d s addr l
      ≡ done (
          reflect_reverse d r c
            (packet_of s c.local_addr c.remote_addr c.redirect_port c.remote_port)
            addr
            l)
unfolding handle_view
handle_packet_reply d c r s addr l h e =
    handle_packet-view d s c.local_addr c.remote_addr c.redirect_port c.remote_port addr l h
    ∙ rw (e, handle_view) (rw (concerns_own c s c.local_addr c.redirect_port) refl)
