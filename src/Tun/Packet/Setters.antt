-- ===== src/Tun/Packet/Setters.antt =====
-- A packet whose fields are written one after the other.
use proxy_rule_manager.Common.{ℕ, ◌+◌, ◌<◌, ◌≡◌, refl, ◌∙◌, sym, some, arith, inl, inr}
use proxy_rule_manager.Platform.{Bytes}
use proxy_rule_manager.Tun.Sni.{done}
use proxy_rule_manager.Tun.Packet.{
  Packet, parse_ipv4_tcp_packet, set_src_ip, set_dst_ip, set_src_port, set_dst_port, port_bytes,
}
use proxy_rule_manager.Tun.Packet.Laws.{header, parse_of_IsTcp}
use proxy_rule_manager.Tun.Packet.Fields.{
  IsQuad, Holds, four-IsQuad, length-IsQuad, four_bytes-copy_at, four_bytes-copy_at_beside,
  port_at-copy_at, port_at-copy_at_beside, header-copy_at, copy_at-IsTcp,
}

-- The bytes of the packet hold these ends, and its header's length is that of the bytes.
pub record Stands (p : Packet) (src dst : Bytes) (src_port dst_port : ℕ) : Type 0 where
  pub ihl_eq : p.ihl ≡ header p.raw
  pub holds : Holds p.raw src dst src_port dst_port

module _ {src dst : Bytes} {src_port dst_port : ℕ} where
  pub Stands-set_src_ip :
      (p : Packet) (ip : Bytes)
      → IsQuad ip
      → Stands p src dst src_port dst_port
      → Stands (set_src_ip ip p) ip dst src_port dst_port
  unfolding set_src_ip
  Stands-set_src_ip p ip q t =
      let e = t.ihl_eq in
      let h = t.holds in
      let n = length-IsQuad ip q in
      let l = h.tcp.least in
      let f = h.tcp.fits in
      rw (four-IsQuad ip q) (record {
        ihl_eq = e ∙ sym (header-copy_at p.raw 12 ip (omega arith));
        holds = record {
          tcp = copy_at-IsTcp p.raw 12 ip (omega arith) h.tcp;
          src_eq = four_bytes-copy_at p.raw 12 ip q (omega (arith, l, f));
          dst_eq = four_bytes-copy_at_beside p.raw 12 ip 16 (inr (omega (arith, n))) ∙ h.dst_eq;
          src_port_eq = rw (header-copy_at p.raw 12 ip (omega arith)) (
              port_at-copy_at_beside p.raw 12 ip (header p.raw) (inr (omega (arith, n, l)))
              ∙ h.src_port_eq);
          dst_port_eq = rw (header-copy_at p.raw 12 ip (omega arith)) (
              port_at-copy_at_beside p.raw 12 ip (header p.raw + 2) (inr (omega (arith, n, l)))
              ∙ h.dst_port_eq);
        };
      })

  pub Stands-set_dst_ip :
      (p : Packet) (ip : Bytes)
      → IsQuad ip
      → Stands p src dst src_port dst_port
      → Stands (set_dst_ip ip p) src ip src_port dst_port
  unfolding set_dst_ip
  Stands-set_dst_ip p ip q t =
      let e = t.ihl_eq in
      let h = t.holds in
      let n = length-IsQuad ip q in
      let l = h.tcp.least in
      let f = h.tcp.fits in
      rw (four-IsQuad ip q) (record {
        ihl_eq = e ∙ sym (header-copy_at p.raw 16 ip (omega arith));
        holds = record {
          tcp = copy_at-IsTcp p.raw 16 ip (omega arith) h.tcp;
          src_eq = four_bytes-copy_at_beside p.raw 16 ip 12 (inl (omega arith)) ∙ h.src_eq;
          dst_eq = four_bytes-copy_at p.raw 16 ip q (omega (arith, l, f));
          src_port_eq = rw (header-copy_at p.raw 16 ip (omega arith)) (
              port_at-copy_at_beside p.raw 16 ip (header p.raw) (inr (omega (arith, n, l)))
              ∙ h.src_port_eq);
          dst_port_eq = rw (header-copy_at p.raw 16 ip (omega arith)) (
              port_at-copy_at_beside p.raw 16 ip (header p.raw + 2) (inr (omega (arith, n, l)))
              ∙ h.dst_port_eq);
        };
      })

  pub Stands-set_src_port :
      (p : Packet) (port : ℕ)
      → port < 65536
      → Stands p src dst src_port dst_port
      → Stands (set_src_port port p) src dst port dst_port
  unfolding set_src_port
  Stands-set_src_port p port b t =
      let e = t.ihl_eq in
      let h = t.holds in
      let l = h.tcp.least in
      let f = h.tcp.fits in
      let i = p.ihl in
      let kept = header-copy_at p.raw i (port_bytes port) (omega (arith, e, l)) in
      record {
        ihl_eq = e ∙ sym kept;
        holds = record {
          tcp = copy_at-IsTcp p.raw i (port_bytes port) (omega (arith, e, l)) h.tcp;
          src_eq =
              four_bytes-copy_at_beside p.raw i (port_bytes port) 12 (inl (omega (arith, e, l)))
              ∙ h.src_eq;
          dst_eq =
              four_bytes-copy_at_beside p.raw i (port_bytes port) 16 (inl (omega (arith, e, l)))
              ∙ h.dst_eq;
          src_port_eq = rw kept (rw (sym e) (port_at-copy_at p.raw i port b (omega (arith, e, f))));
          dst_port_eq = rw kept (
              port_at-copy_at_beside p.raw i (port_bytes port) (header p.raw + 2)
                (inr (omega (arith, e)))
              ∙ h.dst_port_eq);
        };
      }

  pub Stands-set_dst_port :
      (p : Packet) (port : ℕ)
      → port < 65536
      → Stands p src dst src_port dst_port
      → Stands (set_dst_port port p) src dst src_port port
  unfolding set_dst_port
  Stands-set_dst_port p port b t =
      let e = t.ihl_eq in
      let h = t.holds in
      let l = h.tcp.least in
      let f = h.tcp.fits in
      let i = p.ihl + 2 in
      let kept = header-copy_at p.raw i (port_bytes port) (omega (arith, e, l)) in
      record {
        ihl_eq = e ∙ sym kept;
        holds = record {
          tcp = copy_at-IsTcp p.raw i (port_bytes port) (omega (arith, e, l)) h.tcp;
          src_eq =
              four_bytes-copy_at_beside p.raw i (port_bytes port) 12 (inl (omega (arith, e, l)))
              ∙ h.src_eq;
          dst_eq =
              four_bytes-copy_at_beside p.raw i (port_bytes port) 16 (inl (omega (arith, e, l)))
              ∙ h.dst_eq;
          src_port_eq = rw kept (
              port_at-copy_at_beside p.raw i (port_bytes port) (header p.raw)
                (inl (omega (arith, e)))
              ∙ h.src_port_eq);
          dst_port_eq = rw kept (rw (sym e) (port_at-copy_at p.raw i port b (omega (arith, e, f))));
        };
      }

pub parse-Holds :
    (s src dst : Bytes) (src_port dst_port : ℕ)
    → Holds s src dst src_port dst_port
    → parse_ipv4_tcp_packet s
      ≡ done (
          some (record {
            raw = s;
            ihl = header s;
            src_ip = src;
            dst_ip = dst;
            src_port = src_port;
            dst_port = dst_port;
          }))
parse-Holds s src dst sp dp h =
    parse_of_IsTcp s h.tcp ∙ rw h.src_eq (rw h.dst_eq (rw h.src_port_eq (rw h.dst_port_eq refl)))
