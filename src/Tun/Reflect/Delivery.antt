-- ===== src/Tun/Reflect/Delivery.antt =====
-- What a reflected packet is, as it is handed to the driver.
use proxy_rule_manager.Common.{
  ℕ, ◌+◌, ◌≡◌, ◌≢◌, sym, subst, ◌∙◌, false, arith, nat_eq, drop, nat_beq, inl, inr, Bool-cases,
}
use proxy_rule_manager.Platform.{Bytes}
use proxy_rule_manager.Tun.Packet.Laws.{header}
use proxy_rule_manager.Tun.Packet.Fields.{Holds}
use proxy_rule_manager.Tun.Table.{Connection}
use proxy_rule_manager.Tun.Reflect.{
  Address, Driver, Loop, rewrite_reverse, rewrite_forward, reflect_reverse, reflect_forward,
  inbound,
}
use proxy_rule_manager.Tun.Reflect.Laws.{
  WritesChecksums, IsWellFormed, rewrite_reverse-Stands, rewrite_forward-Stands, packet_of,
  Stands-packet_of, checksums-Holds, bytes_offered, reflect_forward-offered,
  reflect_reverse-offered,
}
use proxy_rule_manager.Tun.Reflect.Payload.{
  drop-rewrite_reverse, drop-rewrite_forward, ihl-rewrite_reverse, ihl-rewrite_forward,
}

-- How a packet comes in: as one that is not outgoing, on the interface of the packet that it was made
-- of; where that is unknown on the connection's, where there is one.
pub data Entry (from : Address) (c : Connection) : Address → Type 0 where
  own : (from.if_idx ≢ 0) → Entry from c (record from { outbound = false })
  kept :
      (from.if_idx ≡ 0)
      → (c.if_idx ≢ 0)
      → Entry from c (record { if_idx = c.if_idx; sub_if_idx = c.sub_if_idx; outbound = false })
  neither : (from.if_idx ≡ 0) → (c.if_idx ≡ 0) → Entry from c (record from { outbound = false })

inbound-Entry : (c : Connection) (from : Address) → Entry from c (inbound c from)
inbound-Entry c from = elim (Bool-cases (nat_eq from.if_idx 0)) [
  | inr e ↦ rw e (rw e (own (λ z. ground (arith, e, z))))
  | inl e ↦ rw e (elim (Bool-cases (nat_eq c.if_idx 0)) [
    | inl f ↦ rw f (neither (ground (arith, e)) (ground (arith, f)))
    | inr f ↦ rw f (kept (ground (arith, e)) (λ z. ground (arith, f, z)))
  ])
]

-- The loop hands a packet with these ends to the driver, which comes in to its destination, and what
-- follows the headers is as it was.
pub record Delivers (d : Driver) (s : Bytes) (from : Address) (c : Connection) (src dst : Bytes)
    (src_port dst_port : ℕ) (out : Loop) : Type 0 where
  pub ends : Holds (bytes_offered out) src dst src_port dst_port
  pub payload : drop (header s + 20) (bytes_offered out) ≡ drop (header s + 20) s
  pub entry : Entry from c out.offered.1

checked_payload :
    (d : Driver) (s t : Bytes)
    → WritesChecksums d
    → header s ≡ header t
    → drop (header s + 20) t ≡ drop (header s + 20) s
    → drop (header s + 20) (d.calc_checksums t) ≡ drop (header s + 20) s
checked_payload d s t w e h =
    subst (λ n. drop (n + 20) (d.calc_checksums t) ≡ drop (n + 20) t) (sym e) (w.payload t) ∙ h

module _ (d : Driver) (w : WritesChecksums d) (c : Connection) (f : IsWellFormed c) (r : ℕ) where
  pub reflect_forward-Delivers :
      (s : Bytes) (addr : Address) (l : Loop)
      → Holds s c.local_addr c.remote_addr c.local_port c.remote_port
      → Delivers d s addr c c.remote_addr c.local_addr c.remote_port c.redirect_port (
          reflect_forward d r c
            (packet_of s c.local_addr c.remote_addr c.local_port c.remote_port)
            addr
            l)
  reflect_forward-Delivers s addr l h =
      let v = packet_of s c.local_addr c.remote_addr c.local_port c.remote_port in
      let out =
        rewrite_forward-Stands c f v f.local_addr
          (Stands-packet_of s c.local_addr c.remote_addr c.local_port c.remote_port h) in
      let t = (rewrite_forward c v).raw in
      let kept =
        drop-rewrite_forward (header s + 20) c f v (omega arith) (omega arith) f.local_addr in
      let sent = reflect_forward-offered d r c v addr l in
      record {
        entry = subst (λ x. Entry addr c x.1) (sym sent) (inbound-Entry c addr);
        ends = rw sent (
            checksums-Holds d t c.remote_addr c.local_addr c.remote_port c.redirect_port w
              out.holds);
        payload =
            rw sent (checked_payload d s t w (sym (ihl-rewrite_forward c v) ∙ out.ihl_eq) kept);
      }

  pub reflect_reverse-Delivers :
      (s : Bytes) (addr : Address) (l : Loop)
      → Holds s c.local_addr c.remote_addr c.redirect_port c.remote_port
      → Delivers d s addr c c.remote_addr c.local_addr c.remote_port c.local_port (
          reflect_reverse d r c
            (packet_of s c.local_addr c.remote_addr c.redirect_port c.remote_port)
            addr
            l)
  reflect_reverse-Delivers s addr l h =
      let v = packet_of s c.local_addr c.remote_addr c.redirect_port c.remote_port in
      let out =
        rewrite_reverse-Stands c f v
          (Stands-packet_of s c.local_addr c.remote_addr c.redirect_port c.remote_port h) in
      let t = (rewrite_reverse c v).raw in
      let kept = drop-rewrite_reverse (header s + 20) c f v (omega arith) (omega arith) in
      let sent = reflect_reverse-offered d r c v addr l in
      record {
        entry = subst (λ x. Entry addr c x.1) (sym sent) (inbound-Entry c addr);
        ends =
            rw sent (
              checksums-Holds d t c.remote_addr c.local_addr c.remote_port c.local_port w
                out.holds);
        payload =
            rw sent (checked_payload d s t w (sym (ihl-rewrite_reverse c v) ∙ out.ihl_eq) kept);
      }
