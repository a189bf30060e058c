-- ===== src/Tun/Reflect/Payload.antt =====
-- What follows the two headers in a packet that is reflected.
use proxy_rule_manager.Common.{ℕ, ◌+◌, ◌≤◌, ◌≡◌, refl, ◌∙◌, drop, arith}
use proxy_rule_manager.Platform.{Bytes}
use proxy_rule_manager.Tun.Packet.Buffer.{drop-copy_at}
use proxy_rule_manager.Tun.Packet.{
  Packet, set_src_ip, set_dst_ip, set_src_port, set_dst_port, port_bytes,
}
use proxy_rule_manager.Tun.Packet.Fields.{IsQuad, four-IsQuad, length-IsQuad}
use proxy_rule_manager.Tun.Table.{Connection}
use proxy_rule_manager.Tun.Reflect.{rewrite_reverse, rewrite_forward}
use proxy_rule_manager.Tun.Reflect.Laws.{IsWellFormed}

module _ (n : ℕ) (p : Packet) (h : p.ihl + 4 ≤ n) where
  drop-set_src_port : (port : ℕ) → drop n (set_src_port port p).raw ≡ drop n p.raw
  unfolding set_src_port
  drop-set_src_port port = drop-copy_at n p.raw p.ihl (port_bytes port) (omega (arith, h))

  drop-set_dst_port : (port : ℕ) → drop n (set_dst_port port p).raw ≡ drop n p.raw
  unfolding set_dst_port
  drop-set_dst_port port = drop-copy_at n p.raw (p.ihl + 2) (port_bytes port) (omega (arith, h))

module _ (n : ℕ) (p : Packet) (ip : Bytes) (q : IsQuad ip) (h : 20 ≤ n) where
  drop-set_src_ip : drop n (set_src_ip ip p).raw ≡ drop n p.raw
  unfolding set_src_ip
  drop-set_src_ip =
      let l = length-IsQuad ip q in
      rw (four-IsQuad ip q) (drop-copy_at n p.raw 12 ip (omega (arith, l, h)))

  drop-set_dst_ip : drop n (set_dst_ip ip p).raw ≡ drop n p.raw
  unfolding set_dst_ip
  drop-set_dst_ip =
      let l = length-IsQuad ip q in
      rw (four-IsQuad ip q) (drop-copy_at n p.raw 16 ip (omega (arith, l, h)))

module _ (n : ℕ) (c : Connection) (w : IsWellFormed c) (p : Packet) (h : p.ihl + 4 ≤ n)
    (k : 20 ≤ n) where
  pub drop-rewrite_reverse : drop n (rewrite_reverse c p).raw ≡ drop n p.raw
  unfolding rewrite_reverse set_src_ip set_dst_ip set_src_port
  drop-rewrite_reverse =
      let a = set_src_ip c.remote_addr p in
      let b = set_dst_ip c.local_addr a in
      drop-set_dst_port n (set_src_port c.remote_port b) h c.local_port
      ∙ drop-set_src_port n b h c.remote_port
      ∙ drop-set_dst_ip n a c.local_addr w.local_addr k
      ∙ drop-set_src_ip n p c.remote_addr w.remote_addr k

  pub drop-rewrite_forward : IsQuad p.src_ip → drop n (rewrite_forward c p).raw ≡ drop n p.raw
  unfolding rewrite_forward set_src_ip set_dst_ip set_dst_port
  drop-rewrite_forward q =
      let a = set_dst_port c.redirect_port p in
      let b = set_dst_ip p.src_ip a in
      drop-set_src_port n (set_src_ip c.remote_addr b) h c.remote_port
      ∙ drop-set_src_ip n b c.remote_addr w.remote_addr k
      ∙ drop-set_dst_ip n a p.src_ip q k
      ∙ drop-set_dst_port n p h c.redirect_port

pub ihl-rewrite_reverse : (c : Connection) (p : Packet) → (rewrite_reverse c p).ihl ≡ p.ihl
unfolding rewrite_reverse set_src_ip set_dst_ip set_src_port set_dst_port
ihl-rewrite_reverse c p = refl

pub ihl-rewrite_forward : (c : Connection) (p : Packet) → (rewrite_forward c p).ihl ≡ p.ihl
unfolding rewrite_forward set_src_ip set_dst_ip set_src_port set_dst_port
ihl-rewrite_forward c p = refl
