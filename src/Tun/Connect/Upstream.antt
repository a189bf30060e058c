-- ===== src/Tun/Connect/Upstream.antt =====
-- What the upstream proxy's own connections are, apart from the test that lets them pass.
use proxy_rule_manager.Common.{
  ℕ, ◌≡◌, sym, subst, true, false, none, some, List, [], ◌∷◌, nat_eq, arith, any, In, here, there,
}
use proxy_rule_manager.Text.{Text, codes, trim, trim_space, is_bracket}
use proxy_rule_manager.Platform.{Platform, Bytes, equal_fold}
use proxy_rule_manager.Net.{is_loopback, ip_equal}
use proxy_rule_manager.Net.HostPort.{split_host_port}
use proxy_rule_manager.Tun.Connect.{
  Outside, is_upstream_host, parse_uint16, should_bypass_transparent_connect,
}

nat_same : (n : ℕ) → nat_eq n n ≡ true
nat_same n = ground arith

module _ ⦃p : Platform⦄ where
  -- An address is one of the upstream proxy's host: on the loopback interface for localhost, else
  -- equal to the address that the host is written as, or to one that a resolver answers with.
  pub data IsHost (o : Outside) (host : Text) (ip : Bytes) : Type 0 where
    localhost :
        (equal_fold host (codes "localhost") ≡ true) → (is_loopback ip ≡ true) → IsHost o host ip
    literal :
        (equal_fold host (codes "localhost") ≡ false)
        → (written : Bytes) → (p.parse_ip host ≡ some written)
        → (ip_equal written ip ≡ true)
        → IsHost o host ip
    resolved :
        (equal_fold host (codes "localhost") ≡ false)
        → (p.parse_ip host ≡ none)
        → (ips : List Bytes) → (o.lookup_ip host ≡ some ips)
        → (found : Bytes) → In found ips
        → (ip_equal found ip ≡ true)
        → IsHost o host ip

  -- An address and a port are those of the upstream proxy.
  pub data IsUpstream (o : Outside) (ip : Bytes) (port : ℕ) : Type 0 where
    at :
        (host written : Text)
        → (split_host_port (trim_space o.upstream_proxy_addr) ≡ some (host, written))
        → (parse_uint16 written ≡ some port)
        → IsHost o (trim is_bracket host) ip
        → IsUpstream o ip port

  any-In :
      (ip found : Bytes) (ips : List Bytes)
      → In found ips
      → ip_equal found ip ≡ true
      → any (λ x. ip_equal x ip) ips ≡ true
  any-In ip found [] i h = elim i [ ]
  any-In ip found (x ∷ ips) (here e) h =
      let same : ip_equal x ip ≡ true = subst (λ y. ip_equal y ip ≡ true) (sym e) h in
      ground (arith, same)
  any-In ip found (x ∷ ips) (there i) h = let rest = any-In ip found ips i h in ground (arith, rest)

  is_upstream_host-IsHost :
      (o : Outside) (host : Text) (ip : Bytes)
      → IsHost o (trim is_bracket host) ip
      → is_upstream_host o host ip ≡ true
  unfolding is_upstream_host
  is_upstream_host-IsHost o host ip (localhost a b) = rw a b
  is_upstream_host-IsHost o host ip (literal a written b c) = rw a (rw (b, is_upstream_host) c)
  is_upstream_host-IsHost o host ip (resolved a b ips c found i h) =
      rw a (rw (b, is_upstream_host) (rw (c, is_upstream_host) (any-In ip found ips i h)))

  -- Whatever is an address of the upstream proxy passes the test that bypasses it.
  pub bypass-IsUpstream :
      (o : Outside) (ip : Bytes) (port : ℕ)
      → IsUpstream o ip port
      → should_bypass_transparent_connect o ip port ≡ true
  unfolding should_bypass_transparent_connect
  bypass-IsUpstream o ip port (at host written a b h) =
      rw (a, should_bypass_transparent_connect)
        (rw (b, should_bypass_transparent_connect)
          (rw (nat_same port) (is_upstream_host-IsHost o host ip h)))
