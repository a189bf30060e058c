-- ===== src/Netroute/Laws.antt =====
-- The addresses for which routes are made and removed.
use proxy_rule_manager.Common.{
  ◌≡◌, ◌≢◌, refl, false, not, Option, some, List, [], ◌∷◌, ◌++◌, ◌==◌, any, All, All-append,
  Bool-cases, Option-cases, inl, inr, true≢false, ◌⊎◌,
}
use proxy_rule_manager.Text.{
  Text, codes, text_beq, is_empty, trim, trim_space, contains, is_bracket,
}
use proxy_rule_manager.Platform.{Platform, Bytes}
use proxy_rule_manager.Net.{to4}
use proxy_rule_manager.Netroute.{
  UpstreamProxyRouteOptions, Applying, through, refused, Windows, RouteCall, removed, applied,
  is_unsafe_route_target, plain_target, normalize_ipv4_target, normalize_targets_from,
  normalize_ipv4_targets, remove_upstream_proxy_routes, clear_upstream_proxy_routes,
  chosen_interface, all_targets, apply_targets, reconcile_new, reconcile_upstream_proxy_routes,
}

module _ ⦃p : Platform⦄ where
  -- The text of an IPv4 address for which a route may be made.
  pub record IsSafeTarget (target : Text) : Type 0 where
    pub parsed : Bytes
    pub ip : Bytes
    pub v4 : to4 parsed ≡ some ip
    pub safe : is_unsafe_route_target ip ≡ false
    pub shown : target ≡ p.ip_string ip

  abbrev pub IsSafeCall : RouteCall → Type 0
  IsSafeCall (removed targets gateway) = All IsSafeTarget targets
  IsSafeCall (applied iface targets) = (iface ≢ []) × (targets ≢ []) × All IsSafeTarget targets

  full : (s : Text) → is_empty s ≡ false → s ≢ []
  full [] h e = true≢false refl h
  full (c ∷ s) h e = cc

  plain_target-IsSafeTarget :
      (s : Text) → is_empty (plain_target s) ≡ false → IsSafeTarget (plain_target s)
  unfolding plain_target
  plain_target-IsSafeTarget s h = elim (Option-cases (p.parse_ip (trim is_bracket s))) [
    | inl e ↦ absurd (true≢false refl (rw (e, plain_target) at h))
    | inr (parsed, e) ↦ elim (Option-cases (to4 parsed)) [
      | inl f ↦ absurd (true≢false refl (rw f at (rw (e, plain_target) at h)))
      | inr (ip, f) ↦
          let h' = rw f at (rw (e, plain_target) at h) in
          elim (Bool-cases (is_unsafe_route_target ip)) [
            | inl g ↦ absurd (true≢false refl (rw g at h'))
            | inr g ↦ record {
              parsed = parsed;
              ip = ip;
              v4 = f;
              safe = g;
              shown = rw (e, plain_target) (rw f (rw g refl));
            }
          ]
    ]
  ]

  normalize_ipv4_target-IsSafeTarget :
      (value : Text)
      → is_empty (normalize_ipv4_target value) ≡ false
      → IsSafeTarget (normalize_ipv4_target value)
  unfolding normalize_ipv4_target
  normalize_ipv4_target-IsSafeTarget value h =
      let t = trim_space value in
      elim (Bool-cases (is_empty t)) [
        | inl e ↦ absurd (true≢false refl (rw e at h))
        | inr e ↦ elim (Bool-cases (contains t (codes "/"))) [
          | inr f ↦ rw e (rw f (plain_target-IsSafeTarget t (rw f at (rw e at h))))
          | inl f ↦ elim (Option-cases (p.parse_cidr t)) [
            | inl g ↦ absurd (true≢false refl (rw g at (rw f at (rw e at h))))
            | inr ((ip, network), g) ↦
                elim (Bool-cases (network.mask == 255 ∷ 255 ∷ 255 ∷ 255 ∷ [])) [
                  | inl i ↦ rw e (
                      rw f (
                        rw g (
                          rw i (
                            plain_target-IsSafeTarget (p.ip_string ip)
                              (rw i at (rw g at (rw f at (rw e at h))))))))
                  | inr i ↦ absurd (true≢false refl (rw i at (rw g at (rw f at (rw e at h)))))
                ]
          ]
        ]
      ]

  normalize_targets_from-All :
      (seen values : List Text) → All IsSafeTarget (normalize_targets_from seen values)
  unfolding normalize_targets_from
  normalize_targets_from-All seen [] = tt
  normalize_targets_from-All seen (value ∷ values) =
      let ip = normalize_ipv4_target value in
      elim (Bool-cases (is_empty ip)) [
        | inl e ↦ rw e (normalize_targets_from-All seen values)
        | inr e ↦ elim (Bool-cases (any (λ s. s == ip) seen)) [
          | inl f ↦ rw e (rw f (normalize_targets_from-All seen values))
          | inr f ↦ rw e (
              rw f (
                normalize_ipv4_target-IsSafeTarget value e,
                normalize_targets_from-All (ip ∷ seen) values,
              ))
        ]
      ]

  normalize_ipv4_targets-All :
      (values : List Text) → All IsSafeTarget (normalize_ipv4_targets values)
  unfolding normalize_ipv4_targets
  normalize_ipv4_targets-All values = normalize_targets_from-All [] values

  remove-All :
      (w : Windows) (targets : List Text) (gateway : Text)
      → All IsSafeTarget targets
      → All IsSafeCall (remove_upstream_proxy_routes w targets gateway).0
  unfolding remove_upstream_proxy_routes
  remove-All w [] gateway h = tt
  remove-All w (target ∷ targets) gateway h = (h, tt)

  clear-All :
      (w : Windows) (targets : List Text) (gateway : Text)
      → All IsSafeCall (clear_upstream_proxy_routes w targets gateway).0
  unfolding clear_upstream_proxy_routes
  clear-All w targets gateway = remove-All w _ gateway (normalize_ipv4_targets-All targets)

  cons_full : (t : Text) (l : List Text) → ◌≢◌ {A = List Text} (t ∷ l) []
  cons_full t l e = cc

  apply_targets-All :
      (w : Windows) (iface : Text) (targets : List Text) (e : Option Text)
      → is_empty iface ≡ false
      → All IsSafeTarget targets
      → All IsSafeCall (apply_targets w iface targets e).0
  unfolding apply_targets
  apply_targets-All w iface [] e n h = tt
  apply_targets-All w iface (t ∷ l) e n h = elim (cases (w.apply_routes iface (t ∷ l))) [
    | inl (g, i) ↦ rw (i, apply_targets) ((full iface n, cons_full t l, h), tt)
    | inr (x, i) ↦ rw (i, apply_targets) ((full iface n, cons_full t l, h), tt)
  ]
    where
      cases : (a : Applying) → ((g : Text) × (a ≡ through g)) ⊎ ((x : Text) × (a ≡ refused x))
      cases (through g) = inl (g, refl)
      cases (refused x) = inr (x, refl)

  reconcile_new-All :
      (w : Windows) (o : UpstreamProxyRouteOptions) → All IsSafeCall (reconcile_new w o).0
  unfolding reconcile_new
  reconcile_new-All w o = elim (Bool-cases (not o.enabled)) [
    | inl e ↦ rw e tt
    | inr e ↦ elim (Bool-cases (is_empty (chosen_interface o))) [
      | inl f ↦ rw e (rw f tt)
      | inr f ↦ rw e (
          rw f (
            apply_targets-All w (chosen_interface o) (all_targets w o)
              (w.discover o.upstream_addr o.program_paths).1 f
              (normalize_ipv4_targets-All (
                normalize_ipv4_targets o.manual_targets
                ++ (w.discover o.upstream_addr o.program_paths).0))))
    ]
  ]

  -- Whatever targets the configuration and the discovery give, each call of Windows that reconciling
  -- the routes makes is for addresses that are IPv4 and neither unspecified nor of the loopback
  -- network, a multicast group, a link-local network or the broadcast address; and routes are made
  -- only by an adapter that is named and for at least one address.
  pub reconcile_upstream_proxy_routes-All :
      (w : Windows) (o : UpstreamProxyRouteOptions)
      → All IsSafeCall (reconcile_upstream_proxy_routes w o).0
  unfolding reconcile_upstream_proxy_routes
  reconcile_upstream_proxy_routes-All w o =
      let before = clear-All w o.previous_targets o.previous_gateway in
      elim (Option-cases (clear_upstream_proxy_routes w o.previous_targets o.previous_gateway).1) [
        | inr (x, e) ↦ rw (e, reconcile_upstream_proxy_routes) before
        | inl e ↦
            rw (e, reconcile_upstream_proxy_routes)
              (All-append IsSafeCall _ _ before (reconcile_new-All w o))
      ]
