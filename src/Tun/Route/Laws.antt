-- ===== src/Tun/Route/Laws.antt =====
-- When a connection is rejected, and what decides where a host name is known.
use proxy_rule_manager.Common.{
  ℕ, some, List, [], if◌then◌else◌, ◌==◌, ◌≡◌, ◌≢◌, ◌⊎◌, inl, inr, arith, refl, Bool-cases,
  Option-cases, true≢false,
}
use proxy_rule_manager.Text.{Text, codes, text_beq, text_eq_iff}
use proxy_rule_manager.Text.Laws.{text_ne}
use proxy_rule_manager.Platform.{Platform, Bytes}
use proxy_rule_manager.Net.{to4}
use proxy_rule_manager.Net.HostPort.{normalize_detected_host}
use proxy_rule_manager.Model.{
  proxy, direct, reject, ip_cidr, Rule, TunAppRoutingMode, rules_proxy_fallback,
  rules_direct_fallback, force_proxy, force_direct,
}
use proxy_rule_manager.Model.Equality.{type_beq, type_eq_iff}
use proxy_rule_manager.Rules.Engine.{normalize_host, match}
use proxy_rule_manager.Rules.Engine.FirstMatch.{FirstMatch, match_of_FirstMatch}
use proxy_rule_manager.Tun.Route.{
  AppRouteDecision, decision_for, fall_back, route_by_address, route_by_rules, decide_app_route,
}

direct≢reject : direct ≡ reject → ⊥
direct≢reject e = cc

proxy≢reject : proxy ≡ reject → ⊥
proxy≢reject e = cc

module _ ⦃p : Platform⦄ where
  -- A host name was seen and its rule rejects, or a rule on the IPv4 address does.
  abbrev pub RejectedByRule : Text → Bytes → List Rule → Type 0
  RejectedByRule sniffed_host remote_ip rules =
      ((normalize_detected_host sniffed_host ≢ [])
        × ((match (normalize_detected_host sniffed_host) rules).0.target ≡ reject))
      ⊎ ((normalize_detected_host sniffed_host ≡ [])
          × ((ip : Bytes) × (to4 remote_ip ≡ some ip)
              × ((match (p.ip_string ip) rules).1.type ≡ ip_cidr)
              × ((match (p.ip_string ip) rules).0.target ≡ reject)))

  route_by_rules-FirstMatch :
      (sniffed_host : Text) (remote_ip : Bytes) (rules : List Rule) (mode : TunAppRoutingMode)
      (n : ℕ) (r : Rule)
      → normalize_detected_host sniffed_host ≢ []
      → FirstMatch (normalize_host (normalize_detected_host sniffed_host)) rules n r
      → (route_by_rules sniffed_host remote_ip rules mode).rule ≡ r
  unfolding route_by_rules
  route_by_rules-FirstMatch sniffed_host remote_ip rules mode n r full f =
      let host = normalize_detected_host sniffed_host in
      rw (text_ne host [] full) (rw (match_of_FirstMatch host f))

  -- Without a forced mode, for a connection whose host name is known, the decision is the first
  -- rule that applies to the name, whatever the address is.
  pub decide_app_route-FirstMatch :
      (sniffed_host : Text) (remote_ip : Bytes) (rules : List Rule) (mode : TunAppRoutingMode)
      (n : ℕ) (r : Rule)
      → mode ≢ force_direct
      → mode ≢ force_proxy
      → normalize_detected_host sniffed_host ≢ []
      → FirstMatch (normalize_host (normalize_detected_host sniffed_host)) rules n r
      → (decide_app_route sniffed_host remote_ip rules mode).rule ≡ r
  unfolding decide_app_route
  decide_app_route-FirstMatch sniffed_host remote_ip rules force_direct n r a b full f =
      absurd (a refl)
  decide_app_route-FirstMatch sniffed_host remote_ip rules force_proxy n r a b full f =
      absurd (b refl)
  decide_app_route-FirstMatch sniffed_host remote_ip rules rules_proxy_fallback n r a b full f =
      route_by_rules-FirstMatch sniffed_host remote_ip rules rules_proxy_fallback n r full f
  decide_app_route-FirstMatch sniffed_host remote_ip rules rules_direct_fallback n r a b full f =
      route_by_rules-FirstMatch sniffed_host remote_ip rules rules_direct_fallback n r full f
  decide_app_route-FirstMatch sniffed_host remote_ip rules (TunAppRoutingMode.other m) n r a b full
        f =
      route_by_rules-FirstMatch sniffed_host remote_ip rules (TunAppRoutingMode.other m) n r full f

  fall_back-ne-reject : (mode : TunAppRoutingMode) → (fall_back mode).rule.target ≢ reject
  unfolding fall_back
  fall_back-ne-reject rules_direct_fallback = ground arith
  fall_back-ne-reject _ = ground arith

  -- The decision of `route_by_address` for an IPv4 address.
  abbrev address_decision : Bytes → List Rule → TunAppRoutingMode → AppRouteDecision
  address_decision ip rules mode =
      let found = match (p.ip_string ip) rules in
      if found.1.type == ip_cidr
      then decision_for (p.ip_string ip) (codes "ip-cidr") found
      else fall_back mode

  route_by_address-reject :
      (remote_ip : Bytes) (rules : List Rule) (mode : TunAppRoutingMode)
      → (route_by_address remote_ip rules mode).rule.target ≡ reject
      → (ip : Bytes) × (to4 remote_ip ≡ some ip)
        × ((match (p.ip_string ip) rules).1.type ≡ ip_cidr)
        × ((match (p.ip_string ip) rules).0.target ≡ reject)
  unfolding route_by_address
  route_by_address-reject remote_ip rules mode e = elim (Option-cases (to4 remote_ip)) [
    | inl absent ↦ absurd (fall_back-ne-reject mode (rw (absent, route_by_address) at e))
    | inr (ip, found) ↦
        let e' : (address_decision ip rules mode).rule.target ≡ reject =
          rw (found, route_by_address) at e in
        elim (Bool-cases ((match (p.ip_string ip) rules).1.type == ip_cidr)) [
          | inl cidr ↦ (ip, found, (type_eq_iff _ ip_cidr).0 cidr, (rw cidr at e'))
          | inr other ↦ absurd (fall_back-ne-reject mode (rw other at e'))
        ]
  ]

  route_by_rules-reject :
      (sniffed_host : Text) (remote_ip : Bytes) (rules : List Rule) (mode : TunAppRoutingMode)
      → (route_by_rules sniffed_host remote_ip rules mode).rule.target ≡ reject
      → RejectedByRule sniffed_host remote_ip rules
  unfolding route_by_rules
  route_by_rules-reject sniffed_host remote_ip rules mode e =
      let host = normalize_detected_host sniffed_host in
      elim (Bool-cases (host == [])) [
        | inl blank ↦ inr (
          (text_eq_iff host []).0 blank,
          route_by_address-reject remote_ip rules mode (rw blank at e),
        )
        | inr known ↦ inl ((λ k. true≢false ((text_eq_iff host []).1 k) known), (rw known at e))
      ]

  -- A connection of an application is rejected only by a rule with that target: the one that the
  -- engine finds for its host name, or, with no host name known, one of type IP-CIDR that the engine
  -- finds for its IPv4 address. Forced modes and fallbacks never reject.
  pub decide_app_route-reject :
      (sniffed_host : Text) (remote_ip : Bytes) (rules : List Rule) (mode : TunAppRoutingMode)
      → (decide_app_route sniffed_host remote_ip rules mode).rule.target ≡ reject
      → (mode ≢ force_direct) × (mode ≢ force_proxy) × RejectedByRule sniffed_host remote_ip rules
  unfolding decide_app_route
  decide_app_route-reject sniffed_host remote_ip rules rules_proxy_fallback e = (
    ground arith,
    ground arith,
    route_by_rules-reject sniffed_host remote_ip rules rules_proxy_fallback e,
  )
  decide_app_route-reject sniffed_host remote_ip rules rules_direct_fallback e = (
    ground arith,
    ground arith,
    route_by_rules-reject sniffed_host remote_ip rules rules_direct_fallback e,
  )
  decide_app_route-reject sniffed_host remote_ip rules (TunAppRoutingMode.other m) e = (
    ground arith,
    ground arith,
    route_by_rules-reject sniffed_host remote_ip rules (TunAppRoutingMode.other m) e,
  )
  decide_app_route-reject sniffed_host remote_ip rules force_direct e = absurd (direct≢reject e)
  decide_app_route-reject sniffed_host remote_ip rules force_proxy e = absurd (proxy≢reject e)
