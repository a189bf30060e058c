-- ===== src/Model/Safety/Laws.antt =====
-- What `ApplySafetyDefaults` promises of a profile.
use proxy_rule_manager.Common.{
  true, List, ◌∷◌, any, In, here, there, subst, ◌≡◌, ◌≢◌, refl, sym, ap, arith, true≢false,
  Bool-cases, inl, inr, ◌==◌, ==-ne, [],
}
use proxy_rule_manager.Text.{Text, codes, text_beq, trim_space, contains}
use proxy_rule_manager.Platform.{Platform, to_lower}
use proxy_rule_manager.Model.{TunAppRoutingMode, rules_direct_fallback, TunAppProfile}
use proxy_rule_manager.Model.Safety.{
  is_steam_query, is_steam_related_tun_profile, direct_if_unset, apply_safety_defaults,
}

module _ ⦃p : Platform⦄ where
  direct_if_unset-set :
      (mode : TunAppRoutingMode) → direct_if_unset mode ≢ TunAppRoutingMode.other []
  direct_if_unset-set (TunAppRoutingMode.other s) e = elim (Bool-cases (s == [])) [
    | inl blank ↦
        let same : rules_direct_fallback ≡ TunAppRoutingMode.other [] = rw blank at e in
        ground (arith, same)
    | inr full ↦
        let same : TunAppRoutingMode.other s ≡ TunAppRoutingMode.other [] = rw full at e in
        true≢false ((text_beq.same_iff s []).1 (ground (arith, same))) full
  ]
  direct_if_unset-set rules_direct_fallback e = ground (arith, e)
  direct_if_unset-set TunAppRoutingMode.rules_proxy_fallback e = ground (arith, e)
  direct_if_unset-set TunAppRoutingMode.force_proxy e = ground (arith, e)
  direct_if_unset-set TunAppRoutingMode.force_direct e = ground (arith, e)

  direct_if_unset_of_set :
      (mode : TunAppRoutingMode) → mode ≢ TunAppRoutingMode.other [] → direct_if_unset mode ≡ mode
  direct_if_unset_of_set (TunAppRoutingMode.other s) h =
      rw (==-ne s [] (λ e. h (ap TunAppRoutingMode.other e))) refl
  direct_if_unset_of_set rules_direct_fallback h = refl
  direct_if_unset_of_set TunAppRoutingMode.rules_proxy_fallback h = refl
  direct_if_unset_of_set TunAppRoutingMode.force_proxy h = refl
  direct_if_unset_of_set TunAppRoutingMode.force_direct h = refl

  -- The profile has Steam in its name or one of its queries is one of Steam.
  pub data IsSteam (profile : TunAppProfile) : Type 0 where
    by_name :
        (contains (to_lower (trim_space profile.name)) (codes "steam") ≡ true) → IsSteam profile
    by_query :
        (query : Text) → In query profile.queries → (is_steam_query query ≡ true) → IsSteam profile

  any-In :
      (queries : List Text)
      → any is_steam_query queries ≡ true
      → (query : Text) × In query queries × (is_steam_query query ≡ true)
  any-In [] h = absurd (true≢false h refl)
  any-In (query ∷ queries) h = elim (Bool-cases (is_steam_query query)) [
    | inl e ↦ (query, here refl, e)
    | inr e ↦ let (found, i, k) = any-In queries (ground (arith, h, e)) in (found, there i, k)
  ]

  related-IsSteam :
      (profile : TunAppProfile) → is_steam_related_tun_profile profile ≡ true → IsSteam profile
  unfolding is_steam_related_tun_profile
  related-IsSteam profile h =
      elim (Bool-cases (contains (to_lower (trim_space profile.name)) (codes "steam"))) [
        | inl e ↦ by_name e
        | inr e ↦ let (query, i, k) = any-In profile.queries (rw e at h) in by_query query i k
      ]

  In-any :
      (query : Text) (queries : List Text)
      → In query queries
      → is_steam_query query ≡ true
      → any is_steam_query queries ≡ true
  In-any query [] i h = elim i [ ]
  In-any query (q ∷ queries) (here e) h =
      let k : is_steam_query q ≡ true = subst (λ x. is_steam_query x ≡ true) (sym e) h in
      ground (arith, k)
  In-any query (q ∷ queries) (there i) h = let k = In-any query queries i h in ground (arith, k)

  IsSteam-related :
      (profile : TunAppProfile) → IsSteam profile → is_steam_related_tun_profile profile ≡ true
  unfolding is_steam_related_tun_profile
  IsSteam-related profile (by_name h) = ground (arith, h)
  IsSteam-related profile (by_query query i h) =
      let k = In-any query profile.queries i h in ground (arith, k)

  -- What the defaults make of a profile: a profile of Steam bypasses the transparent proxy and has a
  -- routing mode, its own where it had one, and keeps the rest; any other profile is as it was.
  pub data IsDefaulted (profile : TunAppProfile) : TunAppProfile → Type 0 where
    steam :
        IsSteam profile
        → (mode : TunAppRoutingMode) → (mode ≢ TunAppRoutingMode.other [])
        → ((profile.routing_mode ≢ TunAppRoutingMode.other []) → mode ≡ profile.routing_mode)
        → IsDefaulted profile
            (record profile { bypass_transparent_proxy = true; routing_mode = mode })
    not_steam : (¬ IsSteam profile) → IsDefaulted profile profile

  apply_safety_defaults_twice :
      (profile : TunAppProfile)
      → apply_safety_defaults (apply_safety_defaults profile) ≡ apply_safety_defaults profile
  unfolding apply_safety_defaults is_steam_related_tun_profile
  apply_safety_defaults_twice profile = elim (Bool-cases (is_steam_related_tun_profile profile)) [
    | inl e ↦ rw e (
        rw e (
          ap (λ m. record profile { bypass_transparent_proxy = true; routing_mode = m })
            (direct_if_unset_of_set (direct_if_unset profile.routing_mode)
              (direct_if_unset-set profile.routing_mode))))
    | inr e ↦ rw e (rw e refl)
  ]

  -- Whatever profile is decoded: if Steam is in its name or one of its queries is one of Steam, the
  -- result bypasses the transparent proxy and has a routing mode, that of the profile where it had one,
  -- and its name, queries and other fields are those of the profile; otherwise the result is the
  -- profile. Applying the defaults again changes nothing.
  pub apply_safety_defaults-IsDefaulted :
      (profile : TunAppProfile)
      → IsDefaulted profile (apply_safety_defaults profile)
        × (apply_safety_defaults (apply_safety_defaults profile) ≡ apply_safety_defaults profile)
  unfolding apply_safety_defaults
  apply_safety_defaults-IsDefaulted profile = (
    elim (Bool-cases (is_steam_related_tun_profile profile)) [
      | inl e ↦ rw e (
          steam (related-IsSteam profile e) (direct_if_unset profile.routing_mode)
            (direct_if_unset-set profile.routing_mode)
            (direct_if_unset_of_set profile.routing_mode))
      | inr e ↦ rw e (not_steam (λ s. true≢false (IsSteam-related profile s) e))
    ],
    apply_safety_defaults_twice profile,
  )
