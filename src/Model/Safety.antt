-- ===== src/Model/Safety.antt =====
-- internal/model/tun_profile_safety.go; `UnmarshalJSON` decodes a profile and applies this.
pub mod Laws
use proxy_rule_manager.Common.{
  Bool, true, false, ◌||◌, ◌&&◌, not, List, [], ◌∷◌, ◌++◌, ◌≡◌, ◌⊎◌, if◌then◌else◌, ◌==◌, any, refl,
  arith, Bool-cases, inl, inr,
}
use proxy_rule_manager.Text.{Text, codes, text_beq, trim_space, contains, replace_all}
use proxy_rule_manager.Platform.{Platform, to_lower}
use proxy_rule_manager.Model.{TunAppRoutingMode, rules_direct_fallback, TunAppProfile}

module _ ⦃p : Platform⦄ where
  -- the loop's test of one query
  unfoldable pub is_steam_query : Text → Bool
  is_steam_query raw =
      let query = to_lower (trim_space raw) in
      if query == []
      then false
      else query == codes "steam.exe"
        || query == codes "steamwebhelper.exe"
        || query == codes "steam-library-games:"
        || contains (replace_all b'/' (codes "\\") query) (codes "\\steamapps\\common\\")

  unfoldable pub is_steam_related_tun_profile : TunAppProfile → Bool
  unfolding is_steam_query
  is_steam_related_tun_profile profile =
      contains (to_lower (trim_space profile.name)) (codes "steam")
      || any is_steam_query profile.queries

  abbrev pub direct_if_unset : TunAppRoutingMode → TunAppRoutingMode
  direct_if_unset (TunAppRoutingMode.other s) =
      if s == [] then rules_direct_fallback else TunAppRoutingMode.other s
  direct_if_unset TunAppRoutingMode.rules_proxy_fallback = TunAppRoutingMode.rules_proxy_fallback
  direct_if_unset rules_direct_fallback = rules_direct_fallback
  direct_if_unset TunAppRoutingMode.force_proxy = TunAppRoutingMode.force_proxy
  direct_if_unset TunAppRoutingMode.force_direct = TunAppRoutingMode.force_direct

  unfoldable pub apply_safety_defaults : TunAppProfile → TunAppProfile
  unfolding is_steam_related_tun_profile
  apply_safety_defaults profile =
      if is_steam_related_tun_profile profile
      then record profile {
        bypass_transparent_proxy = true;
        routing_mode = direct_if_unset profile.routing_mode;
      }
      else profile
