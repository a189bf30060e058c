-- ===== src/Tun/Profiles.antt =====
-- internal/tun/service_windows.go: the profiles of applications as the service uses them, from
-- `resolveTunAppProfiles` to `profileForQuery`; `normalizeApps` is `normalize_string_list`.
pub mod Laws
use proxy_rule_manager.Common.{
  Bool, true, false, ◌||◌, not, Option, none, some, List, [], ◌∷◌, ◌++◌, if◌then◌else◌,
}
use proxy_rule_manager.Common.Assoc.{lookup, insert}
use proxy_rule_manager.Text.{Text, codes, text_beq, trim_space, is_empty}
use proxy_rule_manager.Platform.{Platform, to_lower}
use proxy_rule_manager.Config.Lists.{normalize_string_list}
use proxy_rule_manager.Model.{TunAppProfile, TunAppRoutingMode, rules_proxy_fallback}

pub record ResolvedTunAppProfile : Type 0 where
  pub id : Text
  pub name : Text
  pub routing_mode : TunAppRoutingMode
  pub remark : Text
  pub queries : List Text

-- The zero mode of Go is the empty string.
abbrev default_mode : TunAppRoutingMode → TunAppRoutingMode
default_mode (TunAppRoutingMode.other []) = rules_proxy_fallback
default_mode (TunAppRoutingMode.other (c ∷ s)) = TunAppRoutingMode.other (c ∷ s)
default_mode TunAppRoutingMode.rules_proxy_fallback = TunAppRoutingMode.rules_proxy_fallback
default_mode TunAppRoutingMode.rules_direct_fallback = TunAppRoutingMode.rules_direct_fallback
default_mode TunAppRoutingMode.force_proxy = TunAppRoutingMode.force_proxy
default_mode TunAppRoutingMode.force_direct = TunAppRoutingMode.force_direct

module _ ⦃p : Platform⦄ where
  -- The body of the loop over the profiles.
  unfoldable pub resolve : TunAppProfile → ResolvedTunAppProfile
  unfolding normalize_string_list trim_space
  resolve profile = record {
    id = trim_space profile.id;
    name = trim_space profile.name;
    routing_mode = default_mode profile.routing_mode;
    remark = trim_space profile.remark;
    queries = normalize_string_list profile.queries;
  }

  abbrev pub is_passed_over : TunAppProfile → Bool
  is_passed_over profile =
      is_empty (normalize_string_list profile.queries)
      || not profile.enabled
      || profile.bypass_transparent_proxy

  unfoldable pub resolve_each : List TunAppProfile → List ResolvedTunAppProfile
  unfolding resolve
  resolve_each [] = []
  resolve_each (profile ∷ profiles) =
      let rest = resolve_each profiles in
      if is_passed_over profile then rest else resolve profile ∷ rest

  unfoldable pub legacy_profile : List Text → List ResolvedTunAppProfile
  legacy_profile [] = []
  legacy_profile (query ∷ queries) =
      record {
        id = [];
        name = codes "Legacy Applications";
        routing_mode = rules_proxy_fallback;
        remark = [];
        queries = query ∷ queries;
      }
      ∷ []

  unfoldable pub resolve_tun_app_profiles :
      List TunAppProfile → List Text → List ResolvedTunAppProfile
  unfolding resolve_each legacy_profile normalize_string_list
  resolve_tun_app_profiles [] included_apps = legacy_profile (normalize_string_list included_apps)
  resolve_tun_app_profiles (profile ∷ profiles) included_apps = resolve_each (profile ∷ profiles)

  unfoldable pub all_queries : List ResolvedTunAppProfile → List Text
  all_queries [] = []
  all_queries (profile ∷ profiles) = profile.queries ++ all_queries profiles

  unfoldable pub flatten_resolved_tun_queries : List ResolvedTunAppProfile → List Text
  unfolding all_queries normalize_string_list
  flatten_resolved_tun_queries profiles = normalize_string_list (all_queries profiles)

  -- The key of a query.
  abbrev pub query_key : Text → Text
  query_key query = to_lower (trim_space query)

  -- The inner loop of `buildResolvedTunQueryMap`.
  unfoldable pub enter_queries :
      ResolvedTunAppProfile
      → List Text
      → List (Text × ResolvedTunAppProfile)
      → List (Text × ResolvedTunAppProfile)
  unfolding insert
  enter_queries profile [] out = out
  enter_queries profile (query ∷ queries) out =
      enter_queries profile queries (insert (query_key query) profile out)

  unfoldable pub enter_profiles :
      List ResolvedTunAppProfile
      → List (Text × ResolvedTunAppProfile)
      → List (Text × ResolvedTunAppProfile)
  unfolding enter_queries
  enter_profiles [] out = out
  enter_profiles (profile ∷ profiles) out =
      enter_profiles profiles (enter_queries profile profile.queries out)

  unfoldable pub build_resolved_tun_query_map :
      List ResolvedTunAppProfile → List (Text × ResolvedTunAppProfile)
  unfolding enter_profiles
  build_resolved_tun_query_map profiles = enter_profiles profiles []

  unfoldable pub profile_for_query :
      List (Text × ResolvedTunAppProfile) → Text → ResolvedTunAppProfile
  unfolding lookup
  profile_for_query query_map query = elim (lookup (query_key query) query_map) [
    | some profile ↦ profile
    | none ↦ record {
      id = [];
      name = query;
      routing_mode = rules_proxy_fallback;
      remark = [];
      queries = query ∷ [];
    }
  ]
