-- ===== src/Config/Profiles.antt =====
-- The application profiles of the store: defaults, normalisation, and the migration of the old
-- list of applications.
pub mod Growth
use proxy_rule_manager.Common.{
  Bool, true, false, not, ◌&&◌, ◌||◌, List, [], ◌∷◌, ◌++◌, if◌then◌else◌, ◌==◌, any, take,
}
use proxy_rule_manager.Text.{Text, codes, text_beq, trim_space, is_empty}
use proxy_rule_manager.Platform.{Platform, equal_fold}
use proxy_rule_manager.Ids.{Ids, pure, ◌>>=◌, new_id}
use proxy_rule_manager.Model.{
  TunAppRoutingMode, rules_proxy_fallback, rules_direct_fallback, force_proxy, force_direct,
  TunAppProfile,
}
use proxy_rule_manager.Config.Lists.{normalize_string_list}

abbrev pub default_tun_included_apps : List Text
default_tun_included_apps =
    codes "Codex.exe" ∷ codes "codex.exe" ∷ codes "codex-command-runner-*.exe" ∷ []

abbrev pub steam_tun_included_apps : List Text
steam_tun_included_apps = codes "steam.exe" ∷ codes "steamwebhelper.exe" ∷ []

-- The zero value and the default case of the switch both give the proxy fallback.
abbrev pub known_mode : TunAppRoutingMode → TunAppRoutingMode
known_mode (TunAppRoutingMode.other _) = rules_proxy_fallback
known_mode rules_proxy_fallback = rules_proxy_fallback
known_mode rules_direct_fallback = rules_direct_fallback
known_mode force_proxy = force_proxy
known_mode force_direct = force_direct

module _ ⦃p : Platform⦄ where
  unfoldable pub default_tun_app_profiles : Ids (List TunAppProfile)
  default_tun_app_profiles = do
    id ← new_id
    pure (
        record {
          id = id;
          name = codes "Codex Desktop";
          enabled = true;
          queries = default_tun_included_apps;
          routing_mode = force_proxy;
          bypass_transparent_proxy = false;
          remark = codes "覆盖 Codex 桌面主进程、CLI 与命令执行子进程；默认全部走代理。";
        }
        ∷ [])

  abbrev pub named : Text → Ids Text
  named name n =
      if name == []
      then (codes "应用 " ++ trim_space (take 8 (new_id n).0), (new_id n).1)
      else (name, n)

  abbrev pub identified : Text → Ids Text
  identified id n = if id == [] then new_id n else (id, n)

  -- the body of the loop of `normalizeTunAppProfiles` up to the tests that drop a profile
  unfoldable pub normalize_profile : TunAppProfile → Ids TunAppProfile
  normalize_profile value = do
    name ← named (trim_space value.name)
    id ← identified value.id
    pure (record value {
      id = id;
      name = name;
      queries = normalize_string_list value.queries;
      routing_mode = known_mode value.routing_mode;
      remark = trim_space value.remark;
    })

  abbrev pub without_idle : TunAppProfile → TunAppProfile
  without_idle value = record value { enabled = value.enabled && not (is_empty value.queries) }

  unfoldable pub normalize_tun_app_profiles : List TunAppProfile → Ids (List TunAppProfile)
  unfolding normalize_profile
  normalize_tun_app_profiles [] = pure []
  normalize_tun_app_profiles (value ∷ values) = do
    normal ← normalize_profile value
    rest ← normalize_tun_app_profiles values
    pure
        (if not normal.enabled && is_empty normal.queries then rest else without_idle normal ∷ rest)

  unfoldable pub enabled_queries : List TunAppProfile → List Text
  enabled_queries [] = []
  enabled_queries (value ∷ values) =
      let rest = enabled_queries values in if value.enabled then value.queries ++ rest else rest

  unfoldable pub flatten_tun_app_profiles : List TunAppProfile → List Text
  unfolding enabled_queries normalize_string_list
  flatten_tun_app_profiles values = normalize_string_list (enabled_queries values)

  abbrev is_codex : List Text → Bool
  is_codex (only ∷ []) = equal_fold only (codes "Codex.exe")
  is_codex [] = false
  is_codex (_ ∷ (_ ∷ _)) = false

  unfoldable pub is_legacy_tun_included_apps : List Text → Bool
  unfolding normalize_string_list
  is_legacy_tun_included_apps values = is_codex (normalize_string_list values)

  -- the loop of `tryExtract`: the items that are candidates, and the others
  unfoldable pub partition_apps : List Text → List Text → List Text × List Text
  partition_apps candidates [] = ([], [])
  partition_apps candidates (item ∷ items) =
      let (matched, others) = partition_apps candidates items in
      if any (λ candidate. equal_fold item candidate) candidates
      then (item ∷ matched, others)
      else (matched, item ∷ others)

  -- `tryExtract` on the variables `remaining` and `result`
  unfoldable pub try_extract :
      Text
      → TunAppRoutingMode
      → Text
      → List Text
      → List Text × List TunAppProfile
      → Ids (List Text × List TunAppProfile)
  unfolding partition_apps
  try_extract name routing_mode remark candidates (remaining, result) n =
      let (matched, others) = partition_apps candidates remaining in
      if is_empty matched then ((remaining, result), n) else (
        (
          others,
          result
              ++ record {
                id = (new_id n).0;
                name = name;
                enabled = true;
                queries = matched;
                routing_mode = routing_mode;
                bypass_transparent_proxy = equal_fold name (codes "Steam Desktop");
                remark = remark;
              }
                ∷ [],
        ),
        (new_id n).1,
      )

  -- the two calls of `tryExtract`
  abbrev pub extract_codex : List Text → Ids (List Text × List TunAppProfile)
  extract_codex apps =
      try_extract (codes "Codex Desktop") force_proxy (codes "从旧版本应用名单迁移；默认全部走代理。")
        default_tun_included_apps (apps, [])

  abbrev pub extract_steam : List Text × List TunAppProfile → Ids (List Text × List TunAppProfile)
  extract_steam found =
      try_extract (codes "Steam Desktop") rules_direct_fallback
        (codes "从旧版本应用名单迁移；商店/社区优先按规则走代理，其它未识别连接默认直连。") steam_tun_included_apps found

  abbrev pub leftover : List Text × List TunAppProfile → Ids (List TunAppProfile)
  leftover ([], result) = pure result
  leftover ((item ∷ items), result) = do
    id ← new_id
    pure (
        result
        ++ record {
          id = id;
          name = codes "迁移的应用";
          enabled = true;
          queries = item ∷ items;
          routing_mode = rules_proxy_fallback;
          bypass_transparent_proxy = false;
          remark = codes "从旧版本透明接管应用名单自动迁移。";
        }
          ∷ [])

  -- the part of `migrateTunAppProfiles` that reads the old list
  unfoldable pub migrate_apps : List Text → Ids (List TunAppProfile)
  unfolding try_extract is_legacy_tun_included_apps default_tun_app_profiles
      normalize_tun_app_profiles
  migrate_apps apps n =
      if is_empty apps || is_legacy_tun_included_apps apps
      then default_tun_app_profiles n
      else (do
        codex ← extract_codex apps
        steam ← extract_steam codex
        result ← leftover steam
        normalize_tun_app_profiles result)
          n

  unfoldable pub migrate_tun_app_profiles :
      List TunAppProfile → List Text → Ids (List TunAppProfile)
  unfolding normalize_tun_app_profiles migrate_apps
  migrate_tun_app_profiles profiles included_apps n =
      let (normalized, n') = normalize_tun_app_profiles profiles n in
      if is_empty normalized
      then migrate_apps (normalize_string_list included_apps) n'
      else (normalized, n')
