-- ===== src/Config/Profiles/Growth.antt =====
-- The identifiers that the migration of the profiles takes.
use proxy_rule_manager.Common.{ℕ, ◌≤◌, Bool, true, false, ◌||◌, List, [], ◌∷◌, if◌then◌else◌, arith}
use proxy_rule_manager.Text.{Text, text_beq, trim_space, is_empty}
use proxy_rule_manager.Platform.{Platform}
use proxy_rule_manager.Ids.{Ids}
use proxy_rule_manager.Model.{TunAppProfile}
use proxy_rule_manager.Config.Lists.{normalize_string_list}
use proxy_rule_manager.Config.Profiles.{
  named, identified, normalize_profile, normalize_tun_app_profiles, default_tun_app_profiles,
  is_legacy_tun_included_apps, partition_apps, default_tun_included_apps, steam_tun_included_apps,
  try_extract, extract_codex, extract_steam, leftover, migrate_apps, migrate_tun_app_profiles,
}

-- Code that takes identifiers gives none back.
abbrev Grows : {A : Type 0} → Ids A → Type 0
Grows m = (n : ℕ) → n ≤ (m n).1

le_trans : (a b c : ℕ) → a ≤ b → b ≤ c → a ≤ c
le_trans a b c h k = omega (arith, h, k)

either-le :
    {A : Type 0} (b : Bool) (x y : A × ℕ) (n : ℕ) → n ≤ x.1 → n ≤ y.1 → n ≤ (if b then x else y).1
either-le true x y n h k = h
either-le false x y n h k = k

module _ ⦃p : Platform⦄ where
  named-Grows : (name : Text) → Grows (named name)
  named-Grows name n = ground arith

  identified-Grows : (id : Text) → Grows (identified id)
  identified-Grows id n = ground arith

  normalize_profile-Grows : (value : TunAppProfile) → Grows (normalize_profile value)
  unfolding normalize_profile
  normalize_profile-Grows value n =
      le_trans _ _ _ (named-Grows (trim_space value.name) n)
        (identified-Grows value.id (named (trim_space value.name) n).1)

  normalize_tun_app_profiles-Grows :
      (values : List TunAppProfile) → Grows (normalize_tun_app_profiles values)
  unfolding normalize_tun_app_profiles
  normalize_tun_app_profiles-Grows [] n = omega arith
  normalize_tun_app_profiles-Grows (value ∷ values) n =
      le_trans _ _ _ (normalize_profile-Grows value n)
        (normalize_tun_app_profiles-Grows values (normalize_profile value n).1)

  extract_codex-Grows : (apps : List Text) → Grows (extract_codex apps)
  unfolding try_extract
  extract_codex-Grows apps n =
      either-le (is_empty (partition_apps default_tun_included_apps apps).0) _ _ n (omega arith)
        (omega arith)

  extract_steam-Grows : (found : List Text × List TunAppProfile) → Grows (extract_steam found)
  unfolding try_extract
  extract_steam-Grows (remaining, result) n =
      either-le (is_empty (partition_apps steam_tun_included_apps remaining).0) _ _ n (omega arith)
        (omega arith)

  leftover-Grows : (s : List Text × List TunAppProfile) → Grows (leftover s)
  leftover-Grows ([], result) n = omega arith
  leftover-Grows ((item ∷ items), result) n = omega arith

  default_tun_app_profiles-Grows : Grows default_tun_app_profiles
  unfolding default_tun_app_profiles
  default_tun_app_profiles-Grows n = omega arith

  migrate_apps-Grows : (apps : List Text) → Grows (migrate_apps apps)
  unfolding migrate_apps
  migrate_apps-Grows apps n =
      let (codex, a) = extract_codex apps n in
      let (steam, b) = extract_steam codex a in
      let (result, c) = leftover steam b in
      let first : n ≤ a = extract_codex-Grows apps n in
      let second : a ≤ b = extract_steam-Grows codex a in
      let third : b ≤ c = leftover-Grows steam b in
      let last = normalize_tun_app_profiles-Grows result c in
      either-le (is_empty apps || is_legacy_tun_included_apps apps) _ _ n
        (default_tun_app_profiles-Grows n)
        (le_trans n a _ first (le_trans a b _ second (le_trans b c _ third last)))

  pub migrate_tun_app_profiles-Grows :
      (profiles : List TunAppProfile) (apps : List Text)
      → Grows (migrate_tun_app_profiles profiles apps)
  unfolding migrate_tun_app_profiles
  migrate_tun_app_profiles-Grows profiles apps n =
      let h = normalize_tun_app_profiles-Grows profiles n in
      either-le (is_empty (normalize_tun_app_profiles profiles n).0) _ _ n
        (le_trans _ _ _ h (migrate_apps-Grows (normalize_string_list apps) _)) h
