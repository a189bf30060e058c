-- ===== src/Tun/Profiles/Laws.antt =====
-- The applications that the service redirects, against those that app.go lists.
use proxy_rule_manager.Common.{
  Bool, true, false, ◌||◌, not, List, [], ◌∷◌, ◌++◌, ◌≡◌, refl, sym, ap, ◌∙◌, Bool-cases, inl, inr,
  append-nil, arith, true≢false,
}
use proxy_rule_manager.Text.{Text, is_empty}
use proxy_rule_manager.Platform.{Platform}
use proxy_rule_manager.Model.{TunAppProfile}
use proxy_rule_manager.Config.Lists.{normalize_string_list}
use proxy_rule_manager.Config.Lists.Laws.{
  fresh, normalize_string_list-fresh, normalize_string_list-IsNormal,
  normalize_string_list_of_IsNormal,
}
use proxy_rule_manager.Config.Lists.Again.{fresh-append, fresh-normalize_append}
use proxy_rule_manager.Tun.Apps.{collect, is_off_or_bypassing, flatten_transparent_queries}
use proxy_rule_manager.Tun.Profiles.{
  resolve, is_passed_over, resolve_each, legacy_profile, resolve_tun_app_profiles, all_queries,
  flatten_resolved_tun_queries,
}

module _ ⦃p : Platform⦄ where
  -- A profile with no query left adds nothing.
  blank-skip :
      (values rest : List Text) (more : List Text)
      → is_empty (normalize_string_list values) ≡ true
      → fresh more (values ++ rest) ≡ fresh more rest
  blank-skip values rest more h =
      sym (fresh-normalize_append values rest more) ∙ nothing (normalize_string_list values) h
    where
      nothing : (l : List Text) → is_empty l ≡ true → fresh more (l ++ rest) ≡ fresh more rest
      nothing [] h = refl
      nothing (x ∷ l) h = absurd (true≢false h refl)

  resolved-passed :
      (profile : TunAppProfile) (profiles : List TunAppProfile)
      → is_passed_over profile ≡ true
      → all_queries (resolve_each (profile ∷ profiles)) ≡ all_queries (resolve_each profiles)
  unfolding resolve_each
  resolved-passed profile profiles h = rw h refl

  resolved-taken :
      (profile : TunAppProfile) (profiles : List TunAppProfile)
      → is_passed_over profile ≡ false
      → all_queries (resolve_each (profile ∷ profiles))
        ≡ normalize_string_list profile.queries ++ all_queries (resolve_each profiles)
  unfolding resolve_each all_queries resolve
  resolved-taken profile profiles h = rw h refl

  or_off : (a b c : Bool) → (b || c) ≡ true → (a || b || c) ≡ true
  or_off a b c h = ground arith

  or_empty : (a b c : Bool) → a ≡ true → (a || b || c) ≡ true
  or_empty a b c h = ground arith

  or_none : (a b c : Bool) → a ≡ false → (b || c) ≡ false → (a || b || c) ≡ false
  or_none a b c h k = ground arith

  resolved-collect :
      (profiles : List TunAppProfile) (more : List Text)
      → fresh more (all_queries (resolve_each profiles))
        ≡ fresh more (collect is_off_or_bypassing profiles)
  unfolding resolve_each all_queries collect
  resolved-collect [] more = refl
  resolved-collect (profile ∷ profiles) more =
      let rest = all_queries (resolve_each profiles) in
      let others = collect is_off_or_bypassing profiles in
      let normal = is_empty (normalize_string_list profile.queries) in
      let off = not profile.enabled in
      let bypass = profile.bypass_transparent_proxy in
      elim (Bool-cases (is_off_or_bypassing profile)) [
        | inl e ↦
            ap (λ l. fresh more l) (resolved-passed profile profiles (or_off normal off bypass e))
            ∙ resolved-collect profiles more
            ∙ rw e refl
        | inr e ↦ elim (Bool-cases normal) [
          | inl g ↦
              ap (λ l. fresh more l)
                (resolved-passed profile profiles (or_empty normal off bypass g))
              ∙ resolved-collect profiles more
              ∙ sym (blank-skip profile.queries others more g)
              ∙ rw e refl
          | inr g ↦
              ap (λ l. fresh more l)
                (resolved-taken profile profiles (or_none normal off bypass g e))
              ∙ fresh-normalize_append profile.queries rest more
              ∙ fresh-append profile.queries rest others (resolved-collect profiles) more
              ∙ rw e refl
        ]
      ]

  all_queries-legacy : (queries : List Text) → all_queries (legacy_profile queries) ≡ queries
  unfolding all_queries legacy_profile
  all_queries-legacy [] = refl
  all_queries-legacy (query ∷ queries) = append-nil (query ∷ queries)

  -- The queries that the redirection matches processes with are the list that app.go computes from
  -- the profiles and the older list of applications, in the same order and spelling: the queries of
  -- the profiles that are on and do not bypass the transparent proxy, or of the older list where
  -- there are no profiles.
  pub flatten_resolved_tun_queries-flatten_transparent_queries :
      (profiles : List TunAppProfile) (included_apps : List Text)
      → flatten_resolved_tun_queries (resolve_tun_app_profiles profiles included_apps)
        ≡ flatten_transparent_queries profiles included_apps
  unfolding flatten_resolved_tun_queries resolve_tun_app_profiles flatten_transparent_queries
  flatten_resolved_tun_queries-flatten_transparent_queries [] included_apps =
      ap normalize_string_list (all_queries-legacy (normalize_string_list included_apps))
      ∙ normalize_string_list_of_IsNormal _ (normalize_string_list-IsNormal included_apps)
  flatten_resolved_tun_queries-flatten_transparent_queries (profile ∷ profiles) included_apps =
      let all = profile ∷ profiles in
      normalize_string_list-fresh (all_queries (resolve_each all))
      ∙ resolved-collect all []
      ∙ sym (normalize_string_list-fresh (collect is_off_or_bypassing all))
