-- ===== src/Tun/Apps.antt =====
-- app.go: the queries of the profiles, all of them for the monitor of connections, and without those
-- that bypass the transparent proxy for the redirection.
use proxy_rule_manager.Common.{
  Bool, true, false, ◌||◌, not, List, [], ◌∷◌, ◌++◌, if◌then◌else◌, All, All-append,
  All-append_left, All-append_right,
}
use proxy_rule_manager.Text.{Text, text_beq}
use proxy_rule_manager.Platform.{Platform}
use proxy_rule_manager.Model.{TunAppProfile}
use proxy_rule_manager.Config.Lists.{normalize_string_list}
use proxy_rule_manager.Config.Lists.Laws.{
  IsRepresented, normalize_string_list-IsRepresented, normalize_string_list-All,
}

-- The loop of both functions, with its test for a profile that is left out.
unfoldable pub collect : (TunAppProfile → Bool) → List TunAppProfile → List Text
collect skipped [] = []
collect skipped (profile ∷ profiles) =
    let rest = collect skipped profiles in if skipped profile then rest else profile.queries ++ rest

abbrev pub is_off : TunAppProfile → Bool
is_off profile = not profile.enabled

abbrev pub is_off_or_bypassing : TunAppProfile → Bool
is_off_or_bypassing profile = not profile.enabled || profile.bypass_transparent_proxy

pick-All :
    (P : Text → Type 0) (e b : Bool) (q full part : List Text)
    → (All P full → All P part)
    → All P (if not e then full else q ++ full)
    → All P (if not e || b then part else q ++ part)
pick-All P false b q full part f h = f h
pick-All P true true q full part f h = f (All-append_right P q full h)
pick-All P true false q full part f h =
    All-append P q part (All-append_left P q full h) (f (All-append_right P q full h))

collect-All :
    (P : Text → Type 0) (profiles : List TunAppProfile)
    → All P (collect is_off profiles)
    → All P (collect is_off_or_bypassing profiles)
unfolding collect
collect-All P [] h = tt
collect-All P (profile ∷ profiles) h =
    pick-All P profile.enabled profile.bypass_transparent_proxy profile.queries
      (collect is_off profiles) (collect is_off_or_bypassing profiles) (collect-All P profiles) h

module _ ⦃p : Platform⦄ where
  unfoldable pub flatten_queries : List TunAppProfile → List Text → List Text
  unfolding collect normalize_string_list
  flatten_queries [] legacy = normalize_string_list legacy
  flatten_queries (profile ∷ profiles) legacy =
      normalize_string_list (collect is_off (profile ∷ profiles))

  unfoldable pub flatten_transparent_queries : List TunAppProfile → List Text → List Text
  unfolding collect normalize_string_list
  flatten_transparent_queries [] legacy = normalize_string_list legacy
  flatten_transparent_queries (profile ∷ profiles) legacy =
      normalize_string_list (collect is_off_or_bypassing (profile ∷ profiles))

  -- Every query of the list that the redirection takes stands in the monitor's list too, up to case,
  -- whatever the profiles, and where there are none, whatever the older list of applications.
  pub flatten_queries-IsRepresented :
      (profiles : List TunAppProfile) (legacy : List Text)
      → All
          (IsRepresented [] (flatten_queries profiles legacy))
          (flatten_transparent_queries profiles legacy)
  unfolding flatten_queries flatten_transparent_queries
  flatten_queries-IsRepresented [] legacy =
      normalize_string_list-All (normalize_string_list legacy) legacy
        (normalize_string_list-IsRepresented legacy)
  flatten_queries-IsRepresented (profile ∷ profiles) legacy =
      let full = normalize_string_list (collect is_off (profile ∷ profiles)) in
      normalize_string_list-All full (collect is_off_or_bypassing (profile ∷ profiles)) (
        collect-All (IsRepresented [] full) (profile ∷ profiles)
          (normalize_string_list-IsRepresented (collect is_off (profile ∷ profiles))))
