-- ===== src/Config/Lists.antt =====
-- `normalizeStringList`, which internal/config, app.go (`normalizeQueryList`), internal/tun
-- (`normalizeApps`) and internal/appmonitor (`normalizeQueries`) each write out.
pub mod Laws
pub mod Again
use proxy_rule_manager.Common.{
  Bool, true, false, ◌||◌, List, [], ◌∷◌, ◌++◌, if◌then◌else◌, ◌==◌, any,
}
use proxy_rule_manager.Text.{Text, text_beq, trim_space}
use proxy_rule_manager.Platform.{Platform, to_lower}

module _ ⦃p : Platform⦄ where
  -- the loop, with the keys of the map `seen` and the list `out` built so far
  unfoldable pub normalize_from : List Text → List Text → List Text → List Text
  normalize_from seen out [] = out
  normalize_from seen out (value ∷ values) =
      let trimmed = trim_space value in
      let key = to_lower trimmed in
      let skipped = normalize_from seen out values in
      let kept = normalize_from (key ∷ seen) (out ++ trimmed ∷ []) values in
      if trimmed == [] || any (λ k. k == key) seen then skipped else kept

  unfoldable pub normalize_string_list : List Text → List Text
  unfolding normalize_from
  normalize_string_list values = normalize_from [] [] values
