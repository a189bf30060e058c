-- ===== src/Procmatch.antt =====
-- internal/procmatch/match.go
pub mod Laws
use proxy_rule_manager.Common.{
  Bool, true, false, ◌||◌, ◌&&◌, not, Option, none, some, List, [], ◌∷◌, ◌++◌, if◌then◌else◌, ◌==◌,
  any, ℕ, nat_eq, map, drop, length,
}
use proxy_rule_manager.Text.{
  Text, codes, text_beq, trim_space, trim_right, contains, has_prefix, has_suffix, replace_all,
  is_empty,
}
use proxy_rule_manager.Platform.{Platform, to_lower}

abbrev pub is_backslash : ℕ → Bool
is_backslash c = nat_eq c b'\\'

-- the last part of strings.Split(value, `\`): what follows the last backslash
unfoldable pub base_name : Text → Text
base_name [] = []
base_name (c ∷ s) = let rest = base_name s in if any is_backslash (c ∷ s) then rest else c ∷ s

unfoldable pub is_path_like_query : Text → Bool
is_path_like_query query =
    contains query (codes "\\") || contains query (codes "/") || contains query (codes ":")

unfoldable pub normalize_wildcard_path : Text → Text
normalize_wildcard_path value = replace_all b'\\' (codes "/") value

module _ ⦃p : Platform⦄ where
  unfoldable pub normalize_process_path : Text → Text
  normalize_process_path value = replace_all b'/' (codes "\\") (to_lower (trim_space value))

  unfoldable pub matches_path_prefix : Text → Text → Bool
  unfolding normalize_process_path
  matches_path_prefix path prefix =
      let trimmed = trim_right is_backslash (normalize_process_path prefix) in
      not (path == [])
      && not (trimmed == [])
      && (path == trimmed || has_prefix path (trimmed ++ codes "\\"))

  unfoldable pub matches_process_pattern : Text → Text → Text → Bool
  unfolding normalize_process_path normalize_wildcard_path base_name
  matches_process_pattern pattern name proc_path =
      let normal = normalize_process_path pattern in
      let match_pattern = normalize_wildcard_path normal in
      p.path_match match_pattern name
      || (not (proc_path == [])
          && (p.path_match match_pattern (normalize_wildcard_path proc_path)
              || p.path_match (base_name normal) name))

  -- the case of the switch for a query with a path separator or a colon
  unfoldable pub matches_path_query : Text → Text → Text → Bool
  unfolding normalize_process_path base_name
  matches_path_query query name path =
      let normalized = normalize_process_path query in
      (not (path == []) && (path == normalized || has_suffix path normalized))
      || has_suffix name (base_name normalized)

  -- the switch of `MatchProcess` on a query that is trimmed and in lower case
  unfoldable pub matches_query : Text → Text → Text → Bool
  unfolding matches_path_prefix matches_process_pattern matches_path_query is_path_like_query
  matches_query query name path =
      if query == codes "steam-library-games:"
      then contains path (codes "\\steamapps\\common\\")
      else if has_prefix query (codes "path-prefix:")
      then matches_path_prefix path (trim_space (drop (length (codes "path-prefix:")) query))
      else if any (λ c. nat_eq c b'*' || nat_eq c b'?') query
      then matches_process_pattern query name path
      else if is_path_like_query query
      then matches_path_query query name path
      else name == query

  -- the loop; `none` where the Go function returns false
  unfoldable pub match_first_query : Text → Text → List Text → Option Text
  unfolding matches_query
  match_first_query name path [] = none
  match_first_query name path (raw ∷ queries) =
      let query = to_lower (trim_space raw) in
      let rest = match_first_query name path queries in
      if query == [] then rest else if matches_query query name path then some raw else rest

  unfoldable pub match_process : Text → Text → List Text → Option Text
  unfolding match_first_query normalize_process_path
  match_process process_name process_path queries =
      match_first_query (to_lower (trim_space process_name)) (normalize_process_path process_path)
        queries
