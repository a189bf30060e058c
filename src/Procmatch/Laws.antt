-- ===== src/Procmatch/Laws.antt =====
-- Which query answers for a process, and what the path queries accept.
use mathlib.Core.Bool.{false≢true}
use proxy_rule_manager.Common.{
  Bool, true, false, ◌||◌, Option, none, some, List, [], ◌∷◌, ◌++◌, ◌==◌, any, nat_eq, arith, refl,
  ◌≡◌, ◌≢◌, inl, inr, Bool-cases, All, true≢false,
}
use proxy_rule_manager.Text.{
  Text, codes, text_beq, trim_space, contains, has_prefix, text_eq_iff, text_eq,
}
use proxy_rule_manager.Text.Laws.{has_suffix-nil}
use proxy_rule_manager.Platform.{Platform, to_lower}
use proxy_rule_manager.Procmatch.{
  is_backslash, base_name, normalize_process_path, matches_path_query, matches_query,
  match_first_query, match_process, is_path_like_query,
}

any_backslash_last : (s : Text) → any is_backslash (s ++ b'\\' ∷ []) ≡ true
any_backslash_last [] = refl
any_backslash_last (c ∷ s) = ground (arith, any_backslash_last s)

base_name_trailing : (s : Text) → base_name (s ++ b'\\' ∷ []) ≡ []
unfolding base_name
base_name_trailing [] = refl
base_name_trailing (c ∷ s) = ground (arith, any_backslash_last s, base_name_trailing s)

or_true : (b : Bool) → (b || true) ≡ true
or_true b = ground arith

path_like-nonempty : (query : Text) → is_path_like_query query ≡ true → (query == []) ≡ false
unfolding is_path_like_query contains has_prefix text_eq
path_like-nonempty [] h = absurd (false≢true h)
path_like-nonempty (c ∷ query) h = refl

module _ ⦃p : Platform⦄ where
  -- A query accepts a process, by name and path as they are normalised.
  abbrev pub Accepts : Text → Text → Text → Type 0
  Accepts name path raw =
      (to_lower (trim_space raw) ≢ [])
      × (matches_query (to_lower (trim_space raw)) name path ≡ true)

  -- `raw` stands in the list and accepts, and no query before it does.
  pub data FirstQuery (name path : Text) : List Text → Text → Type 0 where
    hit :
        {raw : Text} {queries : List Text}
        → Accepts name path raw
        → FirstQuery name path (raw ∷ queries) raw
    skip :
        {q raw : Text} {queries : List Text}
        → ¬ Accepts name path q
        → FirstQuery name path queries raw
        → FirstQuery name path (q ∷ queries) raw

  abbrev pub Answer : Text → Text → List Text → Option Text → Type 0
  Answer name path queries none = All (λ q. ¬ Accepts name path q) queries
  Answer name path queries (some raw) = FirstQuery name path queries raw

  match_first_query-Answer :
      (name path : Text) (queries : List Text)
      → Answer name path queries (match_first_query name path queries)
  unfolding match_first_query
  match_first_query-Answer name path [] = tt
  match_first_query-Answer name path (q ∷ queries) =
      elim (Bool-cases (to_lower (trim_space q) == [])) [
        | inl blank ↦ rw blank (
            skipped (match_first_query name path queries)
              (λ a. a.0 ((text_eq_iff (to_lower (trim_space q)) []).0 blank))
              (match_first_query-Answer name path queries))
        | inr full ↦ elim (Bool-cases (matches_query (to_lower (trim_space q)) name path)) [
          | inl e ↦
              rw (full, e)
                (hit ((λ k. true≢false ((text_eq_iff (to_lower (trim_space q)) []).1 k) full), e))
          | inr e ↦
              rw (full, e)
                (skipped (match_first_query name path queries) (λ a. true≢false a.1 e)
                  (match_first_query-Answer name path queries))
        ]
      ]
    where
      skipped :
          (o : Option Text)
          → ¬ Accepts name path q
          → Answer name path queries o
          → Answer name path (q ∷ queries) o
      skipped none off h = (off, h)
      skipped (some raw) off h = skip off h

  -- MatchProcess answers with the first query of the list that accepts the process, and with none
  -- exactly where no query does.
  pub match_process-Answer :
      (process_name process_path : Text) (queries : List Text)
      → Answer
          (to_lower (trim_space process_name))
          (normalize_process_path process_path)
          queries
          (match_process process_name process_path queries)
  unfolding match_process
  match_process-Answer process_name process_path queries =
      match_first_query-Answer (to_lower (trim_space process_name))
        (normalize_process_path process_path) queries

  matches_path_query_trailing :
      (query stem name path : Text)
      → normalize_process_path query ≡ stem ++ b'\\' ∷ []
      → matches_path_query query name path ≡ true
  unfolding matches_path_query
  matches_path_query_trailing query stem name path e =
      rw (e, matches_path_query)
        (rw (base_name_trailing stem) (rw (has_suffix-nil name) (or_true _)))

  matches_query_trailing :
      (query stem name path : Text)
      → (query == codes "steam-library-games:") ≡ false
      → has_prefix query (codes "path-prefix:") ≡ false
      → any (λ c. nat_eq c b'*' || nat_eq c b'?') query ≡ false
      → is_path_like_query query ≡ true
      → normalize_process_path query ≡ stem ++ b'\\' ∷ []
      → matches_query query name path ≡ true
  unfolding matches_query
  matches_query_trailing query stem name path a b c d e =
      rw a (rw b (rw c (rw d (matches_path_query_trailing query stem name path e))))

  -- A path query that ends in a backslash once it is normalised, and has no wildcard, accepts every
  -- process: it answers for any name and path that no earlier query accepts.
  pub match_process_trailing :
      (process_name process_path raw query stem : Text) (queries : List Text)
      → query ≡ to_lower (trim_space raw)
      → (query == codes "steam-library-games:") ≡ false
      → has_prefix query (codes "path-prefix:") ≡ false
      → any (λ c. nat_eq c b'*' || nat_eq c b'?') query ≡ false
      → is_path_like_query query ≡ true
      → normalize_process_path query ≡ stem ++ b'\\' ∷ []
      → match_process process_name process_path (raw ∷ queries) ≡ some raw
  unfolding match_process match_first_query
  match_process_trailing process_name process_path raw query stem queries q a b c d e =
      let name = to_lower (trim_space process_name) in
      let path = normalize_process_path process_path in
      rw (← q) (
        rw (path_like-nonempty query d)
          (rw (matches_query_trailing query stem name path a b c d e)))
