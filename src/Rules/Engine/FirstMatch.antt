-- ===== src/Rules/Engine/FirstMatch.antt =====
-- Engine.Match against the relation of the first rule that applies.
use proxy_rule_manager.Common.{
  ℕ, zero, suc, ◌+◌, ◌≡◌, Bool, true, false, ◌&&◌, none, some, List, [], ◌∷◌, ◌++◌, arith, refl,
  ◌⊎◌, inl, inr, Bool-cases, All, length,
}
use proxy_rule_manager.Text.{Text}
use proxy_rule_manager.Platform.{Platform}
use proxy_rule_manager.Model.{Rule}
use proxy_rule_manager.Rules.Engine.{
  normalize_host, match_rule, matched_at, match_from, fallback, fallback_matched, match,
}

module _ ⦃p : Platform⦄ where
  -- The rule is switched on and its pattern matches the host.
  abbrev pub Applies : Text → Rule → Type 0
  Applies host rule = (rule.enabled ≡ true) × (match_rule host rule ≡ true)

  -- `rule` stands at position `n` and applies, and none before it does.
  pub data FirstMatch (host : Text) : List Rule → ℕ → Rule → Type 0 where
    hit : {r : Rule} {rules : List Rule} → Applies host r → FirstMatch host (r ∷ rules) zero r
    skip :
        {q r : Rule} {rules : List Rule} {n : ℕ}
        → ¬ Applies host q
        → FirstMatch host rules n r
        → FirstMatch host (q ∷ rules) (suc n) r

  abbrev FromSpec : Text → ℕ → List Rule → Type 0
  FromSpec host idx rules =
      ((n : ℕ) × (r : Rule) × FirstMatch host rules n r
        × (match_from host idx rules ≡ some (r, matched_at (idx + n) r)))
      ⊎ (All (λ r. ¬ Applies host r) rules × (match_from host idx rules ≡ none))

  match_from-hit :
      (host : Text) (idx : ℕ) (q : Rule) (rules : List Rule)
      → (q.enabled && match_rule host q) ≡ true
      → match_from host idx (q ∷ rules) ≡ some (q, matched_at (idx + 0) q)
  unfolding match_from
  match_from-hit host idx q rules e = ground (arith, e)

  match_from-skip :
      (host : Text) (idx : ℕ) (q : Rule) (rules : List Rule)
      → (q.enabled && match_rule host q) ≡ false
      → match_from host idx (q ∷ rules) ≡ match_from host (suc idx) rules
  unfolding match_from
  match_from-skip host idx q rules e = rw e

  shift : (idx n : ℕ) (r : Rule) → matched_at (suc idx + n) r ≡ matched_at (idx + suc n) r
  shift idx n r = ground arith

  not_both : (a b : Bool) → (a && b) ≡ false → ¬ ((a ≡ true) × (b ≡ true))
  not_both a b e h = ground arith

  match_from-FromSpec : (host : Text) (idx : ℕ) (rules : List Rule) → FromSpec host idx rules
  match_from-FromSpec host idx [] = inr (tt, unfold match_from in refl)
  match_from-FromSpec host idx (q ∷ rules) = elim (Bool-cases (q.enabled && match_rule host q)) [
    | inl e ↦ inl (zero, q, hit (ground (arith, e)), match_from-hit host idx q rules e)
    | inr e ↦
        let off = not_both q.enabled (match_rule host q) e in
        let step = match_from-skip host idx q rules e in
        elim (match_from-FromSpec host (suc idx) rules) [
          | inl (n, r, f, same) ↦ inl (suc n, r, skip off f, rw step (rw same (rw (shift idx n r))))
          | inr (missed, same) ↦ inr ((off, missed), rw step same)
        ]
  ]

  -- Whatever the host and the rules: either some rule is the first that is enabled and matches the
  -- normalised host, and the engine answers with it and its position, or no rule applies and it
  -- answers DIRECT by the built-in MATCH rule, with the position of the last rule.
  pub match_first :
      (host : Text) (rules : List Rule)
      → ((n : ℕ) × (r : Rule) × FirstMatch (normalize_host host) rules n r
          × (match host rules ≡ (r, matched_at n r)))
        ⊎ (All (λ r. ¬ Applies (normalize_host host) r) rules
            × (match host rules ≡ (fallback, fallback_matched rules)))
  unfolding match
  match_first host rules = elim (match_from-FromSpec (normalize_host host) 0 rules) [
    | inl (n, r, f, same) ↦ inl (n, r, f, rw (same, match) (ground arith))
    | inr (missed, same) ↦ inr (missed, rw (same, match))
  ]

  pub FirstMatch-append :
      {host : Text} {rules : List Rule} {n : ℕ} {r : Rule} (more : List Rule)
      → FirstMatch host rules n r
      → FirstMatch host (rules ++ more) n r
  FirstMatch-append more (hit a) = hit a
  FirstMatch-append more (skip off f) = skip off (FirstMatch-append more f)

  match_from_of_FirstMatch :
      {host : Text} {rules : List Rule} {n : ℕ} {r : Rule} (idx : ℕ)
      → FirstMatch host rules n r
      → match_from host idx rules ≡ some (r, matched_at (idx + n) r)
  match_from_of_FirstMatch {host} {r} idx (hit {rules = rules} (a, b)) =
      match_from-hit host idx r rules (ground (arith, a, b))
  match_from_of_FirstMatch {host} {r} idx (skip {q = q} {rules = rules} {n = n} off f) =
      rw (match_from-skip host idx q rules (not_applies q.enabled (match_rule host q) off))
        (rw (match_from_of_FirstMatch (suc idx) f) (rw (shift idx n r)))
    where
      not_applies : (a b : Bool) → ¬ ((a ≡ true) × (b ≡ true)) → (a && b) ≡ false
      not_applies true true h = absurd (h (refl, refl))
      not_applies true false h = refl
      not_applies false b h = refl

  -- The first rule that applies is the engine's answer.
  pub match_of_FirstMatch :
      (host : Text) {rules : List Rule} {n : ℕ} {r : Rule}
      → FirstMatch (normalize_host host) rules n r
      → match host rules ≡ (r, matched_at n r)
  unfolding match
  match_of_FirstMatch host f = rw (match_from_of_FirstMatch 0 f, match) (ground arith)

  -- Behind rules none of which applies.
  pub FirstMatch-behind :
      {host : Text} {r : Rule} (rules : List Rule) (more : List Rule)
      → All (λ q. ¬ Applies host q) rules
      → Applies host r
      → FirstMatch host (rules ++ r ∷ more) (length rules) r
  FirstMatch-behind [] more h a = hit a
  FirstMatch-behind (q ∷ rules) more (off, h) a = skip off (FirstMatch-behind rules more h a)
