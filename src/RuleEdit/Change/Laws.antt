-- ===== src/RuleEdit/Change/Laws.antt =====
-- What one change of the rule list does to the list and to the engine's answer.
use proxy_rule_manager.Common.{
  ℕ, ◌≡◌, ◌≢◌, true, false, not, ◌&&◌, none, some, List, [], ◌∷◌, ◌++◌, refl, ap, sym, ◌∙◌,
  Bool-cases, inl, inr, if◌then◌else◌, length, All, ◌==◌,
}
use proxy_rule_manager.Text.{Text, text_beq}
use proxy_rule_manager.Text.Laws.{text_ne, text_eq_refl}
use proxy_rule_manager.Platform.{Platform}
use proxy_rule_manager.Model.{Rule}
use proxy_rule_manager.Rules.Normalize.{equivalent_rule}
use proxy_rule_manager.Rules.Engine.{normalize_host, match, matched_at}
use proxy_rule_manager.Rules.Engine.FirstMatch.{
  Applies, FirstMatch, FirstMatch-append, FirstMatch-behind, match_of_FirstMatch,
}
use proxy_rule_manager.RuleEdit.Change.{
  added, replace_by_id, insert_before_last, merge_from, find_by_id, merge_duplicate_rules,
  merge_equivalent, merge_or_add, apply_rule_change, absorb,
}

pub insert_before_last-append :
    (rule last : Rule) (rules : List Rule)
    → insert_before_last rule (rules ++ last ∷ []) ≡ some (rules ++ (rule ∷ (last ∷ [])))
unfolding insert_before_last
insert_before_last-append rule last [] = refl
insert_before_last-append rule last (q ∷ []) = refl
insert_before_last-append rule last (q ∷ (r ∷ rules)) =
    rw (insert_before_last-append rule last (r ∷ rules))

module _ ⦃p : Platform⦄ where
  -- No rule of the list is equivalent to the given one.
  abbrev pub NoneEquivalent : Rule → List Rule → Type 0
  NoneEquivalent rule rules = All (λ q. equivalent_rule q rule ≡ false) rules

  abbrev pub NoneNamed : Rule → List Rule → Type 0
  NoneNamed rule rules = All (λ q. q.id ≢ rule.id) rules

  merge_equivalent-none :
      (rule : Rule) (rules : List Rule)
      → NoneEquivalent rule rules
      → merge_equivalent rule rules ≡ none
  unfolding merge_equivalent
  merge_equivalent-none rule [] h = refl
  merge_equivalent-none rule (q ∷ rules) (e, h) = rw e (rw (merge_equivalent-none rule rules h))

  replace_by_id-none :
      (rule : Rule) (rules : List Rule) → NoneNamed rule rules → replace_by_id rule rules ≡ none
  unfolding replace_by_id
  replace_by_id-none rule [] h = refl
  replace_by_id-none rule (q ∷ rules) (e, h) =
      rw (text_ne q.id rule.id e) (rw (replace_by_id-none rule rules h))

  merge_or_add-added :
      (rule last : Rule) (ordinary : List Rule)
      → NoneEquivalent rule (ordinary ++ last ∷ [])
      → merge_or_add rule (ordinary ++ last ∷ []) ≡ some (ordinary ++ (rule ∷ (last ∷ [])), added)
  unfolding merge_or_add
  merge_or_add-added rule last ordinary new =
      rw (merge_equivalent-none rule (ordinary ++ last ∷ []) new, merge_or_add)
        (rw (insert_before_last-append rule last ordinary))

  -- A rule that no rule of the list is equivalent to, and whose identifier is new, goes in front of
  -- the last rule.
  pub apply_rule_change-added :
      (rule last : Rule) (ordinary : List Rule)
      → NoneNamed rule (ordinary ++ last ∷ [])
      → NoneEquivalent rule (ordinary ++ last ∷ [])
      → apply_rule_change rule (ordinary ++ last ∷ [])
        ≡ some (ordinary ++ (rule ∷ (last ∷ [])), added)
  unfolding apply_rule_change
  apply_rule_change-added rule last ordinary fresh new = elim (Bool-cases (rule.id == [])) [
    | inl e ↦ rw e (merge_or_add-added rule last ordinary new)
    | inr e ↦ rw e (
        rw (replace_by_id-none rule (ordinary ++ last ∷ []) fresh)
          (merge_or_add-added rule last ordinary new))
  ]

  -- A rule that no rule of the list is equivalent to, and whose identifier is new, comes behind every
  -- ordinary rule: where one of these is the first that applies to a host, the rule is added and the
  -- engine answers for the host as before.
  pub added_keeps_answer :
      (host : Text) (rule last : Rule) (ordinary : List Rule) (n : ℕ) (r : Rule)
      → FirstMatch (normalize_host host) ordinary n r
      → NoneNamed rule (ordinary ++ last ∷ [])
      → NoneEquivalent rule (ordinary ++ last ∷ [])
      → (next : List Rule) × (apply_rule_change rule (ordinary ++ last ∷ []) ≡ some (next, added))
        × (match host next ≡ match host (ordinary ++ last ∷ []))
  added_keeps_answer host rule last ordinary n r f fresh new = (
    ordinary ++ (rule ∷ (last ∷ [])),
    apply_rule_change-added rule last ordinary fresh new,
    match_of_FirstMatch host (FirstMatch-append (rule ∷ (last ∷ [])) f)
        ∙ sym (match_of_FirstMatch host (FirstMatch-append (last ∷ []) f)),
  )

  -- A rule that no rule of the list is equivalent to, and whose identifier is new: where no ordinary
  -- rule applies to a host and the rule does, the rule is added and the engine answers with it.
  pub added_answers :
      (host : Text) (rule last : Rule) (ordinary : List Rule)
      → All (λ q. ¬ Applies (normalize_host host) q) ordinary
      → Applies (normalize_host host) rule
      → NoneNamed rule (ordinary ++ last ∷ [])
      → NoneEquivalent rule (ordinary ++ last ∷ [])
      → (next : List Rule) × (apply_rule_change rule (ordinary ++ last ∷ []) ≡ some (next, added))
        × (match host next ≡ (rule, matched_at (length ordinary) rule))
  added_answers host rule last ordinary off on fresh new = (
    ordinary ++ (rule ∷ (last ∷ [])),
    apply_rule_change-added rule last ordinary fresh new,
    match_of_FirstMatch host (FirstMatch-behind ordinary (last ∷ []) off on),
  )

  -- The rules that are not duplicates of `keep`.
  unfoldable pub others : Text → Rule → List Rule → List Rule
  others keep_id keep [] = []
  others keep_id keep (rule ∷ rules) =
      let rest = others keep_id keep rules in
      if not (rule.id == keep_id) && equivalent_rule rule keep then rest else rule ∷ rest

  equivalent_rule-absorb :
      (rule keep dup : Rule) → equivalent_rule rule (absorb keep dup) ≡ equivalent_rule rule keep
  unfolding equivalent_rule
  equivalent_rule-absorb rule keep dup = refl

  others-absorb :
      (keep_id : Text) (keep dup : Rule) (rules : List Rule)
      → others keep_id (absorb keep dup) rules ≡ others keep_id keep rules
  unfolding others equivalent_rule
  others-absorb keep_id keep dup [] = refl
  others-absorb keep_id keep dup (rule ∷ rules) = rw (others-absorb keep_id keep dup rules)

  merge_from_written :
      (keep_id : Text) (keep : Rule) (rules : List Rule)
      → merge_from keep_id keep true rules ≡ others keep_id keep rules
  unfolding merge_from others
  merge_from_written keep_id keep [] = refl
  merge_from_written keep_id keep (rule ∷ rules) =
      elim (Bool-cases (not (rule.id == keep_id) && equivalent_rule rule keep)) [
        | inl e ↦ rw e (
            merge_from_written keep_id (absorb keep rule) rules
            ∙ others-absorb keep_id keep rule rules)
        | inr e ↦ elim (Bool-cases (rule.id == keep_id)) [
          | inl k ↦ rw (e, k) (ap (λ l. rule ∷ l) (merge_from_written keep_id keep rules))
          | inr k ↦ rw (e, k) (ap (λ l. rule ∷ l) (merge_from_written keep_id keep rules))
        ]
      ]

  find_by_id_self :
      (keep : Rule) (rules : List Rule) → find_by_id keep.id (keep ∷ rules) ≡ some keep
  unfolding find_by_id
  find_by_id_self keep rules = rw (text_eq_refl keep.id)

  merge_from_self :
      (keep : Rule) (rules : List Rule)
      → merge_from keep.id keep false (keep ∷ rules) ≡ keep ∷ merge_from keep.id keep true rules
  unfolding merge_from
  merge_from_self keep rules = rw (text_eq_refl keep.id)

  -- Where the rule that is kept stands first, the duplicates behind it go and the kept rule is
  -- written as it was: their remarks are not merged into it.
  pub merge_duplicate_rules_first :
      (keep : Rule) (rules : List Rule)
      → merge_duplicate_rules keep.id (keep ∷ rules) ≡ keep ∷ others keep.id keep rules
  unfolding merge_duplicate_rules
  merge_duplicate_rules_first keep rules =
      rw (find_by_id_self keep rules, merge_duplicate_rules)
        (merge_from_self keep rules ∙ ap (λ l. keep ∷ l) (merge_from_written keep.id keep rules))
