-- ===== src/RuleEdit/Change/Total.antt =====
-- applyRuleChange of app.go and the panic on an empty rule list.
use proxy_rule_manager.Common.{
  ◌≡◌, ◌≢◌, false, Option, none, some, List, [], ◌∷◌, arith, refl, Bool-cases, Option-cases, inl,
  inr, ◌==◌,
}
use proxy_rule_manager.Text.{Text, text_beq, is_empty}
use proxy_rule_manager.Text.Laws.{text_eq_refl}
use proxy_rule_manager.Platform.{Platform}
use proxy_rule_manager.Model.{Rule}
use proxy_rule_manager.RuleEdit.Change.{
  Change, replace_by_id, insert_before_last, merge_from, find_by_id, absorb, merge_duplicate_rules,
  merge_equivalent, merge_or_add, apply_rule_change,
}

-- The change happened and left rules.
abbrev pub LeavesRules : Option (List Rule × Change) → Type 0
LeavesRules none = ⊥
LeavesRules (some (rules, change)) = is_empty rules ≡ false

replace_by_id-nonempty :
    (rule : Rule) (rules next : List Rule)
    → replace_by_id rule rules ≡ some next
    → (find_by_id rule.id next ≢ none) × (is_empty next ≡ false)
unfolding replace_by_id find_by_id
replace_by_id-nonempty rule [] next e = cc
replace_by_id-nonempty rule (q ∷ rules) next e = elim (Bool-cases (q.id == rule.id)) [
  | inl same ↦
      let found : some (rule ∷ rules) ≡ some next = rw (same, replace_by_id) at e in
      (ground (arith, text_eq_refl rule.id), ground arith)
  | inr other ↦ elim (Option-cases (replace_by_id rule rules)) [
    | inl missing ↦
        let absent : ◌≡◌ {A = Option (List Rule)} none (some next) =
          rw (missing, replace_by_id) at (rw (other, replace_by_id) at e) in
        cc
    | inr (rest, at_rest) ↦
        let (found, _) = replace_by_id-nonempty rule rules rest at_rest in
        let same : some (q ∷ rest) ≡ some next =
          rw (at_rest, replace_by_id) at (rw (other, replace_by_id) at e) in
        (ground (arith, found), ground arith)
  ]
]

insert_before_last-nonempty :
    (rule : Rule) (rules : List Rule)
    → is_empty rules ≡ false
    → (next : List Rule) × (insert_before_last rule rules ≡ some next) × (is_empty next ≡ false)
unfolding insert_before_last
insert_before_last-nonempty rule [] h = cc
insert_before_last-nonempty rule (q ∷ []) h = (rule ∷ (q ∷ []), refl, refl)
insert_before_last-nonempty rule (q ∷ (r ∷ rules)) h =
    let (next, e, _) = insert_before_last-nonempty rule (r ∷ rules) refl in (q ∷ next, rw e, refl)

module _ ⦃p : Platform⦄ where
  merge_equivalent-nonempty :
      (rule : Rule) (rules next : List Rule)
      → merge_equivalent rule rules ≡ some next
      → is_empty next ≡ false
  unfolding merge_equivalent
  merge_equivalent-nonempty rule [] next e = cc
  merge_equivalent-nonempty rule (q ∷ rules) next e = ground arith

  merge_from-nonempty :
      (keep_id : Text) (keep : Rule) (rules : List Rule)
      → find_by_id keep_id rules ≢ none
      → is_empty (merge_from keep_id keep false rules) ≡ false
  unfolding merge_from find_by_id
  merge_from-nonempty keep_id keep [] h = absurd (h refl)
  merge_from-nonempty keep_id keep (rule ∷ rules) h =
      ground (arith, merge_from-nonempty keep_id (absorb keep rule) rules)

  merge_or_add-LeavesRules :
      (rule : Rule) (rules : List Rule)
      → is_empty rules ≡ false
      → LeavesRules (merge_or_add rule rules)
  unfolding merge_or_add
  merge_or_add-LeavesRules rule rules h = elim (Option-cases (merge_equivalent rule rules)) [
    | inr (next, e) ↦ rw (e, merge_or_add) (merge_equivalent-nonempty rule rules next e)
    | inl e ↦
        let (next, e', full) = insert_before_last-nonempty rule rules h in
        rw (e, merge_or_add) (rw e' full)
  ]

  merge_duplicate_rules-nonempty :
      (keep_id : Text) (rules : List Rule)
      → find_by_id keep_id rules ≢ none
      → is_empty (merge_duplicate_rules keep_id rules) ≡ false
  unfolding merge_duplicate_rules
  merge_duplicate_rules-nonempty keep_id rules h = elim (Option-cases (find_by_id keep_id rules)) [
    | inl e ↦ absurd (h e)
    | inr (keep, e) ↦ rw (e, merge_duplicate_rules) (merge_from-nonempty keep_id keep rules h)
  ]

  pub apply_rule_change-LeavesRules :
      (rule : Rule) (rules : List Rule)
      → is_empty rules ≡ false
      → LeavesRules (apply_rule_change rule rules)
  unfolding apply_rule_change
  apply_rule_change-LeavesRules rule rules h = elim (Bool-cases (rule.id == [])) [
    | inl e ↦ rw e (merge_or_add-LeavesRules rule rules h)
    | inr e ↦ elim (Option-cases (replace_by_id rule rules)) [
      | inl e' ↦ rw (e, e') (merge_or_add-LeavesRules rule rules h)
      | inr (next, e') ↦
          rw (e, e')
            (merge_duplicate_rules-nonempty rule.id next
              (replace_by_id-nonempty rule rules next e').0)
    ]
  ]

  -- Applying a rule to a list that has at least one rule never panics, whatever the rule, and leaves
  -- a list that again has at least one.
  pub apply_rule_change_total :
      (rule : Rule) (rules : List Rule)
      → is_empty rules ≡ false
      → (next : List Rule) × (change : Change) × (apply_rule_change rule rules
          ≡ some (next, change))
        × (is_empty next ≡ false)
  apply_rule_change_total rule rules h =
      opened (apply_rule_change rule rules) refl (apply_rule_change-LeavesRules rule rules h)
    where
      opened :
          (o : Option (List Rule × Change))
          → apply_rule_change rule rules ≡ o
          → LeavesRules o
          → (next : List Rule) × (change : Change) × (apply_rule_change rule rules
              ≡ some (next, change))
            × (is_empty next ≡ false)
      opened none e l = absurd l
      opened (some (next, change)) e l = (next, change, e, l)
