-- ===== src/RuleEdit/Change.antt =====
-- app.go: applyRuleChange and mergeDuplicateRules
pub mod Laws
pub mod Total
use proxy_rule_manager.Common.{
  ℕ, suc, Bool, true, false, not, ◌&&◌, ◌||◌, Option, none, some, List, [], ◌∷◌, ◌++◌,
  if◌then◌else◌, ◌==◌,
}
use proxy_rule_manager.Text.{Text, text_beq, trim_space}
use proxy_rule_manager.Platform.{Platform}
use proxy_rule_manager.Model.{Rule}
use proxy_rule_manager.Rules.Normalize.{equivalent_rule}
use proxy_rule_manager.RuleEdit.Normalize.{merge_remarks}

pub data Change : Type 0 where
  updated merged added : Change

-- The first rule with the identifier is overwritten; `none` where there is none.
unfoldable pub replace_by_id : Rule → List Rule → Option (List Rule)
replace_by_id rule [] = none
replace_by_id rule (q ∷ rules) =
    let later : Option (List Rule) = elim (replace_by_id rule rules) [
      | none ↦ none
      | some rest ↦ some (q ∷ rest)
    ] in
    if q.id == rule.id then some (rule ∷ rules) else later

abbrev pub over_blank : Text → Text → Text
over_blank old new = if trim_space new == [] then old else new

-- The remark of `kept` once the remark of a duplicate is merged into it.
abbrev pub absorb : Rule → Rule → Rule
absorb kept rule = record kept {
  remark =
      if trim_space rule.remark == [] then kept.remark else merge_remarks kept.remark rule.remark;
}

-- cfg.Rules[:insertAt] + rule + cfg.Rules[insertAt:] with insertAt = len - 1. `none` is the panic
-- of Go at an empty list.
unfoldable pub insert_before_last : Rule → List Rule → Option (List Rule)
insert_before_last rule [] = none
insert_before_last rule (q ∷ []) = some (rule ∷ (q ∷ []))
insert_before_last rule (q ∷ (r ∷ rules)) = elim (insert_before_last rule (r ∷ rules)) [
  | none ↦ none
  | some rest ↦ some (q ∷ rest)
]

-- The rule that `keep` points to, the first with the identifier.
unfoldable pub find_by_id : Text → List Rule → Option Rule
find_by_id keep_id [] = none
find_by_id keep_id (rule ∷ rules) =
    let later = find_by_id keep_id rules in if rule.id == keep_id then some rule else later

module _ ⦃p : Platform⦄ where
  -- The second loop of `mergeDuplicateRules`. `keep` points into the list that is read, so its
  -- remark changes as the loop goes, and the copy that is written is the value at its turn.
  unfoldable pub merge_from : Text → Rule → Bool → List Rule → List Rule
  merge_from keep_id keep written [] = []
  merge_from keep_id keep written (rule ∷ rules) =
      let dropped = merge_from keep_id (absorb keep rule) written rules in
      let this = keep ∷ merge_from keep_id keep true rules in
      let other = rule ∷ merge_from keep_id keep written rules in
      if not (rule.id == keep_id) && equivalent_rule rule keep
      then dropped
      else if rule.id == keep_id && not written
      then this
      else other

  unfoldable pub merge_duplicate_rules : Text → List Rule → List Rule
  unfolding merge_from find_by_id
  merge_duplicate_rules keep_id rules = elim (find_by_id keep_id rules) [
    | none ↦ rules
    | some keep ↦ merge_from keep_id keep false rules
  ]

  -- The first equivalent rule takes the switch and the labels; `none` where there is none.
  unfoldable pub merge_equivalent : Rule → List Rule → Option (List Rule)
  merge_equivalent rule [] = none
  merge_equivalent rule (q ∷ rules) =
      let later : Option (List Rule) = elim (merge_equivalent rule rules) [
        | none ↦ none
        | some rest ↦ some (q ∷ rest)
      ] in
      let here = record (absorb q rule) {
        enabled = rule.enabled;
        folder = over_blank q.folder rule.folder;
      } in
      if equivalent_rule q rule then some (here ∷ rules) else later

  abbrev pub labelled_change : Change → List Rule → List Rule × Change
  labelled_change change rules = (rules, change)

  -- the second and third part, for a rule whose identifier is not in the list
  unfoldable pub merge_or_add : Rule → List Rule → Option (List Rule × Change)
  unfolding merge_equivalent insert_before_last
  merge_or_add rule rules = elim (merge_equivalent rule rules) [
    | some next ↦ some (next, merged)
    | none ↦ elim (insert_before_last rule rules) [ none ↦ none | some next ↦ some (next, added) ]
  ]

  -- `none` is a panic.
  unfoldable pub apply_rule_change : Rule → List Rule → Option (List Rule × Change)
  unfolding replace_by_id merge_duplicate_rules merge_or_add
  apply_rule_change rule rules =
      if rule.id == [] then merge_or_add rule rules else elim (replace_by_id rule rules) [
        | some next ↦ some (merge_duplicate_rules rule.id next, updated)
        | none ↦ merge_or_add rule rules
      ]
