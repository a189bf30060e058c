-- ===== src/RuleEdit/Commands/Delete.antt =====
-- DeleteRule of app.go and the rules that are left.
use proxy_rule_manager.Common.{
  ℕ, suc, ◌≤◌, ◌≡◌, ◌≢◌, Bool, true, ◌&&◌, Option, none, some, List, [], ◌∷◌, ◌++◌, arith,
  Bool-cases, Option-cases, inl, inr, ◌==◌, if◌then◌else◌, All, All-append, any, subst, ◌↔◌,
  none≢some, some_inj, true≢false,
}
use proxy_rule_manager.Text.{Text, text_beq, text_eq_iff}
use proxy_rule_manager.Platform.{Platform}
use proxy_rule_manager.Model.{RuleType, Rule, AppConfig}
use proxy_rule_manager.Model.Equality.{type_beq}
use proxy_rule_manager.Rules.Normalize.{same_rule_pattern}
use proxy_rule_manager.Rules.Catalog.{common_domain_rules}
use proxy_rule_manager.Config.Rules.{
  is_fallback, prepare_rule, split_rules, add_builtins, close_rules, fallback_rule, or_default,
  ensure_rules, with_new_ids, default_rules,
}
use proxy_rule_manager.RuleEdit.Commands.{saved, delete_loop, delete_rule}
use proxy_rule_manager.RuleEdit.Commands.Safety.{commit_or_fail-IsCommitted}

-- The callback's test for its error.
abbrev pub is_protected : Text → Rule → Bool
is_protected id rule = rule.id == id && rule.type == RuleType.match

-- DeleteRule's callback fails exactly where some rule with the identifier is of type MATCH.
pub delete_loop-none_iff :
    (id : Text) (rules : List Rule)
    → (delete_loop id rules ≡ none) ↔ (any (is_protected id) rules ≡ true)
unfolding delete_loop
delete_loop-none_iff id [] = ground arith
delete_loop-none_iff id (rule ∷ rules) = ground (arith, delete_loop-none_iff id rules)

-- One round of the loop, once the rest is done.
abbrev delete_loop_step : Text → Rule → List Rule → Option (List Rule)
delete_loop_step id rule rest =
    if rule.id == id && rule.type == RuleType.match
    then none
    else if rule.id == id
    then some rest
    else some (rule ∷ rest)

delete_loop_step-removes :
    (id : Text) (rule : Rule) (rest next : List Rule)
    → All (λ r. r.id ≢ id) rest
    → delete_loop_step id rule rest ≡ some next
    → All (λ r. r.id ≢ id) next
delete_loop_step-removes id rule rest next h e = elim (Bool-cases (is_protected id rule)) [
  | inl bad ↦ absurd (none≢some (rw bad at e))
  | inr fine ↦ elim (Bool-cases (rule.id == id)) [
    | inl same ↦ subst (All (λ r. r.id ≢ id)) (some_inj (rw same at (rw fine at e))) h
    | inr other ↦
        subst (All (λ r. r.id ≢ id)) (some_inj (rw other at (rw fine at e)))
          (λ k. true≢false ((text_eq_iff rule.id id).1 k) other, h)
  ]
]

-- Where it succeeds, no rule with the identifier is left.
delete_loop-removes :
    (id : Text) (rules next : List Rule)
    → delete_loop id rules ≡ some next
    → All (λ r. r.id ≢ id) next
unfolding delete_loop
delete_loop-removes id [] next e = subst (All (λ r. r.id ≢ id)) (some_inj e) tt
delete_loop-removes id (rule ∷ rules) next e = elim (Option-cases (delete_loop id rules)) [
  | inl missing ↦
      let failed : ◌≡◌ {A = Option (List Rule)} none (some next) = rw (missing, delete_loop) at e in
      absurd (none≢some failed)
  | inr (rest, found) ↦
      let e' : delete_loop_step id rule rest ≡ some next = rw (found, delete_loop) at e in
      delete_loop_step-removes id rule rest next (delete_loop-removes id rules rest found) e'
]

module _ ⦃p : Platform⦄ (id : Text) (low : ℕ) (fresh : (m : ℕ) → low ≤ m → p.uuid m ≢ id) where
  abbrev Lacks : List Rule → Type 0
  Lacks rules = All (λ r. r.id ≢ id) rules

  abbrev Lacks? : Option Rule → Type 0
  Lacks? none = Unit
  Lacks? (some r) = r.id ≢ id

  prepare_rule-lacks :
      (rule : Rule) (n : ℕ)
      → low ≤ n
      → rule.id ≢ id
      → ((prepare_rule rule n).0.id ≢ id) × (low ≤ (prepare_rule rule n).1)
  unfolding prepare_rule
  prepare_rule-lacks rule n l h = elim (Bool-cases (rule.id == [])) [
    | inl e ↦ rw e (fresh n l, omega (arith, l))
    | inr e ↦ rw e (h, l)
  ]

  split_rules-Lacks :
      (filtered : List Rule) (fallback : Option Rule) (rules : List Rule) (n : ℕ)
      → low ≤ n
      → Lacks filtered
      → Lacks? fallback
      → Lacks rules
      → Lacks (split_rules filtered fallback rules n).0.0
        × Lacks? (split_rules filtered fallback rules n).0.1
        × (low ≤ (split_rules filtered fallback rules n).1)
  unfolding split_rules
  split_rules-Lacks filtered fallback [] n l h k _ = (h, k, l)
  split_rules-Lacks filtered fallback (rule ∷ rules) n l h k (a, rest) =
      let (r, m) = prepare_rule rule n in
      let (b, l') = prepare_rule-lacks rule n l a in
      elim (Bool-cases (is_fallback r)) [
        | inl e ↦ rw e (split_rules-Lacks filtered (some r) rules m l' h b rest)
        | inr e ↦ rw e (
            split_rules-Lacks (filtered ++ r ∷ []) fallback rules m l'
              (All-append _ filtered (r ∷ []) h (b, tt)) k rest)
      ]

  add_builtins-Lacks :
      (filtered builtins : List Rule) (n : ℕ)
      → low ≤ n
      → Lacks filtered
      → Lacks (add_builtins filtered builtins n).0 × (low ≤ (add_builtins filtered builtins n).1)
  unfolding add_builtins
  add_builtins-Lacks filtered [] n l h = (h, l)
  add_builtins-Lacks filtered (b ∷ builtins) n l h =
      elim (Bool-cases (any (λ rule. same_rule_pattern rule b) filtered)) [
        | inl e ↦ rw e (add_builtins-Lacks filtered builtins n l h)
        | inr e ↦ rw e (
            add_builtins-Lacks (filtered ++ record b { id = p.uuid n } ∷ []) builtins (suc n)
              (omega (arith, l))
              (All-append _ filtered (record b { id = p.uuid n } ∷ []) h (fresh n l, tt)))
      ]

  close_rules-Lacks :
      (filtered : List Rule) (fallback : Option Rule) (n : ℕ)
      → low ≤ n
      → Lacks filtered
      → Lacks? fallback
      → Lacks (close_rules filtered fallback n).0
  unfolding close_rules
  close_rules-Lacks filtered none n l h k =
      All-append _ filtered (fallback_rule (p.uuid n) ∷ []) h (fresh n l, tt)
  close_rules-Lacks filtered (some r) n l h k = All-append _ filtered (r ∷ []) h (k, tt)

  with_new_ids-Lacks :
      (rules : List Rule) (n : ℕ)
      → low ≤ n
      → Lacks (with_new_ids rules n).0 × (low ≤ (with_new_ids rules n).1)
  unfolding with_new_ids
  with_new_ids-Lacks [] n l = (tt, l)
  with_new_ids-Lacks (r ∷ rules) n l =
      let (h, l') = with_new_ids-Lacks rules (suc n) (omega (arith, l)) in ((fresh n l, h), l')

  or_default-Lacks :
      (rules : List Rule) (n : ℕ)
      → low ≤ n
      → Lacks rules
      → Lacks (or_default rules n).0 × (low ≤ (or_default rules n).1)
  unfolding default_rules
  or_default-Lacks [] n l h =
      let (base, l') = with_new_ids-Lacks common_domain_rules n l in
      (
        All-append _ (with_new_ids common_domain_rules n).0 _ base (fresh _ l', tt),
        omega (arith, l'),
      )
  or_default-Lacks (r ∷ rules) n l h = (h, l)

  ensure_rules-Lacks :
      (rules : List Rule) (n : ℕ) → low ≤ n → Lacks rules → Lacks (ensure_rules rules n).0
  unfolding ensure_rules
  ensure_rules-Lacks rules n l h =
      let (start, n') = or_default rules n in
      let ((filtered, fallback), m) = split_rules [] none start n' in
      let (known, l1) = or_default-Lacks rules n l h in
      let (a, b, l2) = split_rules-Lacks [] none start n' l1 tt tt known in
      let (complete, m') = add_builtins filtered common_domain_rules m in
      let (c, l3) = add_builtins-Lacks filtered common_domain_rules m l2 a in
      close_rules-Lacks complete fallback m' l3 c b

-- After a DeleteRule that is saved no rule has the identifier, the built-in rules that the store
-- adds again included, if none of the identifiers that are yet to be taken is equal to it, as it is
-- with one that was taken before.
pub delete_rule-removes :
    ⦃p : Platform⦄ (id : Text) (cfg cfg' : AppConfig) (n : ℕ)
    → ((m : ℕ) → n ≤ m → p.uuid m ≢ id)
    → (delete_rule id cfg n).0 ≡ saved cfg'
    → All (λ r. r.id ≢ id) cfg'.rules
unfolding delete_rule
delete_rule-removes id cfg cfg' n fresh e =
    let c = commit_or_fail-IsCommitted cfg (delete_loop id cfg.rules) n cfg' e in
    rw (c.rules) (
      ensure_rules-Lacks id n fresh c.next c.taken c.later
        (delete_loop-removes id cfg.rules c.next c.handed))
