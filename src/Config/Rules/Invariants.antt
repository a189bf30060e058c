-- ===== src/Config/Rules/Invariants.antt =====
-- The invariants of the store's rule list, for `ensureInvariants` of internal/config/store.go.
use proxy_rule_manager.Common.{
  ℕ, true, ◌≡◌, Option, none, some, List, [], ◌∷◌, ◌++◌, refl, Bool-cases, inl, inr, All,
  All-append, append_assoc, append-nil, ap, ◌∙◌,
}
use proxy_rule_manager.Platform.{Platform}
use proxy_rule_manager.Model.{Rule}
use proxy_rule_manager.Model.Equality.{type_eq, target_eq}
use proxy_rule_manager.Rules.Catalog.{common_domain_rules}
use proxy_rule_manager.Config.Rules.{
  is_fallback, prepare_rule, split_rules, add_builtins, close_rules, fallback_rule, or_default,
  ensure_rules,
}
use proxy_rule_manager.Config.Rules.Settled.{
  IsSettled, prepare_rule-IsSettled, prepare_rule_of_IsSettled,
}
use proxy_rule_manager.Config.Rules.Builtins.{
  IsOrdinary, IsCovered, common_domain_rules-IsLabelled, fallback_rule-IsSettled,
  add_builtins-IsCompleted, add_builtins_of_covered,
}

module _ ⦃p : Platform⦄ where
  abbrev IsLast : Rule → Type 0
  IsLast rule = IsSettled rule × (is_fallback rule ≡ true)

  abbrev IsLast? : Option Rule → Type 0
  IsLast? none = Unit
  IsLast? (some rule) = IsLast rule

  -- The rules are ordinary rules, settled and none of them MATCH to DIRECT, that cover the built-in
  -- rules, and behind them one MATCH to DIRECT rule.
  pub record HasInvariants (rules : List Rule) : Type 0 where
    pub ordinary : List Rule
    pub last : Rule
    pub shape : rules ≡ ordinary ++ last ∷ []
    pub settled : All IsOrdinary ordinary
    pub closing : IsSettled last × (is_fallback last ≡ true)
    pub covered : All (IsCovered ordinary) common_domain_rules

  split_rules_inv :
      (filtered : List Rule) (fallback : Option Rule) (rules : List Rule) (n : ℕ)
      → All IsOrdinary filtered
      → IsLast? fallback
      → All IsOrdinary (split_rules filtered fallback rules n).0.0
        × IsLast? (split_rules filtered fallback rules n).0.1
  unfolding split_rules
  split_rules_inv filtered fallback [] n h k = (h, k)
  split_rules_inv filtered fallback (rule ∷ rules) n h k =
      let (r, m) = prepare_rule rule n in
      let settled = prepare_rule-IsSettled rule n in
      elim (Bool-cases (is_fallback r)) [
        | inl e ↦ rw e (split_rules_inv filtered (some r) rules m h (settled, e))
        | inr e ↦ rw e (
            split_rules_inv (filtered ++ r ∷ []) fallback rules m
              (All-append IsOrdinary filtered (r ∷ []) h ((settled, e), tt)) k)
      ]

  close_rules-HasInvariants :
      (filtered : List Rule) (fallback : Option Rule) (n : ℕ)
      → All IsOrdinary filtered
      → IsLast? fallback
      → All (IsCovered filtered) common_domain_rules
      → HasInvariants (close_rules filtered fallback n).0
  unfolding close_rules is_fallback type_eq target_eq
  close_rules-HasInvariants filtered none n h k c = record {
    ordinary = filtered;
    last = fallback_rule (p.uuid n);
    shape = refl;
    settled = h;
    closing = (fallback_rule-IsSettled n, refl);
    covered = c;
  }
  close_rules-HasInvariants filtered (some r) n h k c = record {
    ordinary = filtered;
    last = r;
    shape = refl;
    settled = h;
    closing = k;
    covered = c;
  }

  -- Whatever rule list it is given, an empty one included, `ensureInvariants` leaves a list that
  -- ends in a MATCH to DIRECT rule and has no other, in which every rule has an identifier and
  -- settled labels and every built-in rule's pattern is present.
  pub ensure_rules-HasInvariants :
      (rules : List Rule) (n : ℕ) → HasInvariants (ensure_rules rules n).0
  unfolding ensure_rules
  ensure_rules-HasInvariants rules n =
      let (start, n') = or_default rules n in
      let ((filtered, fallback), m) = split_rules [] none start n' in
      let (h, k) = split_rules_inv [] none start n' tt tt in
      let c =
        add_builtins-IsCompleted filtered common_domain_rules m common_domain_rules-IsLabelled in
      let (complete, m') = add_builtins filtered common_domain_rules m in
      close_rules-HasInvariants complete fallback m'
        (rw (c.same) (All-append IsOrdinary filtered c.added h c.ordinary)) k c.covered

  split_rules_of_settled :
      (filtered rules : List Rule) (last : Rule) (n : ℕ)
      → All IsOrdinary rules
      → IsSettled last × (is_fallback last ≡ true)
      → split_rules filtered none (rules ++ last ∷ []) n ≡ ((filtered ++ rules, some last), n)
  unfolding split_rules
  split_rules_of_settled filtered [] last n h (s, e) =
      rw (prepare_rule_of_IsSettled last n s) (rw e (rw (append-nil filtered)))
  split_rules_of_settled filtered (r ∷ rules) last n ((s, e), h) k =
      rw (prepare_rule_of_IsSettled r n s) (
        rw e (
          split_rules_of_settled (filtered ++ r ∷ []) rules last n h k
          ∙ ap (λ l. ((l, some last), n)) (append_assoc filtered (r ∷ []) rules)))

  or_default-append :
      (rules : List Rule) (last : Rule) (n : ℕ)
      → or_default (rules ++ last ∷ []) n ≡ (rules ++ last ∷ [], n)
  or_default-append [] last n = refl
  or_default-append (r ∷ rules) last n = refl

  -- On a rule list that has the invariants `ensureInvariants` changes nothing and takes no
  -- identifier.
  pub ensure_rules_of_HasInvariants :
      (rules : List Rule) (n : ℕ) → HasInvariants rules → ensure_rules rules n ≡ (rules, n)
  unfolding ensure_rules close_rules
  ensure_rules_of_HasInvariants rules n i = rw (i.shape) (
      rw (or_default-append i.ordinary i.last n) (
        rw (split_rules_of_settled [] i.ordinary i.last n i.settled i.closing)
          (rw (add_builtins_of_covered i.ordinary common_domain_rules n i.covered))))

  -- A second pass over the rule list changes nothing.
  pub ensure_rules_idem :
      (rules : List Rule) (n m : ℕ)
      → ensure_rules (ensure_rules rules n).0 m ≡ ((ensure_rules rules n).0, m)
  ensure_rules_idem rules n m =
      ensure_rules_of_HasInvariants (ensure_rules rules n).0 m (ensure_rules-HasInvariants rules n)
