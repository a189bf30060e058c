-- ===== src/Config/Rules/Builtins.antt =====
-- The loop of `ensureInvariants` over the built-in rules, and the closing rule.
use proxy_rule_manager.Common.{
  ℕ, suc, Bool, true, false, ◌≡◌, ◌≢◌, List, [], ◌∷◌, ◌++◌, arith, refl, Bool-cases, inl, inr, All,
  All-append, any, append_assoc, append-nil, ◌==◌, ==-refl, map, sym, ◌∙◌,
}
use proxy_rule_manager.Text.{Text, text_beq, text_eq, trim_space}
use proxy_rule_manager.Platform.{Platform}
use proxy_rule_manager.Model.{Rule}
use proxy_rule_manager.Model.Equality.{type_beq, target_beq, type_eq}
use proxy_rule_manager.Rules.Catalog.{
  DomainFamily, common_domain_families, common_domain_rules, family_rules, family_rule,
  default_folder_for_rule, default_remark_for_rule,
}
use proxy_rule_manager.Rules.Normalize.{same_rule_pattern}
use proxy_rule_manager.Config.Rules.{is_fallback, add_builtins, fallback_rule}
use proxy_rule_manager.Config.Rules.Settled.{IsSettled}

-- A label that stays as it is whatever the rule's value.
abbrev IsLabel : Text → Type 0
IsLabel s = (trim_space s ≡ s) × ((trim_space s == []) ≡ false)

abbrev pub IsLabelled : Rule → Type 0
IsLabelled rule = IsLabel rule.folder × IsLabel rule.remark × (is_fallback rule ≡ false)

abbrev HasLabels : DomainFamily → Type 0
HasLabels family = IsLabel family.folder × IsLabel family.remark

families_labelled : All HasLabels common_domain_families
unfolding trim_space text_eq common_domain_families
families_labelled = (
  ((refl, refl), (refl, refl)),
  (
    ((refl, refl), (refl, refl)),
    (
      ((refl, refl), (refl, refl)),
      (
        ((refl, refl), (refl, refl)),
        (
          ((refl, refl), (refl, refl)),
          (
            ((refl, refl), (refl, refl)),
            (((refl, refl), (refl, refl)), (((refl, refl), (refl, refl)), tt)),
          ),
        ),
      ),
    ),
  ),
)

family-IsLabelled :
    (family : DomainFamily) (domains : List Text)
    → HasLabels family
    → All IsLabelled (map (family_rule family) domains)
unfolding is_fallback type_eq
family-IsLabelled family [] h = tt
family-IsLabelled family (d ∷ domains) h = ((h.0, h.1, refl), family-IsLabelled family domains h)

family_rules-IsLabelled :
    (families : List DomainFamily) → All HasLabels families → All IsLabelled (family_rules families)
unfolding family_rules
family_rules-IsLabelled [] h = tt
family_rules-IsLabelled (family ∷ families) (k, h) =
    All-append IsLabelled (map (family_rule family) family.domains) (family_rules families)
      (family-IsLabelled family family.domains k) (family_rules-IsLabelled families h)

pub common_domain_rules-IsLabelled : All IsLabelled common_domain_rules
unfolding common_domain_rules
common_domain_rules-IsLabelled = family_rules-IsLabelled common_domain_families families_labelled

module _ ⦃p : Platform⦄ where
  -- A settled rule that is not the fallback.
  abbrev pub IsOrdinary : Rule → Type 0
  IsOrdinary rule = IsSettled rule × (is_fallback rule ≡ false)

  abbrev pub IsCovered : List Rule → Rule → Type 0
  IsCovered rules builtin = any (λ rule. same_rule_pattern rule builtin) rules ≡ true

  labels-IsSettled :
      (rule : Rule) → rule.id ≢ [] → IsLabel rule.folder → IsLabel rule.remark → IsSettled rule
  unfolding default_folder_for_rule default_remark_for_rule
  labels-IsSettled rule h (kept, full) (kept', full') = record {
    named = h;
    foldered = rw full kept;
    remarked = rw full' kept';
  }

  pub fallback_rule-IsSettled : (n : ℕ) → IsSettled (fallback_rule (p.uuid n))
  unfolding trim_space text_eq
  fallback_rule-IsSettled n =
      labels-IsSettled (fallback_rule (p.uuid n)) (p.uuid_ne_nil n) (refl, refl) (refl, refl)

  with_id-IsOrdinary :
      (rule : Rule) (n : ℕ) → IsLabelled rule → IsOrdinary (record rule { id = p.uuid n })
  unfolding is_fallback
  with_id-IsOrdinary rule n (f, r, e) =
      (labels-IsSettled (record rule { id = p.uuid n }) (p.uuid_ne_nil n) f r, e)

  same_rule_pattern_with_id :
      (rule : Rule) (id : Text) → same_rule_pattern (record rule { id = id }) rule ≡ true
  unfolding same_rule_pattern
  same_rule_pattern_with_id rule id =
      rw (==-refl rule.type) (==-refl (map p.fold (trim_space rule.value)))

  any-append : (q : Rule → Bool) (xs ys : List Rule) → any q xs ≡ true → any q (xs ++ ys) ≡ true
  any-append q (x ∷ xs) ys h = ground (arith, any-append q xs ys)
  any-append q [] ys h = cc

  any-append_right :
      (q : Rule → Bool) (xs : List Rule) (y : Rule) → q y ≡ true → any q (xs ++ y ∷ []) ≡ true
  any-append_right q [] y h = ground arith
  any-append_right q (x ∷ xs) y h = ground (arith, any-append_right q xs y)

  -- The loop only adds rules behind those present, all of them ordinary, and covers each built-in
  -- rule that it has seen.
  pub record IsCompleted (filtered builtins result : List Rule) : Type 0 where
    pub added : List Rule
    pub same : result ≡ filtered ++ added
    pub ordinary : All IsOrdinary added
    pub covered : All (IsCovered result) builtins

  pub add_builtins-IsCompleted :
      (filtered builtins : List Rule) (n : ℕ)
      → All IsLabelled builtins
      → IsCompleted filtered builtins (add_builtins filtered builtins n).0
  unfolding add_builtins
  add_builtins-IsCompleted filtered [] n h = record {
    added = [];
    same = sym (append-nil filtered);
    ordinary = tt;
    covered = tt;
  }
  add_builtins-IsCompleted filtered (b ∷ builtins) n (k, h) =
      elim (Bool-cases (any (λ rule. same_rule_pattern rule b) filtered)) [
        | inl e ↦
            let c = add_builtins-IsCompleted filtered builtins n h in
            rw e (record {
              added = c.added;
              same = c.same;
              ordinary = c.ordinary;
              covered = (rw (c.same) (any-append _ filtered c.added e), c.covered);
            })
        | inr e ↦
            let b' = record b { id = p.uuid n } in
            let c = add_builtins-IsCompleted (filtered ++ b' ∷ []) builtins (suc n) h in
            rw e (record {
              added = b' ∷ c.added;
              same = c.same ∙ append_assoc filtered (b' ∷ []) c.added;
              ordinary = (with_id-IsOrdinary b n k, c.ordinary);
              covered = (
                rw (c.same) (
                    any-append _ (filtered ++ b' ∷ []) c.added
                      (any-append_right _ filtered b' (same_rule_pattern_with_id b (p.uuid n)))),
                c.covered,
              );
            })
      ]

  -- Where every built-in rule is covered the loop adds nothing.
  pub add_builtins_of_covered :
      (filtered builtins : List Rule) (n : ℕ)
      → All (IsCovered filtered) builtins
      → add_builtins filtered builtins n ≡ (filtered, n)
  unfolding add_builtins
  add_builtins_of_covered filtered [] n h = refl
  add_builtins_of_covered filtered (b ∷ builtins) n (e, h) =
      rw e (add_builtins_of_covered filtered builtins n h)
