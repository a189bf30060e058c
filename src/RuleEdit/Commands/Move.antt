-- ===== src/RuleEdit/Commands/Move.antt =====
-- MoveRule of app.go and the order of the rules.
use mathlib.Core.List.{Perm}
use mathlib.Core.List.Perm
use proxy_rule_manager.Common.{
  ℕ, zero, suc, ◌+◌, ◌-◌, ◌<◌, ◌≡◌, Bool, true, false, Option, none, some, List, [], ◌∷◌, ◌++◌,
  arith, refl, sym, ap, ◌∙◌, Bool-cases, Option-cases, inl, inr, ◌⊎◌, ◌==◌, All, any, length,
  length-append, leb, nat_eq, All-map, true≢false, subst, some_inj,
}
use proxy_rule_manager.Text.{Text, text_beq, codes}
use proxy_rule_manager.Platform.{Platform}
use proxy_rule_manager.Model.{RuleType, Rule, AppConfig}
use proxy_rule_manager.Model.Equality.{type_beq, type_eq_iff}
use proxy_rule_manager.Rules.Normalize.{same_rule_pattern}
use proxy_rule_manager.Rules.Catalog.{common_domain_rules}
use proxy_rule_manager.Config.Rules.{is_fallback}
use proxy_rule_manager.Config.Rules.Builtins.{IsOrdinary, IsCovered}
use proxy_rule_manager.Config.Rules.Invariants.{HasInvariants, ensure_rules_of_HasInvariants}
use proxy_rule_manager.RuleEdit.Commands.Safety.{commit_or_fail-IsCommitted}
use proxy_rule_manager.RuleEdit.Commands.{
  saved, swap_next, find_position, move_at, move_loop, move_rule,
}

module _ {ℓ} {A : Type ℓ} where
  swap_next-append :
      (k : ℕ) (xs : List A) (y : A)
      → suc k < length xs
      → swap_next k (xs ++ y ∷ []) ≡ swap_next k xs ++ y ∷ []
  unfolding swap_next
  swap_next-append k [] y h = elim h [ ]
  swap_next-append k (x ∷ []) y h = absurd (omega arith)
  swap_next-append zero (x ∷ (x' ∷ xs)) y h = refl
  swap_next-append (suc k) (x ∷ (x' ∷ xs)) y h =
      ap (λ l. x ∷ l) (swap_next-append k (x' ∷ xs) y (omega arith))

  swap_next-Perm : (k : ℕ) (xs : List A) → Perm (swap_next k xs) xs
  unfolding swap_next
  swap_next-Perm k [] = Perm.refl []
  swap_next-Perm k (x ∷ []) = Perm.refl (x ∷ [])
  swap_next-Perm zero (x ∷ (y ∷ xs)) = Perm.swap x y xs
  swap_next-Perm (suc k) (x ∷ (y ∷ xs)) = Perm.cons x (swap_next-Perm k (y ∷ xs))

  swap_next-All {κ} : (P : A → Type κ) (k : ℕ) (xs : List A) → All P xs → All P (swap_next k xs)
  unfolding swap_next
  swap_next-All P k [] h = h
  swap_next-All P k (x ∷ []) h = h
  swap_next-All P zero (x ∷ (y ∷ xs)) (px, (py, h)) = (py, (px, h))
  swap_next-All P (suc k) (x ∷ (y ∷ xs)) (px, h) = (px, swap_next-All P k (y ∷ xs) h)

  any-swap_next : (q : A → Bool) (k : ℕ) (xs : List A) → any q (swap_next k xs) ≡ any q xs
  unfolding swap_next
  any-swap_next q k [] = refl
  any-swap_next q k (x ∷ []) = refl
  any-swap_next q zero (x ∷ (y ∷ xs)) = ground arith
  any-swap_next q (suc k) (x ∷ (y ∷ xs)) = rw (any-swap_next q k (y ∷ xs))

find_position-append :
    (id : Text) (idx : ℕ) (rules : List Rule) (last : Rule) (k : ℕ) (r : Rule)
    → find_position id idx (rules ++ last ∷ []) ≡ some (k, r)
    → (k < idx + length rules) ⊎ (r ≡ last)
unfolding find_position
find_position-append id idx [] last k r e = inr (ground arith)
find_position-append id idx (q ∷ rules) last k r e = elim (Bool-cases (q.id == id)) [
  | inl here ↦
      let same : ◌≡◌ {A = Option (ℕ × Rule)} (some (idx, q)) (some (k, r)) =
        rw (here, find_position) at e in
      inl (ground arith)
  | inr there ↦
      elim (find_position-append id (suc idx) rules last k r (rw (there, find_position) at e)) [
        | inl below ↦ inl (omega arith)
        | inr same ↦ inr same
      ]
]

-- How the list of a store relates to the one before: the last rule stays, and those before it are
-- the same in another order.
pub record IsReordered (ordinary : List Rule) (last : Rule) (next : List Rule) : Type 1 where
  pub moved : List Rule
  pub shape : next ≡ moved ++ last ∷ []
  pub perm : Perm moved ordinary
  pub all : (P : Rule → Type 0) → All P ordinary → All P moved
  pub any_same : (q : Rule → Bool) → any q moved ≡ any q ordinary

unchanged : (ordinary : List Rule) (last : Rule) → IsReordered ordinary last (ordinary ++ last ∷ [])
unchanged ordinary last = record {
  moved = ordinary;
  shape = refl;
  perm = Perm.refl ordinary;
  all = λ P h. h;
  any_same = λ q. refl;
}

swapped :
    (k : ℕ) (ordinary : List Rule) (last : Rule)
    → suc k < length ordinary
    → IsReordered ordinary last (swap_next k (ordinary ++ last ∷ []))
swapped k ordinary last h = record {
  moved = swap_next k ordinary;
  shape = swap_next-append k ordinary last h;
  perm = swap_next-Perm k ordinary;
  all = λ P. swap_next-All P k ordinary;
  any_same = λ q. any-swap_next q k ordinary;
}

move_at-IsReordered :
    (direction : Text) (idx : ℕ) (ordinary : List Rule) (last : Rule)
    → idx < length ordinary
    → IsReordered ordinary last (move_at direction idx (ordinary ++ last ∷ []))
unfolding move_at
move_at-IsReordered direction idx ordinary last h = elim (Bool-cases (direction == codes "down")) [
  | inl down ↦ elim (Bool-cases (leb (length (ordinary ++ last ∷ []) - 1) (idx + 1))) [
    | inl e ↦ rw (down, e) (unchanged ordinary last)
    | inr e ↦
        rw (down, e)
          (swapped idx ordinary last (ground (arith, length-append ordinary (last ∷ []))))
  ]
  | inr up ↦ elim (Bool-cases (nat_eq idx 0)) [
    | inl e ↦ rw (up, e) (unchanged ordinary last)
    | inr e ↦ rw (up, e) (swapped (idx - 1) ordinary last (ground arith))
  ]
]

fallback_type : (rule : Rule) → is_fallback rule ≡ true → rule.type ≡ RuleType.match
unfolding is_fallback
fallback_type rule e = (type_eq_iff rule.type RuleType.match).0 (ground arith)

-- The callback changes nothing but the order of the rules before the last.
move_loop-IsReordered :
    (id direction : Text) (ordinary : List Rule) (last : Rule) (next : List Rule)
    → is_fallback last ≡ true
    → move_loop id direction (ordinary ++ last ∷ []) ≡ some next
    → IsReordered ordinary last next
unfolding move_loop
move_loop-IsReordered id direction ordinary last next closing e =
    elim (Option-cases (find_position id 0 (ordinary ++ last ∷ []))) [
      | inl absent ↦
          let same : ◌≡◌ {A = Option (List Rule)} (some (ordinary ++ last ∷ [])) (some next) =
            rw (absent, move_loop) at e in
          subst (IsReordered ordinary last) (some_inj same) (unchanged ordinary last)
      | inr ((idx, rule), found) ↦ elim (Bool-cases (rule.type == RuleType.match)) [
        | inl is_match ↦
            let failed : ◌≡◌ {A = Option (List Rule)} none (some next) =
              rw is_match at (rw (found, move_loop) at e) in
            absurd (none-ne-some failed)
        | inr other ↦
            let same : ◌≡◌ {A = Option (List Rule)}
                (some (move_at direction idx (ordinary ++ last ∷ []))) (some next) =
              rw other at (rw (found, move_loop) at e) in
            elim (find_position-append id 0 ordinary last idx rule found) [
              | inl below ↦
                  subst (IsReordered ordinary last) (some_inj same)
                    (move_at-IsReordered direction idx ordinary last (omega arith))
              | inr is_last ↦
                  absurd (not_match rule other (rw is_last (fallback_type last closing)))
            ]
      ]
    ]
  where
    not_match : (r : Rule) → (r.type == RuleType.match) ≡ false → r.type ≡ RuleType.match → ⊥
    not_match r other e' = true≢false ((type_eq_iff r.type RuleType.match).1 e') other

    none-ne-some : ◌≡◌ {A = Option (List Rule)} none (some next) → ⊥
    none-ne-some h = cc

module _ ⦃p : Platform⦄ where
  IsReordered-HasInvariants :
      (rules next : List Rule) (i : HasInvariants rules)
      → IsReordered i.ordinary i.last next
      → HasInvariants next
  IsReordered-HasInvariants rules next i r = record {
    ordinary = r.moved;
    last = i.last;
    shape = r.shape;
    settled = r.all IsOrdinary i.settled;
    closing = i.closing;
    covered =
        All-map (IsCovered i.ordinary) (IsCovered r.moved)
          (λ builtin c. r.any_same (λ rule. same_rule_pattern rule builtin) ∙ c) common_domain_rules
          i.covered;
  }

  -- MoveRule on a rule list with the invariants, where it does not fail: the saved list is the old
  -- one with the same last rule and the rules before it permuted.
  pub move_rule-IsReordered :
      (id direction : Text) (cfg cfg' : AppConfig) (n : ℕ) (i : HasInvariants cfg.rules)
      → (move_rule id direction cfg n).0 ≡ saved cfg'
      → IsReordered i.ordinary i.last cfg'.rules
  unfolding move_rule
  move_rule-IsReordered id direction cfg cfg' n i e =
      let c = commit_or_fail-IsCommitted cfg (move_loop id direction cfg.rules) n cfg' e in
      let r =
        move_loop-IsReordered id direction i.ordinary i.last c.next i.closing.1
          (ap (move_loop id direction) (sym i.shape) ∙ c.handed) in
      let kept =
        ensure_rules_of_HasInvariants c.next c.taken
          (IsReordered-HasInvariants cfg.rules c.next i r) in
      subst (IsReordered i.ordinary i.last) (sym (c.rules ∙ ap (λ t. t.0) kept)) r
