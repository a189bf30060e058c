-- ===== src/RuleEdit/Commands/Safety.antt =====
-- UpsertRule and BatchUpsertRules of app.go: errors, panics and the invariants of the store.
use proxy_rule_manager.Common.{
  ℕ, suc, ◌≤◌, ◌≡◌, Bool, true, false, Option, none, some, List, [], ◌∷◌, refl, Bool-cases, inl,
  inr, ◌==◌, if◌then◌else◌, Option-cases, sym, ap,
}
use proxy_rule_manager.Text.{Text, text_beq, is_empty}
use proxy_rule_manager.Platform.{Platform}
use proxy_rule_manager.Model.{RuleType, Rule, AppConfig}
use proxy_rule_manager.Model.Equality.{type_beq}
use proxy_rule_manager.Rules.Normalize.{normalize_rule_input}
use proxy_rule_manager.Config.Store.{ensure_invariants}
use proxy_rule_manager.Config.Rules.{ensure_rules}
use proxy_rule_manager.Config.Profiles.{migrate_tun_app_profiles}
use proxy_rule_manager.Config.Profiles.Growth.{migrate_tun_app_profiles-Grows}
use proxy_rule_manager.Config.Rules.Invariants.{HasInvariants, ensure_rules-HasInvariants}
use proxy_rule_manager.RuleEdit.Normalize.{
  normalize_single_rule, expand_rule_set, split_batch_content,
}
use proxy_rule_manager.RuleEdit.Change.{Change, updated, merged, added}
use proxy_rule_manager.RuleEdit.Change.Total.{apply_rule_change_total}
use proxy_rule_manager.RuleEdit.Commands.{
  Outcome, failed, panicked, saved, BatchRuleRequest, BatchRuleItem, Batch, tally, entry_of,
  upsert_items, upsert_rule, batch_items, batch_line, batch_lines, batch_upsert_rules, commit,
  commit_or_fail, commit_batch, empty_batch,
}

saved_inj : {A : Type 0} {a b : A} → saved a ≡ saved b → a ≡ b
saved_inj h = cc

module _ ⦃p : Platform⦄ where
  pub ensure_invariants-HasInvariants :
      (cfg : AppConfig) (n : ℕ) → HasInvariants (ensure_invariants cfg n).0.rules
  unfolding ensure_invariants
  ensure_invariants-HasInvariants cfg n =
      ensure_rules-HasInvariants cfg.rules
        (migrate_tun_app_profiles cfg.tun_app_profiles cfg.tun_included_apps n).1

  -- An error exactly where the edit is to be refused, and otherwise a configuration whose rules have
  -- the invariants; never a panic.
  abbrev pub IsSafe : Bool → Outcome AppConfig → Type 0
  IsSafe refused failed = refused ≡ true
  IsSafe refused panicked = ⊥
  IsSafe refused (saved cfg) = (refused ≡ false) × HasInvariants cfg.rules

  abbrev IsFull : Option (List Rule) → Type 0
  IsFull none = ⊥
  IsFull (some rules) = is_empty rules ≡ false

  upsert_items-IsFull :
      (items rules : List Rule) (n : ℕ)
      → is_empty rules ≡ false
      → IsFull (upsert_items items rules n).0
  unfolding upsert_items
  upsert_items-IsFull [] rules n h = h
  upsert_items-IsFull (item ∷ items) rules n h =
      let fresh = item.id == [] in
      let named = if fresh then record item { id = p.uuid n } else item in
      let (next, change, e, full) = apply_rule_change_total named rules h in
      rw (e, upsert_items) (upsert_items-IsFull items next (if fresh then suc n else n) full)

  commit-IsSafe :
      (cfg : AppConfig) (result : Option (List Rule) × ℕ)
      → IsFull result.0
      → IsSafe false (commit cfg result).0
  commit-IsSafe cfg (none, n) h = h
  commit-IsSafe cfg (some rules, n) h =
      (refl, ensure_invariants-HasInvariants (record cfg { rules = rules }) n)

  -- UpsertRule on a store with at least one rule never panics, whatever the rule: it is refused
  -- exactly where the rule is of type MATCH, and otherwise the saved rule list has the invariants.
  pub upsert_rule-IsSafe :
      (rule : Rule) (cfg : AppConfig) (n : ℕ)
      → is_empty cfg.rules ≡ false
      → IsSafe (rule.type == RuleType.match) (upsert_rule rule cfg n).0
  unfolding upsert_rule
  upsert_rule-IsSafe rule cfg n h = elim (Bool-cases (rule.type == RuleType.match)) [
    | inl e ↦ rw e refl
    | inr e ↦
        let items = expand_rule_set (normalize_single_rule rule) in
        rw e (
          commit-IsSafe cfg (upsert_items items cfg.rules n)
            (upsert_items-IsFull items cfg.rules n h))
  ]

  -- The same for an import.
  abbrev pub IsSafeBatch : Bool → Outcome (AppConfig × Batch) → Type 0
  IsSafeBatch refused failed = refused ≡ true
  IsSafeBatch refused panicked = ⊥
  IsSafeBatch refused (saved (cfg, batch)) = (refused ≡ false) × HasInvariants cfg.rules

  abbrev IsFullBatch : Option Batch → Type 0
  IsFullBatch none = ⊥
  IsFullBatch (some b) = is_empty b.rules ≡ false

  rules-tally :
      (change : Change) (entry : BatchRuleItem) (rules : List Rule) (b : Batch)
      → (tally change entry rules b).rules ≡ rules
  unfolding tally
  rules-tally updated entry rules b = refl
  rules-tally merged entry rules b = refl
  rules-tally added entry rules b = refl

  batch_items-IsFullBatch :
      (raw : Text) (items : List Rule) (b : Batch) (n : ℕ)
      → is_empty b.rules ≡ false
      → IsFullBatch (batch_items raw items b n).0
  unfolding batch_items
  batch_items-IsFullBatch raw [] b n h = h
  batch_items-IsFullBatch raw (item ∷ items) b n h =
      let named = record item { id = p.uuid n } in
      let (next, change, e, full) = apply_rule_change_total named b.rules h in
      rw (e, batch_items)
        (batch_items-IsFullBatch raw items (tally change (entry_of raw named) next b) (suc n)
          (rw (rules-tally change (entry_of raw named) next b) full))

  batch_line-IsFullBatch :
      (request : BatchRuleRequest) (raw : Text) (b : Batch) (n : ℕ)
      → is_empty b.rules ≡ false
      → IsFullBatch (batch_line request raw b n).0
  unfolding batch_line
  batch_line-IsFullBatch request raw b n h =
      elim (Option-cases
        (normalize_rule_input raw request.target request.folder request.remark request.enabled)) [
          | inl e ↦ rw (e, batch_line) h
          | inr (rule, e) ↦
              rw (e, batch_line) (batch_items-IsFullBatch raw (expand_rule_set rule) b n h)
        ]

  opened :
      (o : Option Batch) → IsFullBatch o → (b : Batch) × (o ≡ some b) × (is_empty b.rules ≡ false)
  opened none h = absurd h
  opened (some b) h = (b, refl, h)

  batch_lines-IsFullBatch :
      (request : BatchRuleRequest) (raws : List Text) (b : Batch) (n : ℕ)
      → is_empty b.rules ≡ false
      → IsFullBatch (batch_lines request raws b n).0
  unfolding batch_lines
  batch_lines-IsFullBatch request [] b n h = h
  batch_lines-IsFullBatch request (raw ∷ raws) b n h =
      let (b', e, full) =
        opened (batch_line request raw b n).0 (batch_line-IsFullBatch request raw b n h) in
      rw (e, batch_lines)
        (batch_lines-IsFullBatch request raws b' (batch_line request raw b n).1 full)

  commit_batch-IsSafeBatch :
      (cfg : AppConfig) (result : Option Batch × ℕ)
      → IsFullBatch result.0
      → IsSafeBatch false (commit_batch cfg result).0
  commit_batch-IsSafeBatch cfg (none, n) h = h
  commit_batch-IsSafeBatch cfg (some b, n) h =
      (refl, ensure_invariants-HasInvariants (record cfg { rules = b.rules }) n)

  -- BatchUpsertRules on a store with at least one rule never panics, whatever the text: it is refused
  -- exactly where the text has no item, and otherwise the saved rule list has the invariants.
  pub batch_upsert_rules-IsSafeBatch :
      (request : BatchRuleRequest) (cfg : AppConfig) (n : ℕ)
      → is_empty cfg.rules ≡ false
      → IsSafeBatch
          (is_empty (split_batch_content request.content))
          (batch_upsert_rules request cfg n).0
  unfolding batch_upsert_rules
  batch_upsert_rules-IsSafeBatch request cfg n h =
      elim (Bool-cases (is_empty (split_batch_content request.content))) [
        | inl e ↦ rw e refl
        | inr e ↦ rw e (
            commit_batch-IsSafeBatch cfg _ (
              batch_lines-IsFullBatch request (split_batch_content request.content)
                (empty_batch cfg.rules) n h))
      ]

  -- The rule list that a callback hands over, before `ensureInvariants`.
  pub record IsCommitted (n : ℕ) (result : Option (List Rule)) (cfg' : AppConfig) : Type 0 where
    pub next : List Rule
    pub handed : result ≡ some next
    pub taken : ℕ
    pub later : n ≤ taken
    pub rules : cfg'.rules ≡ (ensure_rules next taken).0

  pub commit_or_fail-IsCommitted :
      (cfg : AppConfig) (result : Option (List Rule)) (n : ℕ) (cfg' : AppConfig)
      → (commit_or_fail cfg result n).0 ≡ saved cfg'
      → IsCommitted n result cfg'
  unfolding ensure_invariants
  commit_or_fail-IsCommitted cfg none n cfg' e = absurd (failed_ne_saved e)
    where
      failed_ne_saved : ◌≡◌ {A = Outcome AppConfig} failed (saved cfg') → ⊥
      failed_ne_saved h = cc
  commit_or_fail-IsCommitted cfg (some rules) n cfg' e = record {
    next = rules;
    handed = refl;
    taken = (migrate_tun_app_profiles cfg.tun_app_profiles cfg.tun_included_apps n).1;
    later = migrate_tun_app_profiles-Grows cfg.tun_app_profiles cfg.tun_included_apps n;
    rules = sym (ap (λ c. c.rules) (saved_inj e));
  }
