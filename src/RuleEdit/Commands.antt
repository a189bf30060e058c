-- ===== src/RuleEdit/Commands.antt =====
-- app.go: UpsertRule, BatchUpsertRules, DeleteRule and MoveRule, up to the call of Save. Writing the
-- file and restarting the data plane follow, and change no rule.
pub mod Safety
pub mod Move
pub mod Delete
pub mod Refusal
use proxy_rule_manager.Common.{
  ℕ, zero, suc, ◌+◌, ◌-◌, Bool, true, false, not, ◌&&◌, ◌||◌, Option, none, some, List, [], ◌∷◌,
  ◌++◌, if◌then◌else◌, ◌==◌, length, leb, nat_eq,
}
use proxy_rule_manager.Text.{Text, codes, text_beq, is_empty}
use proxy_rule_manager.Platform.{Platform}
use proxy_rule_manager.Ids.{Ids, new_id}
use proxy_rule_manager.Model.{RuleType, RuleTarget, Rule, AppConfig}
use proxy_rule_manager.Model.Equality.{type_beq}
use proxy_rule_manager.Rules.Normalize.{no_type, normalize_rule_input}
use proxy_rule_manager.Config.Store.{ensure_invariants}
use proxy_rule_manager.RuleEdit.Normalize.{
  normalize_single_rule, expand_rule_set, split_batch_content,
}
use proxy_rule_manager.RuleEdit.Change.{Change, updated, merged, added, apply_rule_change}

-- How an operation ends: an error that leaves the store as it was, a panic, or a new configuration.
pub data Outcome (A : Type 0) : Type 0 where
  failed panicked : Outcome A
  saved : A → Outcome A

pub record BatchRuleRequest : Type 0 where
  pub content : Text
  pub target : RuleTarget
  pub folder : Text
  pub remark : Text
  pub enabled : Bool

pub record BatchRuleItem : Type 0 where
  pub raw : Text
  pub type : RuleType
  pub value : Text
  pub target : RuleTarget
  pub folder : Text
  pub duplicate : Bool

-- The variables that the callback of `BatchUpsertRules` changes.
pub record Batch : Type 0 where
  pub rules : List Rule
  pub added : List BatchRuleItem
  pub skipped : List BatchRuleItem
  pub added_count : ℕ
  pub merged_count : ℕ

abbrev pub entry_of : Text → Rule → BatchRuleItem
entry_of raw item = record {
  raw = raw;
  type = item.type;
  value = item.value;
  target = item.target;
  folder = item.folder;
  duplicate = false;
}

abbrev pub bare_entry : Text → BatchRuleItem
bare_entry raw = record {
  raw = raw;
  type = no_type;
  value = [];
  target = RuleTarget.other [];
  folder = [];
  duplicate = false;
}

-- the switch on the change
unfoldable pub tally : Change → BatchRuleItem → List Rule → Batch → Batch
tally merged entry rules b = record b {
  rules = rules;
  skipped = b.skipped ++ record entry { duplicate = true } ∷ [];
  merged_count = b.merged_count + 1;
}
tally added entry rules b = record b {
  rules = rules;
  added = b.added ++ entry ∷ [];
  added_count = b.added_count + 1;
}
tally updated entry rules b = record b { rules = rules }

-- the loop of `DeleteRule`; `none` is its error
unfoldable pub delete_loop : Text → List Rule → Option (List Rule)
delete_loop id [] = some []
delete_loop id (rule ∷ rules) = elim (delete_loop id rules) [
  | none ↦ none
  | some rest ↦
      if rule.id == id && rule.type == RuleType.match
      then none
      else if rule.id == id
      then some rest
      else some (rule ∷ rest)
]

-- The positions `k` and `k + 1` change places.
unfoldable pub swap_next {ℓ} : {A : Type ℓ} → ℕ → List A → List A
swap_next k [] = []
swap_next k (x ∷ []) = x ∷ []
swap_next zero (x ∷ (y ∷ xs)) = y ∷ (x ∷ xs)
swap_next (suc k) (x ∷ (y ∷ xs)) = x ∷ swap_next k (y ∷ xs)

unfoldable pub find_position : Text → ℕ → List Rule → Option (ℕ × Rule)
find_position id idx [] = none
find_position id idx (rule ∷ rules) =
    let later = find_position id (suc idx) rules in
    if rule.id == id then some (idx, rule) else later

-- The exchange with the neighbour, unless that is out of range or the last rule.
unfoldable pub move_at : Text → ℕ → List Rule → List Rule
unfolding swap_next
move_at direction idx rules =
    if direction == codes "down"
    then (if leb (length rules - 1) (idx + 1) then rules else swap_next idx rules)
    else (if nat_eq idx 0 then rules else swap_next (idx - 1) rules)

-- the callback of `MoveRule`; `none` is its error
unfoldable pub move_loop : Text → Text → List Rule → Option (List Rule)
unfolding find_position move_at
move_loop id direction rules = elim (find_position id 0 rules) [
  | none ↦ some rules
  | some (idx, rule) ↦
      if rule.type == RuleType.match then none else some (move_at direction idx rules)
]

module _ ⦃p : Platform⦄ where
  -- the callback of `UpsertRule`; `none` is a panic
  unfoldable pub upsert_items : List Rule → List Rule → Ids (Option (List Rule))
  unfolding apply_rule_change
  upsert_items [] rules n = (some rules, n)
  upsert_items (item ∷ items) rules n =
      let fresh = item.id == [] in
      let named = if fresh then record item { id = p.uuid n } else item in
      elim (apply_rule_change named rules) [
        | none ↦ (none, n)
        | some (next, _) ↦ upsert_items items next (if fresh then suc n else n)
      ]

  -- `ensureInvariants` and the end of `Update`
  abbrev pub commit : AppConfig → Option (List Rule) × ℕ → Outcome AppConfig × ℕ
  commit cfg (none, n) = (panicked, n)
  commit cfg (some rules, n) =
      let (kept, m) = ensure_invariants (record cfg { rules = rules }) n in (saved kept, m)

  abbrev pub commit_or_fail : AppConfig → Option (List Rule) → Ids (Outcome AppConfig)
  commit_or_fail cfg none n = (failed, n)
  commit_or_fail cfg (some rules) n =
      let (kept, m) = ensure_invariants (record cfg { rules = rules }) n in (saved kept, m)

  unfoldable pub upsert_rule : Rule → AppConfig → Ids (Outcome AppConfig)
  unfolding upsert_items ensure_invariants
  upsert_rule rule cfg n =
      if rule.type == RuleType.match
      then (failed, n)
      else commit cfg (upsert_items (expand_rule_set (normalize_single_rule rule)) cfg.rules n)

  -- the inner loop of `BatchUpsertRules`
  unfoldable pub batch_items : Text → List Rule → Batch → Ids (Option Batch)
  unfolding apply_rule_change tally
  batch_items raw [] b n = (some b, n)
  batch_items raw (item ∷ items) b n =
      let named = record item { id = p.uuid n } in
      elim (apply_rule_change named b.rules) [
        | none ↦ (none, suc n)
        | some (next, change) ↦
            batch_items raw items (tally change (entry_of raw named) next b) (suc n)
      ]

  -- one input line of the outer loop
  unfoldable pub batch_line : BatchRuleRequest → Text → Batch → Ids (Option Batch)
  unfolding batch_items
  batch_line request raw b n =
      elim (normalize_rule_input raw request.target request.folder request.remark request.enabled) [
        | none ↦ (some (record b { skipped = b.skipped ++ bare_entry raw ∷ [] }), n)
        | some rule ↦ batch_items raw (expand_rule_set rule) b n
      ]

  unfoldable pub batch_lines : BatchRuleRequest → List Text → Batch → Ids (Option Batch)
  batch_lines request [] b n = (some b, n)
  batch_lines request (raw ∷ raws) b n =
      let (done, m) = batch_line request raw b n in
      elim done [ none ↦ (none, m) | some b' ↦ batch_lines request raws b' m ]

  abbrev pub empty_batch : List Rule → Batch
  empty_batch rules = record {
    rules = rules;
    added = [];
    skipped = [];
    added_count = 0;
    merged_count = 0;
  }

  abbrev pub commit_batch : AppConfig → Option Batch × ℕ → Outcome (AppConfig × Batch) × ℕ
  commit_batch cfg (none, n) = (panicked, n)
  commit_batch cfg (some b, n) =
      let (kept, m) = ensure_invariants (record cfg { rules = b.rules }) n in (saved (kept, b), m)

  unfoldable pub batch_upsert_rules :
      BatchRuleRequest → AppConfig → Ids (Outcome (AppConfig × Batch))
  unfolding split_batch_content batch_line batch_lines ensure_invariants
  batch_upsert_rules request cfg n =
      let items = split_batch_content request.content in
      if is_empty items
      then (failed, n)
      else commit_batch cfg (batch_lines request items (empty_batch cfg.rules) n)

  unfoldable pub delete_rule : Text → AppConfig → Ids (Outcome AppConfig)
  unfolding delete_loop ensure_invariants
  delete_rule id cfg n = commit_or_fail cfg (delete_loop id cfg.rules) n

  unfoldable pub move_rule : Text → Text → AppConfig → Ids (Outcome AppConfig)
  unfolding move_loop ensure_invariants
  move_rule id direction cfg n = commit_or_fail cfg (move_loop id direction cfg.rules) n
