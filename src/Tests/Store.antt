-- ===== src/Tests/Store.antt =====
-- Concrete runs of the configuration store and the log store.
use proxy_rule_manager.Common.{◌≡◌, List, [], ◌∷◌, All, refl, arith}
use proxy_rule_manager.Common.Int.{pos, negsuc}
use proxy_rule_manager.Text.{Text, codes, text_eq, trim_space}
use proxy_rule_manager.Model.{direct, domain, TrafficLog, active, closed}
use proxy_rule_manager.Config.Lists.{normalize_from, normalize_string_list}
use proxy_rule_manager.Config.Lists.Laws.{
  IsNormal, IsRepresented, normalize_string_list-IsNormal, normalize_string_list-IsRepresented,
}
use proxy_rule_manager.Config.Rules.{ensure_rules}
use proxy_rule_manager.Config.Rules.Invariants.{
  HasInvariants, ensure_rules-HasInvariants, ensure_rules_of_HasInvariants,
}
use proxy_rule_manager.Logs
use proxy_rule_manager.Logs.Window.{IsWindow, Reach, here, next, added, updated, Reach-IsWindow}
use proxy_rule_manager.Tests.{ascii, sample_rules}

ensure_rules-HasInvariants_example : HasInvariants (ensure_rules sample_rules 0).0
ensure_rules-HasInvariants_example = ensure_rules-HasInvariants sample_rules 0

ensure_rules_of_HasInvariants_example :
    ensure_rules (ensure_rules sample_rules 0).0 7 ≡ ((ensure_rules sample_rules 0).0, 7)
ensure_rules_of_HasInvariants_example =
    ensure_rules_of_HasInvariants (ensure_rules sample_rules 0).0 7
      (ensure_rules-HasInvariants sample_rules 0)

abbrev names : List Text
names = codes " Codex.exe" ∷ codes " " ∷ codes "codex.EXE" ∷ codes "steam.exe" ∷ []

list_tests : normalize_string_list names ≡ codes "Codex.exe" ∷ codes "steam.exe" ∷ []
unfolding normalize_string_list normalize_from text_eq trim_space
list_tests = refl

normalize_string_list-IsNormal_example : IsNormal [] (normalize_string_list names)
normalize_string_list-IsNormal_example = normalize_string_list-IsNormal names

normalize_string_list-IsRepresented_example :
    All (IsRepresented [] (normalize_string_list names)) names
normalize_string_list-IsRepresented_example = normalize_string_list-IsRepresented names

abbrev entry : Text → TrafficLog
entry id = record {
  id = id;
  time = [];
  source = [];
  host = [];
  port = [];
  protocol = [];
  process_id = 0;
  process_name = [];
  process_path = [];
  matched_rule_type = domain;
  matched_rule_value = [];
  matched_rule_index = negsuc 0;
  target = direct;
  path = [];
  upload_bytes = 0;
  download_bytes = 0;
  duration_ms = 0;
  status = active;
  error = [];
}

abbrev close : TrafficLog → TrafficLog
close e = record e { status = closed }

-- Two entries in a store for one, and then the older entry is closed.
abbrev full_store : Logs.Store
full_store = Logs.add (entry (codes "b")) (Logs.add (entry (codes "a")) (Logs.new_store (pos 1)))

abbrev closed_store : Logs.Store
closed_store = Logs.update (codes "a") close full_store

closed_store_reached : Reach (Logs.new_store (pos 1)) closed_store
unfolding Logs.new_store Logs.add
closed_store_reached =
    next
      (next (next here (added (entry (codes "a")) (Logs.new_store (pos 1)) tt)) (
        added (entry (codes "b")) (Logs.add (entry (codes "a")) (Logs.new_store (pos 1)))
          (ground arith, tt)))
      (updated (codes "a") close full_store (λ e. refl))

store_tests :
    (full_store.entries ≡ entry (codes "b") ∷ [])
    × (closed_store.all ≡ close (entry (codes "a")) ∷ entry (codes "b") ∷ [])
    × (Logs.active_count closed_store ≡ 1)
unfolding Logs.new_store Logs.add Logs.update Logs.active_count Logs.count_active Logs.update_first
    Logs.cut text_eq
store_tests = (refl, refl, refl)

Reach-IsWindow_example : IsWindow closed_store
Reach-IsWindow_example = Reach-IsWindow (pos 1) closed_store closed_store_reached
