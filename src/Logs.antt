-- ===== src/Logs.antt =====
-- internal/logs/store.go. A callback of `Update` is a function on entries. The locks make each
-- operation one step, and a slice of the old array is the list of its elements.
pub mod Window
use proxy_rule_manager.Common.{
  ℕ, zero, suc, ◌+◌, ◌-◌, ◌≡◌, Bool, true, false, List, [], ◌∷◌, ◌++◌, if◌then◌else◌, ◌==◌, ltb,
  length, drop,
}
use proxy_rule_manager.Common.Int.{ℤ, pos_part, is_positive}
use proxy_rule_manager.Text.{Text, text_beq}
use proxy_rule_manager.Model.{TrafficLog, active}
use proxy_rule_manager.Model.Equality.{status_eq}

pub record Store : Type 0 where
  pub max : ℕ
  pub entries : List TrafficLog
  pub all : List TrafficLog

-- a limit that is not positive becomes 500
unfoldable pub limit : ℤ → ℕ
limit max_entries = if is_positive max_entries then pos_part max_entries else 500

-- entries[len-max:] if len > max
unfoldable pub cut {ℓ} : {A : Type ℓ} → ℕ → List A → List A
cut max entries = if ltb max (length entries) then drop (length entries - max) entries else entries

unfoldable pub new_store : ℤ → Store
unfolding limit
new_store max_entries = record { max = limit max_entries; entries = []; all = [] }

unfoldable pub set_max : ℤ → Store → Store
unfolding limit cut
set_max max_entries s = record s {
  max = limit max_entries;
  entries = cut (limit max_entries) s.entries;
}

unfoldable pub add : TrafficLog → Store → Store
unfolding cut
add entry s = record s { entries = cut s.max (s.entries ++ entry ∷ []); all = s.all ++ entry ∷ [] }

-- the loop over one of the lists: the first entry with the identifier is changed
unfoldable pub update_first : Text → (TrafficLog → TrafficLog) → List TrafficLog → List TrafficLog
update_first id mutator [] = []
update_first id mutator (entry ∷ entries) =
    let rest = update_first id mutator entries in
    if entry.id == id then mutator entry ∷ entries else entry ∷ rest

unfoldable pub update : Text → (TrafficLog → TrafficLog) → Store → Store
unfolding update_first
update id mutator s = record s {
  entries = update_first id mutator s.entries;
  all = update_first id mutator s.all;
}

unfoldable pub clear : Store → Store
clear s = record s { entries = []; all = [] }

unfoldable pub count_active : List TrafficLog → ℕ
unfolding status_eq
count_active [] = 0
count_active (entry ∷ entries) =
    let rest = count_active entries in if status_eq entry.status active then suc rest else rest

unfoldable pub active_count : Store → ℕ
unfolding count_active
active_count s = count_active s.entries
