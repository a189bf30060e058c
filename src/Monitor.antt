-- ===== src/Monitor.antt =====
-- internal/appmonitor/service_windows.go: the connections of the managed applications, as log entries.
-- The processes, the TCP connections, the clock and the route hint come with each refresh.
pub mod Decimal
pub mod Tracking
pub mod Entries
pub mod Refresh
pub mod Counts
use proxy_rule_manager.Common.{
  ℕ, zero, suc, ◌+◌, Bool, true, false, ◌||◌, ◌&&◌, not, Option, none, some, List, [], ◌∷◌, ◌++◌,
  map, if◌then◌else◌, ◌==◌, nat_eq, length, nat_beq,
}
use proxy_rule_manager.Common.Int.{negsuc}
use proxy_rule_manager.Common.Assoc.{lookup, remove, insert}
use proxy_rule_manager.Text.{Text, codes, text_beq, is_empty}
use proxy_rule_manager.Platform.{Platform, to_lower}
use proxy_rule_manager.Model.{RuleTarget, RuleType, TrafficLog, active, closed}
use proxy_rule_manager.Model.Equality.{target_eq}
use proxy_rule_manager.Config.Lists.{normalize_string_list}
use proxy_rule_manager.Procmatch.{match_process}
use proxy_rule_manager.Logs
use Decimal.{decimal}

pub record ManagedAppStatus : Type 0 where
  pub query : Text
  pub name : Text
  pub path : Text
  pub running : Bool
  pub pid_count : ℕ
  pub active_connections : ℕ

pub record Snapshot : Type 0 where
  pub managed_apps : List ManagedAppStatus
  pub managed_process_count : ℕ
  pub managed_connection_count : ℕ

abbrev pub empty_snapshot : Snapshot
empty_snapshot = record {
  managed_apps = [];
  managed_process_count = 0;
  managed_connection_count = 0;
}

pub record ProcessInfo : Type 0 where
  pub pid : ℕ
  pub name : Text
  pub path : Text

pub record TcpConnection : Type 0 where
  pub pid : ℕ
  pub local_addr : Text
  pub local_port : ℕ
  pub remote_addr : Text
  pub remote_port : ℕ
  pub status : Text
  pub family : Text

pub record TrackedConnection : Type 0 where
  pub log_id : Text
  pub started_at : ℕ
  pub last_seen : ℕ

pub record ConnectionDetail : Type 0 where
  pub process : ProcessInfo
  pub app : ManagedAppStatus
  pub conn : TcpConnection

-- The service with the log that its two callbacks write and the number of the next identifier.
pub record Service : Type 0 where
  pub included : List Text
  pub snapshot : Snapshot
  pub tracked : List (Text × TrackedConnection)
  pub logs : Logs.Store
  pub next_id : ℕ

-- What a refresh takes from outside: the time, as a number and in RFC 3339, the milliseconds since a
-- time, and the route hint.
pub record Clock : Type 0 where
  pub now : ℕ
  pub now_text : Text
  pub since : ℕ → ℕ
  pub route_hint : Text → Text → RuleTarget × Text

abbrev bar : Text
bar = codes "|"

unfoldable pub connection_key : ConnectionDetail → Text
unfolding decimal
connection_key detail =
    decimal detail.process.pid
    ++ bar
    ++ detail.conn.local_addr
    ++ bar
    ++ decimal detail.conn.local_port
    ++ bar
    ++ detail.conn.remote_addr
    ++ bar
    ++ decimal detail.conn.remote_port
    ++ bar
    ++ detail.conn.family

unfoldable pub describe_managed_path : Clock → ProcessInfo → Text
unfolding target_eq
describe_managed_path clock proc =
    let (target, path) = clock.route_hint proc.name proc.path in
    if not (is_empty path)
    then path
    else if target_eq target RuleTarget.proxy
    then codes "进程识别 -> " ++ proc.name ++ codes " -> TUN 实验数据面"
    else codes "进程识别 -> " ++ proc.name

-- The callbacks of `updateLog`.
abbrev pub refreshed : Clock → TrackedConnection → ConnectionDetail → TrafficLog → TrafficLog
refreshed clock tracked detail item = record item {
  duration_ms = clock.since tracked.started_at;
  process_name = detail.process.name;
  process_path = detail.process.path;
  process_id = detail.process.pid;
  path = describe_managed_path clock detail.process;
}

abbrev pub finished : Clock → TrackedConnection → TrafficLog → TrafficLog
finished clock tracked item = record item {
  duration_ms = clock.since tracked.started_at;
  status = closed;
}

abbrev pub log_of : Clock → Text → ConnectionDetail → TrafficLog
log_of clock log_id detail =
    let (target, path) = clock.route_hint detail.process.name detail.process.path in
    record {
      id = log_id;
      time = clock.now_text;
      source = codes "process";
      host = detail.conn.remote_addr;
      port = decimal detail.conn.remote_port;
      protocol = codes "APP/" ++ detail.conn.family;
      process_id = detail.process.pid;
      process_name = detail.process.name;
      process_path = detail.process.path;
      matched_rule_type = RuleType.match;
      matched_rule_value = codes "APP:" ++ detail.app.query;
      matched_rule_index = negsuc 0;
      target = target;
      path = path;
      upload_bytes = 0;
      download_bytes = 0;
      duration_ms = 0;
      status = active;
      error = [];
    }

module _ ⦃p : Platform⦄ where
  -- The body of the first loop of `syncConnections`.
  unfoldable pub sync_connection : Clock → Text → ConnectionDetail → Service → Service
  unfolding lookup insert Logs.update Logs.add describe_managed_path decimal
  sync_connection clock key detail s = elim (lookup key s.tracked) [
    | some t ↦ record s {
      tracked = insert key (record t { last_seen = clock.now }) s.tracked;
      logs = Logs.update t.log_id (refreshed clock t detail) s.logs;
    }
    | none ↦ record s {
      tracked =
          insert key
            (record { log_id = p.uuid s.next_id; started_at = clock.now; last_seen = clock.now })
            s.tracked;
      logs = Logs.add (log_of clock (p.uuid s.next_id) detail) s.logs;
      next_id = suc s.next_id;
    }
  ]

  unfoldable pub sync_each : Clock → List (Text × ConnectionDetail) → Service → Service
  unfolding sync_connection
  sync_each clock [] s = s
  sync_each clock ((key, detail) ∷ current) s =
      sync_each clock current (sync_connection clock key detail s)

-- The end of one connection: its log entry is closed and it is tracked no more.
unfoldable pub finish_connection : Clock → Text → Service → Service
unfolding lookup remove Logs.update
finish_connection clock key s = elim (lookup key s.tracked) [
  | none ↦ s
  | some t ↦ record s {
    tracked = remove key s.tracked;
    logs = Logs.update t.log_id (finished clock t) s.logs;
  }
]

-- The second loop of `syncConnections`, which is the loop of `finishStaleConnections`, over the keys
-- of the tracked connections.
unfoldable pub finish_each : Clock → List (Text × ConnectionDetail) → List Text → Service → Service
unfolding finish_connection lookup
finish_each clock current [] s = s
finish_each clock current (key ∷ keys) s = elim (lookup key current) [
  | some _ ↦ finish_each clock current keys s
  | none ↦ finish_each clock current keys (finish_connection clock key s)
]

-- A nil map has no key.
unfoldable pub finish_stale_connections : Clock → List (Text × ConnectionDetail) → Service → Service
unfolding finish_each
finish_stale_connections clock current s = finish_each clock current (map (λ e. e.0) s.tracked) s

module _ ⦃p : Platform⦄ where
  unfoldable pub sync_connections : Clock → List (Text × ConnectionDetail) → Service → Service
  unfolding sync_each finish_stale_connections
  sync_connections clock current s =
      finish_stale_connections clock current (sync_each clock current s)

  unfoldable pub update_included_apps : List Text → Service → Service
  unfolding normalize_string_list
  update_included_apps included_apps s = record s { included = normalize_string_list included_apps }

-- `Stop`, once the loop has ended
unfoldable pub stop : Clock → Service → Service
unfolding finish_stale_connections
stop clock s = finish_stale_connections clock [] s
