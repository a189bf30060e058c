-- ===== src/Tests/Monitoring.antt =====
-- Concrete runs of the monitor of connections.
use proxy_rule_manager.Common.{◌≡◌, true, some, [], ◌∷◌, refl}
use proxy_rule_manager.Common.Int.{pos}
use proxy_rule_manager.Common.Assoc.{lookup, insert, remove}
use proxy_rule_manager.Text.{codes, text_eq}
use proxy_rule_manager.Model.{proxy, closed}
use proxy_rule_manager.Logs
use proxy_rule_manager.Monitor.{
  Clock, Service, ConnectionDetail, TrackedConnection, empty_snapshot, sync_connection,
  sync_connections, connection_key,
}
use proxy_rule_manager.Monitor.Decimal.{decimal, digits}
use proxy_rule_manager.Monitor.Tracking.{has_key, has_key-sync_connections}
use proxy_rule_manager.Monitor.Entries.{IsLogged, status_of, sync_connections-closed}
use proxy_rule_manager.Monitor.Refresh.{found_counts}
use proxy_rule_manager.Monitor.Counts.{total, active_of, total-found_counts}
use proxy_rule_manager.Tests.{ascii}

abbrev clock : Clock
clock = record {
  now = 50;
  now_text = codes "t";
  since = λ started. started;
  route_hint = λ _ _. (proxy, codes "path");
}

abbrev detail : ConnectionDetail
detail = record {
  process = record { pid = 7; name = codes "a.exe"; path = [] };
  app = record {
    query = codes "a.exe";
    name = codes "a.exe";
    path = [];
    running = true;
    pid_count = 1;
    active_connections = 1;
  };
  conn = record {
    pid = 7;
    local_addr = codes "10.0.0.1";
    local_port = 5000;
    remote_addr = codes "93.184.216.34";
    remote_port = 443;
    status = codes "ESTABLISHED";
    family = codes "TCP4";
  };
}

key_tests : connection_key detail ≡ codes "7|10.0.0.1|5000|93.184.216.34|443|TCP4"
unfolding connection_key decimal digits
key_tests = refl

abbrev nothing_seen : Service
nothing_seen = record {
  included = codes "a.exe" ∷ [];
  snapshot = empty_snapshot;
  tracked = [];
  logs = Logs.new_store (pos 10);
  next_id = 0;
}

abbrev seen : Service
seen = sync_connection clock (codes "k") detail nothing_seen

abbrev tracked : TrackedConnection
tracked = record { log_id = 0 ∷ []; started_at = 50; last_seen = 50 }

seen-IsLogged : IsLogged (codes "k") tracked seen
unfolding sync_connection lookup insert remove Logs.add Logs.new_store status_of text_eq
seen-IsLogged = record { tracked = refl; entry = refl }

has_key-sync_connections_example :
    has_key (codes "j") (sync_connections clock ((codes "j", detail) ∷ []) seen).tracked
    ≡ has_key (codes "j") ((codes "j", detail) ∷ [])
has_key-sync_connections_example =
    has_key-sync_connections clock ((codes "j", detail) ∷ []) seen (codes "j")

sync_connections-closed_example :
    status_of (0 ∷ []) (sync_connections clock ((codes "j", detail) ∷ []) seen).logs.all
    ≡ some closed
unfolding lookup text_eq
sync_connections-closed_example =
    sync_connections-closed clock ((codes "j", detail) ∷ []) (codes "k") tracked seen seen-IsLogged
      refl

total-found_counts_example :
    total active_of
      (found_counts (codes "a.exe" ∷ []) (detail.process ∷ []) (detail.conn ∷ [])).matched
    ≡ (found_counts
        (codes "a.exe" ∷ [])
        (detail.process ∷ [])
        (detail.conn ∷ [])).active_connections
total-found_counts_example =
    total-found_counts (codes "a.exe" ∷ []) (detail.process ∷ []) (detail.conn ∷ [])
