-- ===== src/Monitor/Refresh.antt =====
-- One refresh of the monitor: the managed processes, their connections and the snapshot.
use proxy_rule_manager.Common.{
  ℕ, suc, ◌+◌, Bool, true, false, ◌||◌, ◌&&◌, not, Option, none, some, List, [], ◌∷◌, map,
  if◌then◌else◌, ◌==◌, nat_eq, length, nat_beq,
}
use proxy_rule_manager.Common.Assoc.{lookup, insert}
use proxy_rule_manager.Text.{Text, codes, text_beq, is_empty}
use proxy_rule_manager.Platform.{Platform, to_lower}
use proxy_rule_manager.Procmatch.{match_process}
use proxy_rule_manager.Monitor.{
  ManagedAppStatus, empty_snapshot, ProcessInfo, TcpConnection, ConnectionDetail, Service, Clock,
  connection_key, finish_stale_connections, sync_connections,
}

module _ ⦃p : Platform⦄ where
  -- `matchProcesses`: both maps in one, since they have the same keys. The processes are the values
  -- of a map by their identifiers, so no two have the same one.
  unfoldable pub match_processes :
      List Text → List ProcessInfo → List (ℕ × (ManagedAppStatus × ProcessInfo))
  unfolding match_process insert
  match_processes queries [] = []
  match_processes queries (proc ∷ processes) =
      let rest = match_processes queries processes in
      elim (match_process proc.name proc.path queries) [
        | none ↦ rest
        | some query ↦
            insert proc.pid
              (
                record {
                  query = query;
                  name = proc.name;
                  path = proc.path;
                  running = true;
                  pid_count = 1;
                  active_connections = 0;
                },
                proc,
              )
              rest
      ]

-- The test of `refresh` for a connection that has a remote end.
abbrev pub is_counted : TcpConnection → Bool
is_counted conn =
    not (
      nat_eq conn.remote_port 0
      || is_empty conn.remote_addr
      || conn.remote_addr == codes "0.0.0.0"
      || conn.remote_addr == codes "::")
    && not (conn.status == codes "LISTEN")

-- The loop of `refresh` over the connections.
pub record Counting : Type 0 where
  pub matched : List (ℕ × (ManagedAppStatus × ProcessInfo))
  pub current : List (Text × ConnectionDetail)
  pub active_connections : ℕ

unfoldable pub count_connection : TcpConnection → Counting → Counting
unfolding lookup insert connection_key
count_connection conn s = elim (lookup conn.pid s.matched) [
  | none ↦ s
  | some (app, proc) ↦
      let counted : ManagedAppStatus = record app {
        active_connections = suc app.active_connections;
      } in
      let detail : ConnectionDetail = record { process = proc; app = counted; conn = conn } in
      if is_counted conn
      then record {
        matched = insert proc.pid (counted, proc) s.matched;
        current = insert (connection_key detail) detail s.current;
        active_connections = suc s.active_connections;
      }
      else s
]

unfoldable pub count_connections : List TcpConnection → Counting → Counting
unfolding count_connection
count_connections [] s = s
count_connections (conn ∷ connections) s = count_connections connections (count_connection conn s)

-- `collapseManagedApps`: the loop over the queries, then that over the matched applications, which
-- changes the item of each one's query through its pointer.
module _ ⦃p : Platform⦄ where
  abbrev new_item : Text → ManagedAppStatus
  new_item query = record {
    query = query;
    name = [];
    path = [];
    running = false;
    pid_count = 0;
    active_connections = 0;
  }

  unfoldable pub index_queries :
      List Text → List (Text × ManagedAppStatus) → List (Text × ManagedAppStatus)
  unfolding insert
  index_queries [] index = index
  index_queries (query ∷ queries) index =
      index_queries queries (insert (to_lower query) (new_item query) index)

  abbrev pub merge : ManagedAppStatus → ManagedAppStatus → ManagedAppStatus
  merge app target = record target {
    running = true;
    pid_count = suc target.pid_count;
    active_connections = target.active_connections + app.active_connections;
    name = if is_empty target.name then app.name else target.name;
    path = if is_empty target.path then app.path else target.path;
  }

  -- The item under a key, a new one where there is none.
  abbrev pub item_for : Text → List (Text × ManagedAppStatus) → ManagedAppStatus
  item_for query index = elim (lookup (to_lower query) index) [
    | some item ↦ item
    | none ↦ new_item query
  ]

  unfoldable pub merge_apps :
      List ManagedAppStatus → List (Text × ManagedAppStatus) → List (Text × ManagedAppStatus)
  unfolding insert lookup
  merge_apps [] index = index
  merge_apps (app ∷ apps) index =
      merge_apps apps (insert (to_lower app.query) (merge app (item_for app.query index)) index)

  unfoldable pub collapse_managed_apps : List Text → List ManagedAppStatus → List ManagedAppStatus
  unfolding index_queries merge_apps lookup
  collapse_managed_apps queries matched =
      let index = merge_apps matched (index_queries queries []) in
      map (λ query. item_for query index) queries

  -- The counts of `refresh` over the processes and the connections that it read.
  abbrev pub found_counts : List Text → List ProcessInfo → List TcpConnection → Counting
  found_counts queries processes connections =
      count_connections connections (record {
        matched = match_processes queries processes;
        current = [];
        active_connections = 0;
      })

  -- What a refresh reads: `none` where the system gives no list.
  unfoldable pub refresh :
      Clock → Option (List ProcessInfo) → Option (List TcpConnection) → Service → Service
  unfolding sync_connections finish_stale_connections match_processes count_connections
      collapse_managed_apps
  refresh clock processes connections s = elim s.included [
    | [] ↦ finish_stale_connections clock [] (record s { snapshot = empty_snapshot })
    | query ∷ queries ↦ elim processes [
      | none ↦ s
      | some procs ↦ elim connections [
        | none ↦ s
        | some conns ↦
            let counts = found_counts (query ∷ queries) procs conns in
            sync_connections clock counts.current (record s {
              snapshot = record {
                managed_apps =
                    collapse_managed_apps (query ∷ queries) (map (λ e. e.1.0) counts.matched);
                managed_process_count = length counts.matched;
                managed_connection_count = counts.active_connections;
              };
            })
      ]
    ]
  ]
