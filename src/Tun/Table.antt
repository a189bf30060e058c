-- ===== src/Tun/Table.antt =====
-- internal/tun/service_windows.go: the connections that the redirection tracks, and the two maps by
-- which the packets find them. The maps of Go hold pointers: here numbers of objects, so that one
-- object stands in both maps and a change to it is seen through each.
pub mod Sound
pub mod Steps
pub mod Invariant
pub mod Linked
use proxy_rule_manager.Common.{
  ℕ, suc, Bool, true, false, ◌&&◌, not, Option, none, some, List, [], ◌∷◌, map, if◌then◌else◌, ltb,
  nat_beq,
}
use proxy_rule_manager.Common.Assoc.{lookup, remove, insert}
use proxy_rule_manager.Text.{Text}
use proxy_rule_manager.Platform.{Bytes}
use proxy_rule_manager.Model.{TunAppRoutingMode}

-- `redirectConnection`; of its listener only whether it is open
pub record Connection : Type 0 where
  pub process_id : ℕ
  pub process_name : Text
  pub process_path : Text
  pub query : Text
  pub profile_id : Text
  pub profile_name : Text
  pub routing_mode : TunAppRoutingMode
  pub if_idx : ℕ
  pub sub_if_idx : ℕ
  pub local_addr : Bytes
  pub local_port : ℕ
  pub remote_addr : Bytes
  pub remote_port : ℕ
  pub redirect_port : ℕ
  pub listening : Bool
  pub created_at : ℕ
  pub accepted : Bool

-- The objects that were made, the number of the next one, and `connections` and `byRedirect`.
pub record Table : Type 0 where
  pub objects : List (ℕ × Connection)
  pub next : ℕ
  pub connections : List (ℕ × ℕ)
  pub by_redirect : List (ℕ × ℕ)

-- The maps as `Start` makes them.
abbrev pub empty_table : Table
empty_table = record { objects = []; next = 0; connections = []; by_redirect = [] }

-- A change to one object, by its number.
unfoldable pub update : ℕ → (Connection → Connection) → Table → Table
unfolding lookup insert
update r change t = elim (lookup r t.objects) [
  | none ↦ t
  | some c ↦ record t { objects = insert r (change c) t.objects }
]

-- conn.listener.Close()
abbrev pub close_listener : ℕ → Table → Table
close_listener r t = update r (λ c. record c { listening = false }) t

-- The object that a map has under a port.
unfoldable pub pointed : List (ℕ × ℕ) → ℕ → Table → Option (ℕ × Connection)
unfolding lookup
pointed entries port t = elim (lookup port entries) [
  | none ↦ none
  | some r ↦ elim (lookup r t.objects) [ none ↦ none | some c ↦ some (r, c) ]
]

unfoldable pub connection_by_local : ℕ → Table → Option (ℕ × Connection)
unfolding pointed
connection_by_local port t = pointed t.connections port t

unfoldable pub connection_by_redirect : ℕ → Table → Option (ℕ × Connection)
unfolding pointed
connection_by_redirect port t = pointed t.by_redirect port t

-- The part of `registerConnection` for a connection that has the local port already.
unfoldable pub release : ℕ → Table → Table
unfolding connection_by_local update remove
release port t = elim (connection_by_local port t) [
  | none ↦ t
  | some (r, old) ↦
      let closed = close_listener r t in
      record closed { by_redirect = remove old.redirect_port closed.by_redirect }
]

-- `registerConnection` once the listener is open and the connection is made
unfoldable pub register_connection : Connection → Table → Table
unfolding release insert
register_connection conn t =
    let u = release conn.local_port t in
    record {
      objects = insert u.next conn u.objects;
      next = suc u.next;
      connections = insert conn.local_port u.next u.connections;
      by_redirect = insert conn.redirect_port u.next u.by_redirect;
    }

-- delete(s.connections, port); delete(s.byRedirect, conn.redirectPort)
unfoldable pub forget : ℕ → Connection → Table → Table
unfolding remove
forget port conn t = record t {
  connections = remove port t.connections;
  by_redirect = remove conn.redirect_port t.by_redirect;
}

unfoldable pub unregister_connection : ℕ → Table → Table
unfolding connection_by_local forget update
unregister_connection port t = elim (connection_by_local port t) [
  | none ↦ t
  | some (r, conn) ↦ close_listener r (forget port conn t)
]

abbrev pub is_stale : ℕ → Connection → Bool
is_stale cutoff conn = not conn.accepted && ltb conn.created_at cutoff

-- The loop of `reapStaleConnections` over the ports, with the connections it removed.
unfoldable pub reap_from : ℕ → List ℕ → Table → Table × List ℕ
unfolding connection_by_local forget
reap_from cutoff [] t = (t, [])
reap_from cutoff (port ∷ ports) t = elim (connection_by_local port t) [
  | none ↦ reap_from cutoff ports t
  | some (r, conn) ↦
      let kept = reap_from cutoff ports t in
      let (u, stale) = reap_from cutoff ports (forget port conn t) in
      if is_stale cutoff conn then (u, r ∷ stale) else kept
]

unfoldable pub close_listeners : List ℕ → Table → Table
unfolding update
close_listeners [] t = t
close_listeners (r ∷ rs) t = close_listeners rs (close_listener r t)

-- The cutoff is 45 seconds before now.
unfoldable pub reap_stale_connections : ℕ → Table → Table
unfolding reap_from close_listeners
reap_stale_connections cutoff t =
    let (u, stale) = reap_from cutoff (map (λ e. e.0) t.connections) t in close_listeners stale u

-- What changes the table while the service runs: `accept` is `rc.accepted.Store(true)` of
-- `serveReflectedConnection`, `finish` the closing of the listener at its end, and `learn` the
-- interface that `networkLoop` keeps with the connection.
pub data Event : Type 0 where
  register : Connection → Event
  unregister reap accept finish : ℕ → Event
  learn : ℕ → ℕ → ℕ → Event

unfoldable pub learn_interface : ℕ → ℕ → ℕ → Table → Table
unfolding update
learn_interface r if_idx sub_if_idx t =
    update r (λ c. record c { if_idx = if_idx; sub_if_idx = sub_if_idx }) t

abbrev pub mark_accepted : ℕ → Table → Table
mark_accepted r t = update r (λ c. record c { accepted = true }) t

unfoldable pub apply : Event → Table → Table
unfolding register_connection unregister_connection reap_stale_connections update learn_interface
apply (register conn) t = register_connection conn t
apply (unregister port) t = unregister_connection port t
apply (reap cutoff) t = reap_stale_connections cutoff t
apply (accept r) t = mark_accepted r t
apply (finish r) t = close_listener r t
apply (learn r if_idx sub_if_idx) t = learn_interface r if_idx sub_if_idx t

unfoldable pub run : List Event → Table → Table
unfolding apply
run [] t = t
run (e ∷ events) t = run events (apply e t)
