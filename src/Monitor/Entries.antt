-- ===== src/Monitor/Entries.antt =====
-- The log entries of the connections that are gone.
use proxy_rule_manager.Common.{
  ◌≡◌, refl, sym, ap, subst, ◌∙◌, true, false, Option, none, some, List, [], ◌∷◌, ◌++◌,
  if◌then◌else◌, ◌==◌, map, any, true≢false, Option-cases, Bool-cases, inl, inr,
}
use proxy_rule_manager.Common.Assoc.{lookup, remove, lookup-remove, lookup-insert}
use proxy_rule_manager.Text.{Text, text_beq, text_eq_iff}
use proxy_rule_manager.Platform.{Platform}
use proxy_rule_manager.Model.{TrafficLog, TrafficStatus, closed}
use proxy_rule_manager.Logs
use proxy_rule_manager.Monitor.{
  Service, Clock, TrackedConnection, ConnectionDetail, refreshed, finished, sync_connection,
  sync_each, finish_connection, finish_each, finish_stale_connections, sync_connections,
}
use proxy_rule_manager.Monitor.Tracking.{has_key, is_found, any-keys}

-- The status of the first entry with an identifier, which is the one that updates reach.
unfoldable pub status_of : Text → List TrafficLog → Option TrafficStatus
status_of id [] = none
status_of id (entry ∷ entries) =
    let rest = status_of id entries in if entry.id == id then some entry.status else rest

-- A change to the first entry with an identifier.
module _ (f : TrafficLog → TrafficLog) (same : (e : TrafficLog) → (f e).id ≡ e.id) where
  status_of-update_found :
      (j id : Text) (entries : List TrafficLog)
      → is_found (status_of id (Logs.update_first j f entries)) ≡ is_found (status_of id entries)
  unfolding status_of Logs.update_first
  status_of-update_found j id [] = refl
  status_of-update_found j id (e ∷ entries) = elim (Bool-cases (e.id == j)) [
    | inl m ↦
        rw m
          (rw (same e) (elim (Bool-cases (e.id == id)) [ inl n ↦ rw n refl | inr n ↦ rw n refl ]))
    | inr m ↦ rw m (elim (Bool-cases (e.id == id)) [
      | inl n ↦ rw n refl
      | inr n ↦ rw n (status_of-update_found j id entries)
    ])
  ]

module _ (f : TrafficLog → TrafficLog) (same : (e : TrafficLog) → (f e).id ≡ e.id)
    (shut : (e : TrafficLog) → (f e).status ≡ closed) where
  status_of-closing :
      (id : Text) (entries : List TrafficLog)
      → is_found (status_of id entries) ≡ true
      → status_of id (Logs.update_first id f entries) ≡ some closed
  unfolding status_of Logs.update_first
  status_of-closing id [] h = absurd (true≢false refl (sym h))
  status_of-closing id (e ∷ entries) h = elim (Bool-cases (e.id == id)) [
    | inl m ↦ rw m (rw (same e) (rw m (ap some (shut e))))
    | inr m ↦ rw m (rw m (status_of-closing id entries (rw m at h)))
  ]

  status_of-closed :
      (j id : Text) (entries : List TrafficLog)
      → status_of id entries ≡ some closed
      → status_of id (Logs.update_first j f entries) ≡ some closed
  unfolding status_of Logs.update_first
  status_of-closed j id [] h = h
  status_of-closed j id (e ∷ entries) h = elim (Bool-cases (e.id == j)) [
    | inl m ↦ rw m (
        rw (same e) (elim (Bool-cases (e.id == id)) [
          | inl n ↦ rw n (ap some (shut e))
          | inr n ↦ rw n (rw n at h)
        ]))
    | inr m ↦ rw m (elim (Bool-cases (e.id == id)) [
      | inl n ↦ rw n (rw n at h)
      | inr n ↦ rw n (status_of-closed j id entries (rw n at h))
    ])
  ]

status_of-append :
    (id : Text) (entries others : List TrafficLog)
    → is_found (status_of id entries) ≡ true
    → is_found (status_of id (entries ++ others)) ≡ true
unfolding status_of
status_of-append id [] others h = absurd (true≢false refl (sym h))
status_of-append id (e ∷ entries) others h = elim (Bool-cases (e.id == id)) [
  | inl m ↦ rw m refl
  | inr m ↦ rw m (status_of-append id entries others (rw m at h))
]

-- The connection is tracked under the key, and the log has its entry.
pub record IsLogged (key : Text) (t : TrackedConnection) (s : Service) : Type 0 where
  pub tracked : lookup key s.tracked ≡ some t
  pub entry : is_found (status_of t.log_id s.logs.all) ≡ true

other_key {κ} :
    {V : Type κ} (k key : Text) (entries : List (Text × V)) (v : V)
    → lookup k entries ≡ some v
    → has_key key entries ≡ false
    → (k == key) ≡ false
other_key k key entries v e h = elim (Bool-cases (k == key)) [
  | inr n ↦ n
  | inl n ↦ absurd (
      true≢false {b = has_key key entries}
        (subst (λ j. has_key j entries ≡ true) ((text_eq_iff k key).0 n) (ap is_found e)) h)
]

finish_connection_found :
    (clock : Clock) (key : Text) (s : Service) (t : TrackedConnection)
    → lookup key s.tracked ≡ some t
    → finish_connection clock key s ≡ record s {
      tracked = remove key s.tracked;
      logs = Logs.update t.log_id (finished clock t) s.logs;
    }
unfolding finish_connection
finish_connection_found clock key s t e = rw (e, finish_connection) refl

finish_connection_missing :
    (clock : Clock) (key : Text) (s : Service)
    → lookup key s.tracked ≡ none
    → finish_connection clock key s ≡ s
unfolding finish_connection
finish_connection_missing clock key s e = rw (e, finish_connection) refl

closed-finish_connection :
    (clock : Clock) (key id : Text) (s : Service)
    → status_of id s.logs.all ≡ some closed
    → status_of id (finish_connection clock key s).logs.all ≡ some closed
unfolding Logs.update
closed-finish_connection clock key id s h = elim (Option-cases (lookup key s.tracked)) [
  | inl e ↦ rw (finish_connection_missing clock key s e) h
  | inr (t, e) ↦
      rw (finish_connection_found clock key s t e)
        (status_of-closed (finished clock t) (λ x. refl) (λ x. refl) t.log_id id s.logs.all h)
]

closed-finish_each :
    (clock : Clock) (current : List (Text × ConnectionDetail)) (keys : List Text) (id : Text)
    (s : Service)
    → status_of id s.logs.all ≡ some closed
    → status_of id (finish_each clock current keys s).logs.all ≡ some closed
unfolding finish_each
closed-finish_each clock current [] id s h = h
closed-finish_each clock current (key ∷ keys) id s h = elim (Option-cases (lookup key current)) [
  | inr (d, e) ↦ rw (e, finish_each) (closed-finish_each clock current keys id s h)
  | inl e ↦
      rw (e, finish_each)
        (closed-finish_each clock current keys id (finish_connection clock key s)
          (closed-finish_connection clock key id s h))
]

finish_connection-closed :
    (clock : Clock) (key : Text) (t : TrackedConnection) (s : Service)
    → IsLogged key t s
    → status_of t.log_id (finish_connection clock key s).logs.all ≡ some closed
unfolding Logs.update
finish_connection-closed clock key t s l =
    rw (finish_connection_found clock key s t l.tracked)
      (status_of-closing (finished clock t) (λ x. refl) (λ x. refl) t.log_id s.logs.all l.entry)

finish_connection-IsLogged :
    (clock : Clock) (k key : Text) (t : TrackedConnection) (s : Service)
    → (k == key) ≡ false
    → IsLogged key t s
    → IsLogged key t (finish_connection clock k s)
unfolding Logs.update
finish_connection-IsLogged clock k key t s n l = elim (Option-cases (lookup k s.tracked)) [
  | inl e ↦ rw (finish_connection_missing clock k s e) l
  | inr (u, e) ↦ rw (finish_connection_found clock k s u e) (record {
    tracked = lookup-remove k key s.tracked ∙ rw n l.tracked;
    entry =
        status_of-update_found (finished clock u) (λ x. refl) u.log_id t.log_id s.logs.all
        ∙ l.entry;
  })
]

finish_each-closed :
    (clock : Clock) (current : List (Text × ConnectionDetail)) (keys : List Text) (key : Text)
    (t : TrackedConnection) (s : Service)
    → has_key key current ≡ false
    → any (λ k. k == key) keys ≡ true
    → IsLogged key t s
    → status_of t.log_id (finish_each clock current keys s).logs.all ≡ some closed
unfolding finish_each
finish_each-closed clock current [] key t s h a l = absurd (true≢false refl (sym a))
finish_each-closed clock current (k ∷ keys) key t s h a l = elim (Option-cases (lookup k current)) [
  | inr (d, e) ↦
      let n = other_key k key current d e h in
      rw (e, finish_each) (finish_each-closed clock current keys key t s h (rw n at a) l)
  | inl e ↦
      rw (e, finish_each)
        (elim (Bool-cases (k == key)) [
          | inr n ↦
              finish_each-closed clock current keys key t (finish_connection clock k s) h
                (rw n at a) (finish_connection-IsLogged clock k key t s n l)
          | inl n ↦ closed-finish_each clock current keys t.log_id (finish_connection clock k s) (
              subst (λ j. status_of t.log_id (finish_connection clock j s).logs.all ≡ some closed)
                (sym ((text_eq_iff k key).0 n)) (finish_connection-closed clock key t s l))
        ])
]

finish_stale_connections-closed :
    (clock : Clock) (current : List (Text × ConnectionDetail)) (key : Text) (t : TrackedConnection)
    (s : Service)
    → has_key key current ≡ false
    → IsLogged key t s
    → status_of t.log_id (finish_stale_connections clock current s).logs.all ≡ some closed
unfolding finish_stale_connections
finish_stale_connections-closed clock current key t s h l =
    finish_each-closed clock current (map (λ e. e.0) s.tracked) key t s h
      (any-keys key s.tracked ∙ ap is_found l.tracked) l

module _ ⦃p : Platform⦄ where
  sync_connection-IsLogged :
      (clock : Clock) (k key : Text) (detail : ConnectionDetail) (t : TrackedConnection)
      (s : Service)
      → (k == key) ≡ false
      → IsLogged key t s
      → IsLogged key t (sync_connection clock k detail s)
  unfolding sync_connection Logs.update Logs.add
  sync_connection-IsLogged clock k key detail t s n l = elim (Option-cases (lookup k s.tracked)) [
    | inl e ↦
        rw (e, sync_connection)
          (record {
            tracked = lookup-insert k key _ s.tracked ∙ rw n l.tracked;
            entry = status_of-append t.log_id s.logs.all _ l.entry;
          })
    | inr (u, e) ↦
        rw (e, sync_connection)
          (record {
            tracked = lookup-insert k key _ s.tracked ∙ rw n l.tracked;
            entry =
                status_of-update_found (refreshed clock u detail) (λ x. refl) u.log_id t.log_id
                  s.logs.all
                ∙ l.entry;
          })
  ]

  sync_each-IsLogged :
      (clock : Clock) (current : List (Text × ConnectionDetail)) (key : Text)
      (t : TrackedConnection) (s : Service)
      → has_key key current ≡ false
      → IsLogged key t s
      → IsLogged key t (sync_each clock current s)
  unfolding sync_each lookup
  sync_each-IsLogged clock [] key t s h l = l
  sync_each-IsLogged clock ((k, detail) ∷ current) key t s h l = elim (Bool-cases (k == key)) [
    | inl n ↦ absurd (true≢false refl (rw n at h))
    | inr n ↦
        sync_each-IsLogged clock current key t (sync_connection clock k detail s) (rw n at h)
          (sync_connection-IsLogged clock k key detail t s n l)
  ]

  -- A connection that is tracked and has its entry in the log, and that a refresh does not find any
  -- more, has its entry closed by that refresh: among all entries, the first with its identifier has
  -- the status CLOSED afterwards.
  pub sync_connections-closed :
      (clock : Clock) (current : List (Text × ConnectionDetail)) (key : Text)
      (t : TrackedConnection) (s : Service)
      → IsLogged key t s
      → has_key key current ≡ false
      → status_of t.log_id (sync_connections clock current s).logs.all ≡ some closed
  unfolding sync_connections
  sync_connections-closed clock current key t s l h =
      finish_stale_connections-closed clock current key t (sync_each clock current s) h
        (sync_each-IsLogged clock current key t s h l)
