-- ===== src/Monitor/Counts.antt =====
-- The counts of connections in one refresh of internal/appmonitor/service_windows.go.
use proxy_rule_manager.Common.{
  ℕ, suc, ◌+◌, ◌≡◌, refl, sym, ap, ◌∙◌, Option, none, some, List, [], ◌∷◌, if◌then◌else◌, ◌==◌,
  arith, Comparable, nat_beq, Option-cases, nat_eq_iff, subst, some_inj, none≢some, Bool-cases, inl,
  inr,
}
use proxy_rule_manager.Common.Assoc.{lookup, remove, insert, lookup-insert}
use proxy_rule_manager.Text.{Text}
use proxy_rule_manager.Platform.{Platform}
use proxy_rule_manager.Procmatch.{match_process}
use proxy_rule_manager.Monitor.{ManagedAppStatus, ProcessInfo, TcpConnection}
use proxy_rule_manager.Monitor.Refresh.{
  Counting, is_counted, match_processes, count_connection, count_connections, found_counts,
}

abbrev weigh {κ} : {V : Type κ} → (V → ℕ) → Option V → ℕ
weigh weight none = 0
weigh weight (some v) = weight v

-- A sum over the values of a map.
unfoldable pub total {ℓ κ} : {K : Type ℓ} {V : Type κ} → (V → ℕ) → List (K × V) → ℕ
total weight [] = 0
total weight ((k, v) ∷ entries) = weight v + total weight entries

module _ {ℓ κ} {K : Type ℓ} {V : Type κ} ⦃c : Comparable K⦄ (weight : V → ℕ) where
  unfoldable pub total_at : K → List (K × V) → ℕ
  total_at key [] = 0
  total_at key ((k, v) ∷ entries) =
      let rest = total_at key entries in if k == key then weight v + rest else rest

  -- Each key's weight stands in the entries once.
  abbrev pub IsOnce : List (K × V) → Type ℓ
  IsOnce entries = (key : K) → total_at key entries ≡ weigh weight (lookup key entries)

  total-remove :
      (key : K) (entries : List (K × V))
      → total weight entries ≡ total_at key entries + total weight (remove key entries)
  unfolding total total_at remove
  total-remove key [] = refl
  total-remove key ((k, v) ∷ entries) = ground (arith, total-remove key entries)

  total_at-remove :
      (key j : K) (entries : List (K × V))
      → total_at j (remove key entries) ≡ (if key == j then 0 else total_at j entries)
  unfolding total_at remove
  total_at-remove key j [] = ground arith
  total_at-remove key j ((k, v) ∷ entries) =
      ground
        (arith, total_at-remove key j entries, c.same_iff k key, c.same_iff k j, c.same_iff key j)

  pub insert-IsOnce :
      (key : K) (value : V) (entries : List (K × V))
      → IsOnce entries
      → IsOnce (insert key value entries)
  unfolding insert total_at
  insert-IsOnce key value entries once j =
      rw (total_at-remove key j entries, lookup-insert key j value entries)
        (elim (Bool-cases (key == j)) [ inl e ↦ rw e (omega arith) | inr e ↦ rw e (once j) ])

  pub total-insert :
      (key : K) (value old : V) (entries : List (K × V))
      → IsOnce entries
      → lookup key entries ≡ some old
      → total weight (insert key value entries) + weight old ≡ weight value + total weight entries
  unfolding insert total
  total-insert key value old entries once e =
      let r = total-remove key entries in let h = once key ∙ ap (weigh weight) e in omega arith

  pub total-insert_zero :
      (key : K) (value : V) (entries : List (K × V))
      → weight value ≡ 0
      → total weight entries ≡ 0
      → total weight (insert key value entries) ≡ 0
  unfolding insert total
  total-insert_zero key value entries light zero = let r = total-remove key entries in omega arith

abbrev Matched : Type 0
Matched = List (ℕ × (ManagedAppStatus × ProcessInfo))

abbrev pub active_of : ManagedAppStatus × ProcessInfo → ℕ
active_of e = e.0.active_connections

-- A map by process identifiers: each key once, with a process of that identifier.
abbrev IsByPid : Matched → Type 0
IsByPid entries =
    IsOnce active_of entries
    × ((key : ℕ) (e : ManagedAppStatus × ProcessInfo) → lookup key entries ≡ some e → e.1.pid ≡ key)

pid_insert :
    (key pid : ℕ) (e found : ManagedAppStatus × ProcessInfo)
    (o : Option (ManagedAppStatus × ProcessInfo))
    → e.1.pid ≡ pid
    → (o ≡ some found → found.1.pid ≡ key)
    → (if pid == key then some e else o) ≡ some found
    → found.1.pid ≡ key
pid_insert key pid e found o same other = elim (Bool-cases (pid == key)) [
  | inr n ↦ rw n other
  | inl n ↦ rw n (λ h. ap (λ x. x.1.pid) (sym (some_inj h)) ∙ same ∙ (nat_eq_iff pid key).0 n)
]

insert-IsByPid :
    (e : ManagedAppStatus × ProcessInfo) (pid : ℕ) (entries : Matched)
    → e.1.pid ≡ pid
    → IsByPid entries
    → IsByPid (insert pid e entries)
insert-IsByPid e pid entries same (once, keys) = (
  insert-IsOnce active_of pid e entries once,
  λ key found h.
      pid_insert key pid e found (lookup key entries) same (keys key found)
        (sym (lookup-insert pid key e entries) ∙ h),
)

module _ ⦃p : Platform⦄ where
  match_processes-IsByPid :
      (queries : List Text) (processes : List ProcessInfo)
      → IsByPid (match_processes queries processes)
        × (total active_of (match_processes queries processes) ≡ 0)
  unfolding match_processes lookup
  match_processes-IsByPid queries [] = (
    (λ key. unfold lookup total_at in refl, λ key e h. absurd (none≢some h)),
    unfold total in refl,
  )
  match_processes-IsByPid queries (proc ∷ processes) =
      let (by_pid, none_active) = match_processes-IsByPid queries processes in
      elim (Option-cases (match_process proc.name proc.path queries)) [
        | inl e ↦ rw (e, match_processes) (by_pid, none_active)
        | inr (query, e) ↦
            rw (e, match_processes)
              (
                insert-IsByPid _ proc.pid (match_processes queries processes) refl by_pid,
                total-insert_zero active_of proc.pid _ (match_processes queries processes) refl
                    none_active,
              )
      ]

abbrev IsAgreed : Counting → Type 0
IsAgreed s = IsByPid s.matched × (total active_of s.matched ≡ s.active_connections)

count_connection-IsAgreed :
    (conn : TcpConnection) (s : Counting) → IsAgreed s → IsAgreed (count_connection conn s)
unfolding count_connection
count_connection-IsAgreed conn s (by_pid, agreed) =
    elim (Option-cases (lookup conn.pid s.matched)) [
      | inl e ↦ rw (e, count_connection) (by_pid, agreed)
      | inr ((app, proc), e) ↦
          rw (e, count_connection)
            (elim (Bool-cases (is_counted conn)) [
              | inr n ↦ rw n (by_pid, agreed)
              | inl n ↦ rw n (
                insert-IsByPid _ proc.pid s.matched refl by_pid,
                (let here =
                      subst (λ k. lookup k s.matched ≡ some (app, proc))
                        (sym (by_pid.1 conn.pid (app, proc) e)) e in
                    let r =
                      total-insert active_of proc.pid
                        (record app { active_connections = suc app.active_connections }, proc)
                        (app, proc) s.matched by_pid.0 here in
                    omega (arith, agreed, r)),
              )
            ])
    ]

count_connections-IsAgreed :
    (connections : List TcpConnection) (s : Counting)
    → IsAgreed s
    → IsAgreed (count_connections connections s)
unfolding count_connections
count_connections-IsAgreed [] s agreed = agreed
count_connections-IsAgreed (conn ∷ connections) s agreed =
    count_connections-IsAgreed connections (count_connection conn s)
      (count_connection-IsAgreed conn s agreed)

module _ ⦃p : Platform⦄ where
  -- Whatever processes and connections a refresh finds, the counts that it keeps for the single
  -- applications add up to the number of connections that it reports.
  pub total-found_counts :
      (queries : List Text) (processes : List ProcessInfo) (connections : List TcpConnection)
      → total active_of (found_counts queries processes connections).matched
        ≡ (found_counts queries processes connections).active_connections
  total-found_counts queries processes connections =
      (count_connections-IsAgreed connections _ (match_processes-IsByPid queries processes)).1
