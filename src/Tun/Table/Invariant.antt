-- ===== src/Tun/Table/Invariant.antt =====
-- The table over a whole run of the service.
use proxy_rule_manager.Common.{
  ℕ, suc, ◌<◌, ◌≡◌, refl, sym, ap, subst, ◌∙◌, false, none, some, List, [], ◌∷◌, arith, nat_beq,
  ◌==◌, ==-ne, Bool-cases, inl, inr, none≢some, map,
}
use proxy_rule_manager.Common.Assoc.{lookup, remove, insert}
use proxy_rule_manager.Tun.Table.{
  Connection, Table, empty_table, close_listener, connection_by_local, release, register_connection,
  forget, unregister_connection, is_stale, reap_from, close_listeners, reap_stale_connections,
  Event, register, unregister, reap, accept, finish, learn, learn_interface, apply, run,
}
use proxy_rule_manager.Tun.Table.Sound.{
  At, IsSound, lookup-insert_same, lookup-insert_other, found-insert, At-allocate,
}
use proxy_rule_manager.Tun.Table.Steps.{
  unknown, known, connection_by_local-LookedUp, update_found, changed-IsSound, update-IsSound,
  Freed, drop_redirect, forget-IsSound,
}

pub close-IsSound : (r : ℕ) (t : Table) → IsSound t → IsSound (close_listener r t)
close-IsSound r t s = update-IsSound r _ t (λ c. (refl, refl)) s

-- The table in which `release` has closed the listener of a connection.
abbrev pub closed_in : ℕ → Connection → Table → Table
closed_in r c t = record t { objects = insert r (record c { listening = false }) t.objects }

pub release_unknown : (p : ℕ) (t : Table) → connection_by_local p t ≡ none → release p t ≡ t
unfolding release
release_unknown p t e = rw (e, release) refl

pub release_known :
    (p r : ℕ) (c : Connection) (t : Table)
    → connection_by_local p t ≡ some (r, c)
    → lookup r t.objects ≡ some c
    → release p t ≡ record (closed_in r c t) { by_redirect = remove c.redirect_port t.by_redirect }
unfolding release
release_known p r c t e f =
    rw (e, release) (rw (update_found r (λ x. record x { listening = false }) t c f) refl)

pub release-IsSound :
    (p : ℕ) (t : Table) → IsSound t → IsSound (release p t) × Freed p (release p t)
release-IsSound p t s = elim (connection_by_local-LookedUp p t s) [
  | unknown e n ↦ rw (release_unknown p t e) (s, λ q r h k. none≢some (sym n ∙ k))
  | known r c e n f a ↦ rw (release_known p r c t e f) (
      drop_redirect p r (record c { listening = false }) (closed_in r c t) n
        (lookup-insert_same r _ t.objects) (changed-IsSound r c _ t f refl refl s))
]

fresh-next :
    (t : Table) (r : ℕ) (c : Connection)
    → IsSound t
    → lookup r t.objects ≡ some c
    → (t.next == r) ≡ false
fresh-next t r c s h = let l = s.old r c h in ground (arith, l)

-- A connection is entered under a local port that no redirect port leads to.
abbrev pub entered : Connection → Table → Table
entered c t = record {
  objects = insert t.next c t.objects;
  next = suc t.next;
  connections = insert c.local_port t.next t.connections;
  by_redirect = insert c.redirect_port t.next t.by_redirect;
}

pub At-entered :
    (c : Connection) (t : Table) → At (entered c t).objects t.next c.local_port c.redirect_port
At-entered c t = record {
  object = c;
  found = lookup-insert_same t.next c t.objects;
  local_eq = refl;
  redirect_eq = refl;
}

pub At-entered_kept :
    (c : Connection) (t : Table) (r p q : ℕ)
    → IsSound t
    → At t.objects r p q
    → At (entered c t).objects r p q
At-entered_kept c t r p q s a = At-allocate t.next c (fresh-next t r a.object s a.found) a

old-entered :
    (c : Connection) (t : Table) (r : ℕ) (x : Connection)
    → IsSound t
    → lookup r (entered c t).objects ≡ some x
    → r < suc t.next
old-entered c t r x s h = elim (found-insert t.next r c t.objects x h) [
  | inl (e, _) ↦ omega (arith, e)
  | inr (_, k) ↦ let l = s.old r x k in omega (arith, l)
]

local-entered :
    (c : Connection) (t : Table) (p r : ℕ)
    → IsSound t
    → lookup p (entered c t).connections ≡ some r
    → (q : ℕ) × At (entered c t).objects r p q
local-entered c t p r s h = elim (found-insert c.local_port p t.next t.connections r h) [
  | inl (e, f) ↦ (
    c.redirect_port,
    subst (λ k. At (entered c t).objects k p c.redirect_port) f
        (subst (λ k. At (entered c t).objects t.next k c.redirect_port) e (At-entered c t)),
  )
  | inr (_, k) ↦ let (q, a) = s.local p r k in (q, At-entered_kept c t r p q s a)
]

redirect-entered :
    (c : Connection) (t : Table) (q r : ℕ)
    → IsSound t
    → Freed c.local_port t
    → lookup q (entered c t).by_redirect ≡ some r
    → (p : ℕ) × At (entered c t).objects r p q × (lookup p (entered c t).connections ≡ some r)
redirect-entered c t q r s free h = elim (found-insert c.redirect_port q t.next t.by_redirect r h) [
  | inl (e, f) ↦ (
    c.local_port,
    subst (λ k. At (entered c t).objects k c.local_port q) f
        (subst (λ k. At (entered c t).objects t.next c.local_port k) e (At-entered c t)),
    lookup-insert_same c.local_port t.next t.connections ∙ ap some f,
  )
  | inr (_, k) ↦
      let (p, a, l) = s.redirect q r k in
      let n =
        ==-ne c.local_port p
          (λ e. free q r k (subst (λ y. lookup y t.connections ≡ some r) (sym e) l)) in
      (
        p,
        At-entered_kept c t r p q s a,
        lookup-insert_other c.local_port p t.next t.connections n ∙ l,
      )
]

entered-IsSound :
    (c : Connection) (t : Table) → IsSound t → Freed c.local_port t → IsSound (entered c t)
entered-IsSound c t s free = record {
  old = λ r x h. old-entered c t r x s h;
  local = λ p r h. local-entered c t p r s h;
  redirect = λ q r h. redirect-entered c t q r s free h;
}

pub register_connection-IsSound :
    (c : Connection) (t : Table) → IsSound t → IsSound (register_connection c t)
unfolding register_connection
register_connection-IsSound c t s =
    let (u, free) = release-IsSound c.local_port t s in
    entered-IsSound c (release c.local_port t) u free

pub unregister_connection-IsSound :
    (p : ℕ) (t : Table) → IsSound t → IsSound (unregister_connection p t)
unfolding unregister_connection
unregister_connection-IsSound p t s = elim (connection_by_local-LookedUp p t s) [
  | unknown e _ ↦ rw (e, unregister_connection) s
  | known r c e n f _ ↦
      rw (e, unregister_connection) (close-IsSound r (forget p c t) (forget-IsSound p r c t n f s))
]

reap_from-IsSound :
    (cutoff : ℕ) (ports : List ℕ) (t : Table) → IsSound t → IsSound (reap_from cutoff ports t).0
unfolding reap_from
reap_from-IsSound cutoff [] t s = s
reap_from-IsSound cutoff (port ∷ ports) t s = elim (connection_by_local-LookedUp port t s) [
  | unknown e _ ↦ rw (e, reap_from) (reap_from-IsSound cutoff ports t s)
  | known r c e n f _ ↦
      let gone =
        reap_from-IsSound cutoff ports (forget port c t) (forget-IsSound port r c t n f s) in
      rw (e, reap_from)
        (elim (Bool-cases (is_stale cutoff c)) [
          | inl g ↦ rw g gone
          | inr g ↦ rw g (reap_from-IsSound cutoff ports t s)
        ])
]

close_listeners-IsSound : (rs : List ℕ) (t : Table) → IsSound t → IsSound (close_listeners rs t)
unfolding close_listeners
close_listeners-IsSound [] t s = s
close_listeners-IsSound (r ∷ rs) t s =
    close_listeners-IsSound rs (close_listener r t) (close-IsSound r t s)

pub apply-IsSound : (e : Event) (t : Table) → IsSound t → IsSound (apply e t)
unfolding apply
apply-IsSound (register c) t s = register_connection-IsSound c t s
apply-IsSound (unregister port) t s = unregister_connection-IsSound port t s
apply-IsSound (reap cutoff) t s =
    let ports = map (λ e. e.0) t.connections in
    unfold reap_stale_connections in
    close_listeners-IsSound (reap_from cutoff ports t).1 (reap_from cutoff ports t).0
      (reap_from-IsSound cutoff ports t s)
apply-IsSound (accept r) t s = update-IsSound r _ t (λ c. (refl, refl)) s
apply-IsSound (finish r) t s = close-IsSound r t s
apply-IsSound (learn r i j) t s =
    unfold learn_interface in update-IsSound r _ t (λ c. (refl, refl)) s

pub empty_table-IsSound : IsSound empty_table
unfolding lookup
empty_table-IsSound = record {
  old = λ r c h. absurd (none≢some h);
  local = λ p r h. absurd (none≢some h);
  redirect = λ q r h. absurd (none≢some h);
}

pub run-IsSound_from : (events : List Event) (t : Table) → IsSound t → IsSound (run events t)
unfolding run
run-IsSound_from [] t s = s
run-IsSound_from (e ∷ events) t s = run-IsSound_from events (apply e t) (apply-IsSound e t s)

-- Whatever sequence of registrations, closings, reapings, accepted connections and learned
-- interfaces the service goes through from its start, each entry of the two maps leads to an object
-- with the port that it stands under, and the object behind a redirect port is the very one that
-- the map of local ports has under the local port of that object: a reply is never rewritten for a
-- connection that is not tracked any more. This holds even where a redirect port is used again.
pub run-IsSound : (events : List Event) → IsSound (run events empty_table)
run-IsSound events = run-IsSound_from events empty_table empty_table-IsSound
