-- ===== src/Tun/Table/Linked.antt =====
-- Both directions of a tracked connection, where the ports of the listeners differ.
use proxy_rule_manager.Common.{
  ℕ, ◌≡◌, refl, sym, ap, subst, ◌∙◌, false, none, some, List, [], ◌∷◌, nat_beq, ◌==◌, ==-ne,
  Option-cases, Bool-cases, inl, inr, some_inj, none≢some, map,
}
use proxy_rule_manager.Common.Assoc.{lookup, remove, insert, lookup-remove}
use proxy_rule_manager.Tun.Table.{
  Connection, Table, empty_table, update, close_listener, release, register_connection, forget,
  unregister_connection, is_stale, reap_from, close_listeners, reap_stale_connections, Event,
  register, unregister, reap, accept, finish, learn, learn_interface, apply, run,
}
use proxy_rule_manager.Tun.Table.Sound.{
  At, IsSound, lookup-insert_same, lookup-insert_other, found-insert, kept-remove, ne_of_==,
  At-unique_local, same_object, At-insert,
}
use proxy_rule_manager.Tun.Table.Steps.{
  unknown, known, connection_by_local-LookedUp, update_found, update_missing, forget-IsSound,
}
use proxy_rule_manager.Tun.Table.Invariant.{
  closed_in, release_unknown, release_known, release-IsSound, entered, At-entered, At-entered_kept,
  apply-IsSound, empty_table-IsSound,
}

-- The port leads to an object, and so does the redirect port of this object.
abbrev pub Linked : Table → ℕ → ℕ → Type 0
Linked t p r = (q : ℕ) × At t.objects r p q × (lookup q t.by_redirect ≡ some r)

abbrev pub IsLinked : Table → Type 0
IsLinked t = (p r : ℕ) → lookup p t.connections ≡ some r → Linked t p r

-- But for the connection of one port.
abbrev LinkedBut : ℕ → Table → Type 0
LinkedBut p t = (p' r : ℕ) → (p == p') ≡ false → lookup p' t.connections ≡ some r → Linked t p' r

-- Two connections have redirect ports that differ.
apart :
    (t : Table) (p p' r r' : ℕ) (c : Connection)
    → IsLinked t
    → lookup p t.connections ≡ some r
    → lookup r t.objects ≡ some c
    → (p == p') ≡ false
    → (l : Linked t p' r') → (c.redirect_port == l.0) ≡ false
apart t p p' r r' c linked e f n (q', a', k') =
    let (q, a, k) = linked p r e in
    ==-ne c.redirect_port q' (λ x.
      let same = same_object t.objects refl a.found f in
      let q_eq = sym a.redirect_eq ∙ (ap (λ y. y.redirect_port) same ∙ x) in
      let r_eq = some_inj (sym k ∙ (ap (λ y. lookup y t.by_redirect) q_eq ∙ k')) in
      ne_of_== n (At-unique_local a (subst (λ y. At t.objects y p' q') (sym r_eq) a')))

drop-LinkedBut :
    (p r : ℕ) (c : Connection) (t : Table)
    → lookup p t.connections ≡ some r
    → lookup r t.objects ≡ some c
    → IsLinked t
    → LinkedBut p (record t { by_redirect = remove c.redirect_port t.by_redirect })
drop-LinkedBut p r c t e f linked p' r' n h =
    let (q', a', k') = linked p' r' h in
    let m = apart t p p' r r' c linked e f n (q', a', k') in
    (q', a', lookup-remove c.redirect_port q' t.by_redirect ∙ rw m k')

forget-IsLinked :
    (p r : ℕ) (c : Connection) (t : Table)
    → lookup p t.connections ≡ some r
    → lookup r t.objects ≡ some c
    → IsLinked t
    → IsLinked (forget p c t)
unfolding forget
forget-IsLinked p r c t e f linked p' r' h =
    let (n, k) = kept-remove p p' t.connections r' h in drop-LinkedBut p r c t e f linked p' r' n k

changed-IsLinked :
    (r : ℕ) (c d : Connection) (t : Table)
    → lookup r t.objects ≡ some c
    → d.local_port ≡ c.local_port
    → d.redirect_port ≡ c.redirect_port
    → IsLinked t
    → IsLinked (record t { objects = insert r d t.objects })
changed-IsLinked r c d t e l m linked p j h =
    let (q, a, k) = linked p j h in (q, At-insert r d c e l m a, k)

update-IsLinked :
    (r : ℕ) (f : Connection → Connection) (t : Table)
    → ((c : Connection)
        → ((f c).local_port ≡ c.local_port) × ((f c).redirect_port ≡ c.redirect_port))
    → IsLinked t
    → IsLinked (update r f t)
update-IsLinked r f t k s = elim (Option-cases (lookup r t.objects)) [
  | inl e ↦ rw (update_missing r f t e) s
  | inr (c, e) ↦ rw (update_found r f t c e) (changed-IsLinked r c (f c) t e (k c).0 (k c).1 s)
]

close-IsLinked : (r : ℕ) (t : Table) → IsLinked t → IsLinked (close_listener r t)
close-IsLinked r t s = update-IsLinked r _ t (λ c. (refl, refl)) s

release-LinkedBut : (p : ℕ) (t : Table) → IsSound t → IsLinked t → LinkedBut p (release p t)
release-LinkedBut p t s linked = elim (connection_by_local-LookedUp p t s) [
  | unknown e n ↦ rw (release_unknown p t e) (λ p' r' _ h. linked p' r' h)
  | known r c e n f a ↦ rw (release_known p r c t e f) (
      drop-LinkedBut p r (record c { listening = false }) (closed_in r c t) n
        (lookup-insert_same r _ t.objects) (changed-IsLinked r c _ t f refl refl linked))
]

entered-IsLinked :
    (c : Connection) (t : Table)
    → IsSound t
    → LinkedBut c.local_port t
    → lookup c.redirect_port t.by_redirect ≡ none
    → IsLinked (entered c t)
entered-IsLinked c t s linked fresh p r h =
    elim (found-insert c.local_port p t.next t.connections r h) [
      | inl (e, f) ↦ (
        c.redirect_port,
        subst (λ k. At (entered c t).objects k p c.redirect_port) f
            (subst (λ k. At (entered c t).objects t.next k c.redirect_port) e (At-entered c t)),
        lookup-insert_same c.redirect_port t.next t.by_redirect ∙ ap some f,
      )
      | inr (n, k) ↦
          let (q, a, l) = linked p r n k in
          let m =
            ==-ne c.redirect_port q
              (λ e. none≢some (sym fresh ∙ (ap (λ y. lookup y t.by_redirect) e ∙ l))) in
          (
            q,
            At-entered_kept c t r p q s a,
            lookup-insert_other c.redirect_port q t.next t.by_redirect m ∙ l,
          )
    ]

-- The listener of a new connection has a port that no tracked connection redirects to.
abbrev pub IsFair : Event → Table → Type 0
IsFair (register c) t = lookup c.redirect_port (release c.local_port t).by_redirect ≡ none
IsFair (unregister _) t = Unit
IsFair (reap _) t = Unit
IsFair (accept _) t = Unit
IsFair (finish _) t = Unit
IsFair (learn _ _ _) t = Unit

abbrev pub AllFair : List Event → Table → Type 0
AllFair [] t = Unit
AllFair (e ∷ events) t = IsFair e t × AllFair events (apply e t)

unregister_connection-IsLinked :
    (p : ℕ) (t : Table) → IsSound t → IsLinked t → IsLinked (unregister_connection p t)
unfolding unregister_connection
unregister_connection-IsLinked p t s linked = elim (connection_by_local-LookedUp p t s) [
  | unknown e _ ↦ rw (e, unregister_connection) linked
  | known r c e n f _ ↦
      rw (e, unregister_connection)
        (close-IsLinked r (forget p c t) (forget-IsLinked p r c t n f linked))
]

reap_from-IsLinked :
    (cutoff : ℕ) (ports : List ℕ) (t : Table)
    → IsSound t
    → IsLinked t
    → IsLinked (reap_from cutoff ports t).0
unfolding reap_from
reap_from-IsLinked cutoff [] t s linked = linked
reap_from-IsLinked cutoff (port ∷ ports) t s linked = elim (connection_by_local-LookedUp port t s) [
  | unknown e _ ↦ rw (e, reap_from) (reap_from-IsLinked cutoff ports t s linked)
  | known r c e n f _ ↦
      let gone =
        reap_from-IsLinked cutoff ports (forget port c t) (forget-IsSound port r c t n f s)
          (forget-IsLinked port r c t n f linked) in
      rw (e, reap_from)
        (elim (Bool-cases (is_stale cutoff c)) [
          | inl g ↦ rw g gone
          | inr g ↦ rw g (reap_from-IsLinked cutoff ports t s linked)
        ])
]

close_listeners-IsLinked : (rs : List ℕ) (t : Table) → IsLinked t → IsLinked (close_listeners rs t)
unfolding close_listeners
close_listeners-IsLinked [] t s = s
close_listeners-IsLinked (r ∷ rs) t s =
    close_listeners-IsLinked rs (close_listener r t) (close-IsLinked r t s)

apply-IsLinked :
    (e : Event) (t : Table) → IsFair e t → IsSound t → IsLinked t → IsLinked (apply e t)
unfolding apply
apply-IsLinked (register c) t fair s linked =
    let (u, free) = release-IsSound c.local_port t s in
    unfold register_connection in
    entered-IsLinked c (release c.local_port t) u (release-LinkedBut c.local_port t s linked) fair
apply-IsLinked (unregister port) t fair s linked = unregister_connection-IsLinked port t s linked
apply-IsLinked (reap cutoff) t fair s linked =
    let ports = map (λ e. e.0) t.connections in
    unfold reap_stale_connections in
    close_listeners-IsLinked (reap_from cutoff ports t).1 (reap_from cutoff ports t).0
      (reap_from-IsLinked cutoff ports t s linked)
apply-IsLinked (accept r) t fair s linked = update-IsLinked r _ t (λ c. (refl, refl)) linked
apply-IsLinked (finish r) t fair s linked = close-IsLinked r t linked
apply-IsLinked (learn r i j) t fair s linked =
    unfold learn_interface in update-IsLinked r _ t (λ c. (refl, refl)) linked

run-IsLinked_from :
    (events : List Event) (t : Table)
    → AllFair events t
    → IsSound t
    → IsLinked t
    → IsLinked (run events t)
unfolding run
run-IsLinked_from [] t fair s linked = linked
run-IsLinked_from (e ∷ events) t (fair, later) s linked =
    run-IsLinked_from events (apply e t) later (apply-IsSound e t s)
      (apply-IsLinked e t fair s linked)

empty_table-IsLinked : IsLinked empty_table
unfolding lookup
empty_table-IsLinked p r h = absurd (none≢some h)

-- Where each listener that is opened has a port to which no tracked connection redirects, each
-- connection that the service tracks after any sequence of events is found from both sides, by its
-- local port and by the port of its listener, and from both it is the same object.
pub run-IsLinked :
    (events : List Event) → AllFair events empty_table → IsLinked (run events empty_table)
run-IsLinked events fair =
    run-IsLinked_from events empty_table fair empty_table-IsSound empty_table-IsLinked
