-- ===== src/Tun/Table/Steps.antt =====
-- The operations of the table keep its pointers sound.
use proxy_rule_manager.Common.{
  ℕ, ◌<◌, ◌≡◌, refl, sym, ap, subst, ◌∙◌, none, some, nat_beq, ◌==◌, ==-ne, Option-cases,
  Bool-cases, inl, inr, some_inj,
}
use proxy_rule_manager.Common.Assoc.{lookup, remove, insert, lookup-remove}
use proxy_rule_manager.Tun.Table.{Connection, Table, update, pointed, connection_by_local, forget}
use proxy_rule_manager.Tun.Table.Sound.{
  At, IsSound, lookup-insert_other, kept-remove, eq_of_==, ne_of_==, same_object, At-insert,
}

-- What a lookup finds in a sound table.
pub data LookedUp (p : ℕ) (t : Table) : Type 0 where
  unknown : connection_by_local p t ≡ none → lookup p t.connections ≡ none → LookedUp p t
  known :
      (r : ℕ) (c : Connection)
      → connection_by_local p t ≡ some (r, c)
      → lookup p t.connections ≡ some r
      → lookup r t.objects ≡ some c
      → At t.objects r p c.redirect_port
      → LookedUp p t

pub connection_by_local-LookedUp : (p : ℕ) (t : Table) → IsSound t → LookedUp p t
unfolding connection_by_local pointed
connection_by_local-LookedUp p t s = elim (Option-cases (lookup p t.connections)) [
  | inl e ↦ unknown (rw (e, pointed) refl) e
  | inr (r, e) ↦
      let (q, a) = s.local p r e in
      let c = a.object in
      known r c (rw (e, pointed) (rw (a.found, pointed) refl)) e a.found
        (record { object = c; found = a.found; local_eq = a.local_eq; redirect_eq = refl })
]

pub update_found :
    (r : ℕ) (f : Connection → Connection) (t : Table) (c : Connection)
    → lookup r t.objects ≡ some c
    → update r f t ≡ record t { objects = insert r (f c) t.objects }
unfolding update
update_found r f t c e = rw (e, update) refl

pub update_missing :
    (r : ℕ) (f : Connection → Connection) (t : Table) → lookup r t.objects ≡ none → update r f t ≡ t
unfolding update
update_missing r f t e = rw (e, update) refl

-- One object changes, its ports not.
pub changed-IsSound :
    (r : ℕ) (c d : Connection) (t : Table)
    → lookup r t.objects ≡ some c
    → d.local_port ≡ c.local_port
    → d.redirect_port ≡ c.redirect_port
    → IsSound t
    → IsSound (record t { objects = insert r d t.objects })
changed-IsSound r c d t e l m s = record {
  old = λ j x h. elim (Bool-cases (r == j)) [
    | inl n ↦ subst (λ k. k < t.next) (eq_of_== n) (s.old r c e)
    | inr n ↦ s.old j x (sym (lookup-insert_other r j d t.objects n) ∙ h)
  ];
  local = λ p j h. let (q, a) = s.local p j h in (q, At-insert r d c e l m a);
  redirect = λ q j h. let (p, a, k) = s.redirect q j h in (p, At-insert r d c e l m a, k);
}

pub update-IsSound :
    (r : ℕ) (f : Connection → Connection) (t : Table)
    → ((c : Connection)
        → ((f c).local_port ≡ c.local_port) × ((f c).redirect_port ≡ c.redirect_port))
    → IsSound t
    → IsSound (update r f t)
update-IsSound r f t k s = elim (Option-cases (lookup r t.objects)) [
  | inl e ↦ rw (update_missing r f t e) s
  | inr (c, e) ↦ rw (update_found r f t c e) (changed-IsSound r c (f c) t e (k c).0 (k c).1 s)
]

-- No redirect port leads to the connection of this port.
abbrev pub Freed : ℕ → Table → Type 0
Freed p t = (q r : ℕ) → lookup q t.by_redirect ≡ some r → lookup p t.connections ≡ some r → ⊥

pub drop_redirect :
    (p r : ℕ) (c : Connection) (t : Table)
    → lookup p t.connections ≡ some r
    → lookup r t.objects ≡ some c
    → IsSound t
    → IsSound (record t { by_redirect = remove c.redirect_port t.by_redirect })
      × Freed p (record t { by_redirect = remove c.redirect_port t.by_redirect })
drop_redirect p r c t e f s = (
  record {
    old = s.old;
    local = s.local;
    redirect = λ q j h. s.redirect q j (kept-remove c.redirect_port q t.by_redirect j h).1;
  },
  λ q j h k.
      let (n, g) = kept-remove c.redirect_port q t.by_redirect j h in
      let (p', a, _) = s.redirect q j g in
      let same = same_object t.objects (some_inj (sym e ∙ k)) f a.found in
      ne_of_== n (ap (λ x. x.redirect_port) same ∙ a.redirect_eq),
)

pub forget-IsSound :
    (p r : ℕ) (c : Connection) (t : Table)
    → lookup p t.connections ≡ some r
    → lookup r t.objects ≡ some c
    → IsSound t
    → IsSound (forget p c t)
unfolding forget
forget-IsSound p r c t e f s =
    let (d, free) = drop_redirect p r c t e f s in
    record {
      old = s.old;
      local = λ j k h. s.local j k (kept-remove p j t.connections k h).1;
      redirect = λ q j h.
          let (p', a, k) = d.redirect q j h in
          let n =
            ==-ne p p' (λ x. free q j h (subst (λ y. lookup y t.connections ≡ some j) (sym x) k)) in
          (p', a, lookup-remove p p' t.connections ∙ rw n k);
    }
