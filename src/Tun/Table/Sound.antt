-- ===== src/Tun/Table/Sound.antt =====
-- The pointers of the table: where each leads, and what the operations do to that.
use proxy_rule_manager.Common.{
  ℕ, ◌<◌, ◌≡◌, refl, sym, ap, ◌∙◌, true, false, some, List, arith, nat_beq, ◌==◌, ==-refl,
  Bool-cases, inl, inr, some_inj, none≢some, ◌⊎◌,
}
use proxy_rule_manager.Common.Assoc.{lookup, remove, insert, lookup-remove, lookup-insert}
use proxy_rule_manager.Tun.Table.{Connection, Table}

-- The object has these ports.
pub record At (objects : List (ℕ × Connection)) (r local redirect : ℕ) : Type 0 where
  pub object : Connection
  pub found : lookup r objects ≡ some object
  pub local_eq : object.local_port ≡ local
  pub redirect_eq : object.redirect_port ≡ redirect

-- Each pointer leads to an object with the port it stands under, and the object behind a redirect
-- port is the one that its local port leads to.
pub record IsSound (t : Table) : Type 0 where
  pub old : (r : ℕ) (c : Connection) → lookup r t.objects ≡ some c → r < t.next
  pub local : (p r : ℕ) → lookup p t.connections ≡ some r → (q : ℕ) × At t.objects r p q
  pub redirect :
      (q r : ℕ)
      → lookup q t.by_redirect ≡ some r
      → (p : ℕ) × At t.objects r p q × (lookup p t.connections ≡ some r)

pub lookup-insert_same {κ} :
    {V : Type κ} (key : ℕ) (value : V) (entries : List (ℕ × V))
    → lookup key (insert key value entries) ≡ some value
lookup-insert_same key value entries =
    rw (lookup-insert key key value entries) (rw (==-refl key) refl)

pub lookup-insert_other {κ} :
    {V : Type κ} (key j : ℕ) (value : V) (entries : List (ℕ × V))
    → (key == j) ≡ false
    → lookup j (insert key value entries) ≡ lookup j entries
lookup-insert_other key j value entries h = rw (lookup-insert key j value entries) (rw h refl)

-- An entry of a map from which one was deleted.
pub kept-remove {κ} :
    {V : Type κ} (key j : ℕ) (entries : List (ℕ × V)) (v : V)
    → lookup j (remove key entries) ≡ some v
    → ((key == j) ≡ false) × (lookup j entries ≡ some v)
kept-remove key j entries v h = elim (Bool-cases (key == j)) [
  | inl e ↦ absurd (none≢some (sym (lookup-remove key j entries ∙ rw e refl) ∙ h))
  | inr e ↦ (e, sym (lookup-remove key j entries ∙ rw e refl) ∙ h)
]

-- An entry of a map into which one was inserted.
pub found-insert {κ} :
    {V : Type κ} (key j : ℕ) (value : V) (entries : List (ℕ × V)) (v : V)
    → lookup j (insert key value entries) ≡ some v
    → ((key ≡ j) × (value ≡ v)) ⊎ (((key == j) ≡ false) × (lookup j entries ≡ some v))
found-insert key j value entries v h = elim (Bool-cases (key == j)) [
  | inl e ↦
      inl (ground (arith, e), some_inj (sym (lookup-insert key j value entries ∙ rw e refl) ∙ h))
  | inr e ↦ inr (e, sym (lookup-insert_other key j value entries e) ∙ h)
]

pub eq_of_== : {a b : ℕ} → (a == b) ≡ true → a ≡ b
eq_of_== h = ground (arith, h)

pub ne_of_== : {a b : ℕ} → (a == b) ≡ false → ¬ (a ≡ b)
ne_of_== h = ground (arith, h)

pub At-unique_redirect :
    {objects : List (ℕ × Connection)} {r p p' q q' : ℕ}
    → At objects r p q
    → At objects r p' q'
    → q ≡ q'
At-unique_redirect a b =
    let e = some_inj (sym a.found ∙ b.found) in
    sym a.redirect_eq ∙ ap (λ c. c.redirect_port) e ∙ b.redirect_eq

pub At-unique_local :
    {objects : List (ℕ × Connection)} {r p p' q q' : ℕ}
    → At objects r p q
    → At objects r p' q'
    → p ≡ p'
At-unique_local a b =
    let e = some_inj (sym a.found ∙ b.found) in
    sym a.local_eq ∙ ap (λ c. c.local_port) e ∙ b.local_eq

pub same_object {κ} :
    {V : Type κ} (objects : List (ℕ × V)) {s r : ℕ} {a b : V}
    → s ≡ r
    → lookup s objects ≡ some a
    → lookup r objects ≡ some b
    → a ≡ b
same_object objects e h k = cc

-- An object that is changed, its ports not.
pub At-insert :
    {objects : List (ℕ × Connection)} {r p q : ℕ} (s : ℕ) (c old : Connection)
    → lookup s objects ≡ some old
    → c.local_port ≡ old.local_port
    → c.redirect_port ≡ old.redirect_port
    → At objects r p q
    → At (insert s c objects) r p q
At-insert {objects = objects} {r = r} s c old e l m a = elim (Bool-cases (s == r)) [
  | inr n ↦ record {
    object = a.object;
    found = lookup-insert_other s r c objects n ∙ a.found;
    local_eq = a.local_eq;
    redirect_eq = a.redirect_eq;
  }
  | inl n ↦
      let same = same_object objects (eq_of_== n) e a.found in
      record {
        object = c;
        found = rw (sym (eq_of_== n)) (lookup-insert_same s c objects);
        local_eq = l ∙ (ap (λ x. x.local_port) same ∙ a.local_eq);
        redirect_eq = m ∙ (ap (λ x. x.redirect_port) same ∙ a.redirect_eq);
      }
]

-- Another object is made.
pub At-allocate :
    {objects : List (ℕ × Connection)} {r p q : ℕ} (s : ℕ) (c : Connection)
    → (s == r) ≡ false
    → At objects r p q
    → At (insert s c objects) r p q
At-allocate {objects = objects} {r = r} s c n a = record {
  object = a.object;
  found = lookup-insert_other s r c objects n ∙ a.found;
  local_eq = a.local_eq;
  redirect_eq = a.redirect_eq;
}
