-- ===== src/Monitor/Tracking.antt =====
-- The tracked connections against those that a refresh found.
use proxy_rule_manager.Common.{
  ◌≡◌, refl, sym, ap, subst, ◌∙◌, Bool, true, false, ◌||◌, ◌&&◌, not, Option, none, some, List, [],
  ◌∷◌, if◌then◌else◌, ◌==◌, map, any, arith, Option-cases, Bool-cases, inl, inr,
}
use proxy_rule_manager.Common.Assoc.{lookup, remove, insert, lookup-remove, lookup-insert}
use proxy_rule_manager.Text.{Text, text_beq, text_eq_iff}
use proxy_rule_manager.Platform.{Platform}
use proxy_rule_manager.Monitor.{
  Service, Clock, ConnectionDetail, sync_connection, sync_each, finish_connection, finish_each,
  finish_stale_connections, sync_connections,
}

abbrev pub is_found {κ} : {V : Type κ} → Option V → Bool
is_found none = false
is_found (some _) = true

-- The map has the key.
abbrev pub has_key {κ} : {V : Type κ} → Text → List (Text × V) → Bool
has_key key entries = is_found (lookup key entries)

module _ {κ} {V : Type κ} where
  found-some :
      (b : Bool) (v : V) (o : Option V) → is_found (if b then some v else o) ≡ (b || is_found o)
  found-some true v o = refl
  found-some false v o = refl

  found-none : (b : Bool) (o : Option V) → is_found (if b then none else o) ≡ (not b && is_found o)
  found-none true o = refl
  found-none false o = refl

  has_key-insert :
      (key j : Text) (value : V) (entries : List (Text × V))
      → has_key j (insert key value entries) ≡ (key == j || has_key j entries)
  has_key-insert key j value entries =
      ap is_found (lookup-insert key j value entries)
      ∙ found-some (key == j) value (lookup j entries)

  has_key-remove :
      (key j : Text) (entries : List (Text × V))
      → has_key j (remove key entries) ≡ (not (key == j) && has_key j entries)
  has_key-remove key j entries =
      ap is_found (lookup-remove key j entries) ∙ found-none (key == j) (lookup j entries)

  has_key-cons :
      (key j : Text) (value : V) (entries : List (Text × V))
      → has_key j ((key, value) ∷ entries) ≡ (key == j || has_key j entries)
  unfolding lookup
  has_key-cons key j value entries = found-some (key == j) value (lookup j entries)

  -- A key among those of the entries.
  pub any-keys :
      (j : Text) (entries : List (Text × V))
      → any (λ k. k == j) (map (λ e. e.0) entries) ≡ has_key j entries
  any-keys j [] = unfold lookup in refl
  any-keys j ((k, v) ∷ entries) =
      ap (λ b. k == j || b) (any-keys j entries) ∙ sym (has_key-cons k j v entries)

module _ ⦃p : Platform⦄ where
  has_key-sync_connection :
      (clock : Clock) (key : Text) (detail : ConnectionDetail) (s : Service) (j : Text)
      → has_key j (sync_connection clock key detail s).tracked ≡ (key == j || has_key j s.tracked)
  unfolding sync_connection
  has_key-sync_connection clock key detail s j = elim (Option-cases (lookup key s.tracked)) [
    | inl e ↦ rw (e, sync_connection) (has_key-insert key j _ s.tracked)
    | inr (t, e) ↦ rw (e, sync_connection) (has_key-insert key j _ s.tracked)
  ]

  or_rotate : (a b c : Bool) → (b || (a || c)) ≡ ((a || b) || c)
  or_rotate a b c = ground arith

  has_key-sync_each :
      (clock : Clock) (current : List (Text × ConnectionDetail)) (s : Service) (j : Text)
      → has_key j (sync_each clock current s).tracked ≡ (has_key j current || has_key j s.tracked)
  unfolding sync_each
  has_key-sync_each clock [] s j = unfold lookup in refl
  has_key-sync_each clock ((key, detail) ∷ current) s j =
      has_key-sync_each clock current (sync_connection clock key detail s) j
      ∙ ap (λ b. has_key j current || b) (has_key-sync_connection clock key detail s j)
      ∙ or_rotate (key == j) (has_key j current) (has_key j s.tracked)
      ∙ ap (λ b. b || has_key j s.tracked) (sym (has_key-cons key j detail current))

has_key-finish_connection :
    (clock : Clock) (key : Text) (s : Service) (j : Text)
    → has_key j (finish_connection clock key s).tracked ≡ (not (key == j) && has_key j s.tracked)
unfolding finish_connection
has_key-finish_connection clock key s j = elim (Option-cases (lookup key s.tracked)) [
  | inl e ↦
      rw (e, finish_connection)
        (elim (Bool-cases (key == j)) [
          | inr n ↦ rw n refl
          | inl n ↦
              rw n
                (subst (λ k. has_key k s.tracked ≡ false) ((text_eq_iff key j).0 n) (ap is_found e))
        ])
  | inr (t, e) ↦ rw (e, finish_connection) (has_key-remove key j s.tracked)
]

-- A key stays if it is one of those found, or not one of those that the loop goes through.
keep_step :
    (m n c h : Bool) → (m ≡ true → c ≡ true) → ((not n || c) && h) ≡ ((not (m || n) || c) && h)
keep_step true n c h k = let e = k refl in ground (arith, e)
keep_step false n c h k = refl

gone_step :
    (m n c h : Bool)
    → (m ≡ true → c ≡ false)
    → ((not n || c) && (not m && h)) ≡ ((not (m || n) || c) && h)
gone_step true n c h k = let e = k refl in ground (arith, e)
gone_step false n c h k = refl

same_key {κ} :
    {V : Type κ} (key j : Text) (entries : List (Text × V)) (o : Option V)
    → lookup key entries ≡ o
    → (key == j) ≡ true
    → has_key j entries ≡ is_found o
same_key key j entries o e m =
    subst (λ k. has_key k entries ≡ is_found o) ((text_eq_iff key j).0 m) (ap is_found e)

pub has_key-finish_each :
    (clock : Clock) (current : List (Text × ConnectionDetail)) (keys : List Text) (s : Service)
    (j : Text)
    → has_key j (finish_each clock current keys s).tracked
      ≡ ((not (any (λ k. k == j) keys) || has_key j current) && has_key j s.tracked)
unfolding finish_each
has_key-finish_each clock current [] s j = refl
has_key-finish_each clock current (key ∷ keys) s j =
    let n = any (λ k. k == j) keys in
    elim (Option-cases (lookup key current)) [
      | inr (d, e) ↦
          rw (e, finish_each)
            (has_key-finish_each clock current keys s j
              ∙ keep_step (key == j) n (has_key j current) (has_key j s.tracked)
                  (same_key key j current _ e))
      | inl e ↦
          rw (e, finish_each)
            (has_key-finish_each clock current keys (finish_connection clock key s) j
              ∙ ap (λ b. (not n || has_key j current) && b)
                  (has_key-finish_connection clock key s j)
              ∙ gone_step (key == j) n (has_key j current) (has_key j s.tracked)
                  (same_key key j current _ e))
    ]

has_key-finish_stale_connections :
    (clock : Clock) (current : List (Text × ConnectionDetail)) (s : Service) (j : Text)
    → has_key j (finish_stale_connections clock current s).tracked
      ≡ (has_key j current && has_key j s.tracked)
unfolding finish_stale_connections
has_key-finish_stale_connections clock current s j =
    has_key-finish_each clock current (map (λ e. e.0) s.tracked) s j
    ∙ ap (λ b. (not b || has_key j current) && has_key j s.tracked) (any-keys j s.tracked)
    ∙ both (has_key j current) (has_key j s.tracked)
  where
    both : (c h : Bool) → ((not h || c) && h) ≡ (c && h)
    both c h = ground arith

module _ ⦃p : Platform⦄ where
  absorb : (c h : Bool) → (c && (c || h)) ≡ c
  absorb c h = ground arith

  -- Whatever was tracked before, after a refresh that found some connections the service tracks
  -- exactly these: each of them, and no other.
  pub has_key-sync_connections :
      (clock : Clock) (current : List (Text × ConnectionDetail)) (s : Service) (key : Text)
      → has_key key (sync_connections clock current s).tracked ≡ has_key key current
  unfolding sync_connections
  has_key-sync_connections clock current s key =
      has_key-finish_stale_connections clock current (sync_each clock current s) key
      ∙ ap (λ b. has_key key current && b) (has_key-sync_each clock current s key)
      ∙ absorb (has_key key current) (has_key key s.tracked)
