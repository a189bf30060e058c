-- ===== src/Logs/Window.antt =====
-- The two lists of the log store and its limit, over sequences of calls.
use proxy_rule_manager.Common.{
  ℕ, zero, suc, ◌-◌, ◌≤◌, ◌<◌, ◌≡◌, ◌≢◌, List, [], ◌∷◌, ◌++◌, arith, refl, sym, ap, ◌∙◌, ◌==◌,
  Bool-cases, inl, inr, ltb, length, take, length-drop, take-append-drop, append_assoc, All,
  All-append_right, All-map, subst,
}
use proxy_rule_manager.Common.Int.{ℤ, pos, negsuc}
use proxy_rule_manager.Text.{Text, text_beq, text_eq_iff}
use proxy_rule_manager.Text.Laws.{text_ne}
use proxy_rule_manager.Model.{TrafficLog}
use proxy_rule_manager.Logs.{
  Store, limit, cut, new_store, set_max, add, update_first, update, clear,
}

-- No entry of the first list has the identifier of an entry of the second.
abbrev pub AllNew : Text → List TrafficLog → Type 0
AllNew id = All (λ e. e.id ≢ id)

abbrev pub HasUniqueIds : List TrafficLog → Type 0
HasUniqueIds [] = Unit
HasUniqueIds (e ∷ entries) = AllNew e.id entries × HasUniqueIds entries

-- `entries` are the last of `all`, at most `max` of them; the limit is positive, and identifiers
-- are unique.
pub record IsWindow (s : Store) : Type 0 where
  pub older : List TrafficLog
  pub suffix : s.all ≡ older ++ s.entries
  pub bounded : length s.entries ≤ s.max
  pub positive : 0 < s.max
  pub unique : HasUniqueIds s.all

limit_positive : (i : ℤ) → 0 < limit i
unfolding limit
limit_positive (pos zero) = omega arith
limit_positive (pos (suc n)) = omega arith
limit_positive (negsuc n) = omega arith

length-cut {ℓ} : {A : Type ℓ} (m : ℕ) (xs : List A) → length (cut m xs) ≤ m
unfolding cut
length-cut m xs = ground (arith, length-drop (length xs - m) xs)

-- What `cut` drops.
cut-suffix {ℓ} : {A : Type ℓ} (m : ℕ) (xs : List A) → (front : List A) × (xs ≡ front ++ cut m xs)
unfolding cut
cut-suffix m xs = elim (Bool-cases (ltb m (length xs))) [
  | inl e ↦ (take (length xs - m) xs, rw e (sym (take-append-drop (length xs - m) xs)))
  | inr e ↦ ([], rw e)
]

-- The limit is at least the number kept, so cutting to a limit that fits changes nothing.
pub cut_of_le {ℓ} : {A : Type ℓ} (m : ℕ) (xs : List A) → length xs ≤ m → cut m xs ≡ xs
unfolding cut
cut_of_le m xs h = ground arith

HasUniqueIds-concat :
    (entries : List TrafficLog) (e : TrafficLog)
    → HasUniqueIds entries
    → AllNew e.id entries
    → HasUniqueIds (entries ++ e ∷ [])
HasUniqueIds-concat [] e h k = (tt, tt)
HasUniqueIds-concat (q ∷ entries) e (new, h) (a, k) =
    (AllNew-concat entries e new a, HasUniqueIds-concat entries e h k)
  where
    AllNew-concat :
        (xs : List TrafficLog) (x : TrafficLog)
        → AllNew q.id xs
        → q.id ≢ x.id
        → AllNew q.id (xs ++ x ∷ [])
    AllNew-concat [] x h' d = (λ s. d (sym s), tt)
    AllNew-concat (y ∷ xs) x (b, h') d = (b, AllNew-concat xs x h' d)

pub new_store-IsWindow : (i : ℤ) → IsWindow (new_store i)
unfolding new_store
new_store-IsWindow i = record {
  older = [];
  suffix = refl;
  bounded = omega arith;
  positive = limit_positive i;
  unique = tt;
}

-- A new limit keeps the newest entries.
pub set_max-IsWindow : (i : ℤ) (s : Store) → IsWindow s → IsWindow (set_max i s)
unfolding set_max
set_max-IsWindow i s w =
    let (front, e) = cut-suffix (limit i) s.entries in
    record {
      older = w.older ++ front;
      suffix = w.suffix ∙ ap (λ l. w.older ++ l) e ∙ sym (append_assoc w.older front _);
      bounded = length-cut (limit i) s.entries;
      positive = limit_positive i;
      unique = w.unique;
    }

-- Adding an entry with a new identifier keeps the window.
pub add-IsWindow :
    (entry : TrafficLog) (s : Store) → AllNew entry.id s.all → IsWindow s → IsWindow (add entry s)
unfolding add
add-IsWindow entry s new w =
    let (front, e) = cut-suffix s.max (s.entries ++ entry ∷ []) in
    record {
      older = w.older ++ front;
      suffix =
          ap (λ l. l ++ entry ∷ []) w.suffix
          ∙ append_assoc w.older s.entries (entry ∷ [])
          ∙ ap (λ l. w.older ++ l) e
          ∙ sym (append_assoc w.older front _);
      bounded = length-cut s.max (s.entries ++ entry ∷ []);
      positive = w.positive;
      unique = HasUniqueIds-concat s.all entry w.unique new;
    }

pub clear-IsWindow : (s : Store) → IsWindow s → IsWindow (clear s)
unfolding clear
clear-IsWindow s w = record {
  older = [];
  suffix = refl;
  bounded = omega arith;
  positive = w.positive;
  unique = tt;
}

-- A callback that leaves the identifier, as every one of the program does.
abbrev pub KeepsId : (TrafficLog → TrafficLog) → Type 0
KeepsId mutator = (e : TrafficLog) → (mutator e).id ≡ e.id

module _ (id : Text) (mutator : TrafficLog → TrafficLog) where
  update_first_of_AllNew :
      (entries : List TrafficLog) → AllNew id entries → update_first id mutator entries ≡ entries
  unfolding update_first
  update_first_of_AllNew [] h = refl
  update_first_of_AllNew (e ∷ entries) (d, h) =
      rw (text_ne e.id id d) (ap (λ l. e ∷ l) (update_first_of_AllNew entries h))

  update_first-append :
      (older entries : List TrafficLog)
      → HasUniqueIds (older ++ entries)
      → (older' : List TrafficLog) × (update_first id mutator (older ++ entries)
          ≡ older' ++ update_first id mutator entries)
  unfolding update_first
  update_first-append [] entries h = ([], refl)
  update_first-append (q ∷ older) entries (new, h) = elim (Bool-cases (q.id == id)) [
    | inl e ↦
        let same = (text_eq_iff q.id id).0 e in
        let new' =
          All-map (λ x. x.id ≢ q.id) (λ x. x.id ≢ id) (λ x d k. d (k ∙ sym same)) (older ++ entries)
            new in
        (
          mutator q ∷ older,
          rw e (
              rw (
                update_first_of_AllNew entries
                  (All-append_right (λ x. x.id ≢ id) older entries new'))),
        )
    | inr e ↦
        let (older', k) = update_first-append older entries h in
        (q ∷ older', rw e (ap (λ l. q ∷ l) k))
  ]

  length-update_first :
      (entries : List TrafficLog) → length (update_first id mutator entries) ≡ length entries
  unfolding update_first
  length-update_first [] = refl
  length-update_first (e ∷ entries) = ground (arith, length-update_first entries)

  update_first-AllNew :
      (other : Text) (entries : List TrafficLog)
      → KeepsId mutator
      → AllNew other entries
      → AllNew other (update_first id mutator entries)
  unfolding update_first
  update_first-AllNew other [] keeps h = tt
  update_first-AllNew other (e ∷ entries) keeps (d, h) = elim (Bool-cases (e.id == id)) [
    | inl k ↦ rw k ((λ s. d (sym (keeps e) ∙ s)), h)
    | inr k ↦ rw k (d, update_first-AllNew other entries keeps h)
  ]

  update_first-HasUniqueIds :
      (entries : List TrafficLog)
      → KeepsId mutator
      → HasUniqueIds entries
      → HasUniqueIds (update_first id mutator entries)
  unfolding update_first
  update_first-HasUniqueIds [] keeps h = tt
  update_first-HasUniqueIds (e ∷ entries) keeps (new, h) = elim (Bool-cases (e.id == id)) [
    | inl k ↦ rw k (rw (keeps e) new, h)
    | inr k ↦
        rw k (update_first-AllNew e.id entries keeps new, update_first-HasUniqueIds entries keeps h)
  ]

-- Updating an entry keeps the window: the two lists change alike.
pub update-IsWindow :
    (id : Text) (mutator : TrafficLog → TrafficLog) (s : Store)
    → KeepsId mutator
    → IsWindow s
    → IsWindow (update id mutator s)
unfolding update
update-IsWindow id mutator s keeps w =
    let (older', e) =
      update_first-append id mutator w.older s.entries (subst HasUniqueIds w.suffix w.unique) in
    record {
      older = older';
      suffix = ap (update_first id mutator) w.suffix ∙ e;
      bounded = omega (arith, length-update_first id mutator s.entries, w.bounded);
      positive = w.positive;
      unique = update_first-HasUniqueIds id mutator s.all keeps w.unique;
    }

-- One call of the store's methods, with the identifiers that the program uses.
pub data Step : Store → Store → Type 0 where
  added : (entry : TrafficLog) (s : Store) → AllNew entry.id s.all → Step s (add entry s)
  updated :
      (id : Text) (mutator : TrafficLog → TrafficLog) (s : Store)
      → KeepsId mutator
      → Step s (update id mutator s)
  resized : (i : ℤ) (s : Store) → Step s (set_max i s)
  cleared : (s : Store) → Step s (clear s)

pub data Reach (s : Store) : Store → Type 0 where
  here : Reach s s
  next : {t u : Store} → Reach s t → Step t u → Reach s u

Step-IsWindow : {s t : Store} → Step s t → IsWindow s → IsWindow t
Step-IsWindow (added entry s new) w = add-IsWindow entry s new w
Step-IsWindow (updated id mutator s keeps) w = update-IsWindow id mutator s keeps w
Step-IsWindow (resized i s) w = set_max-IsWindow i s w
Step-IsWindow (cleared s) w = clear-IsWindow s w

Reach-IsWindow_from : {s t : Store} → IsWindow s → Reach s t → IsWindow t
Reach-IsWindow_from w here = w
Reach-IsWindow_from w (next r step) = Step-IsWindow step (Reach-IsWindow_from w r)

-- Whatever calls are made from a new store, with new identifiers for added entries and callbacks
-- that keep them: the recent entries are the newest of all entries, at most as many as the limit,
-- which is positive, and no identifier stands twice.
pub Reach-IsWindow : (i : ℤ) (s : Store) → Reach (new_store i) s → IsWindow s
Reach-IsWindow i s r = Reach-IsWindow_from (new_store-IsWindow i) r
