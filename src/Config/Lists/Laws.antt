-- ===== src/Config/Lists/Laws.antt =====
-- normalizeStringList against the form of its result.
use proxy_rule_manager.Common.{
  Bool, true, false, ◌||◌, subst, List, [], ◌∷◌, ◌++◌, if◌then◌else◌, ◌==◌, any, ◌≡◌, ◌≢◌, refl,
  sym, ap, ◌∙◌, arith, Bool-cases, inl, inr, append_assoc, append-nil, true≢false, All, All-map,
  ==-refl,
}
use proxy_rule_manager.Text.{Text, text_beq, text_eq_iff, trim_space}
use proxy_rule_manager.Text.Laws.{text_ne}
use proxy_rule_manager.Text.Trim.{trim_space-trim_space}
use proxy_rule_manager.Platform.{Platform, to_lower}
use proxy_rule_manager.Config.Lists.{normalize_from, normalize_string_list}

module _ ⦃p : Platform⦄ where
  abbrev pub is_seen : List Text → Text → Bool
  is_seen seen key = any (λ k. k == key) seen

  -- The values that the loop keeps, with no accumulator.
  unfoldable pub fresh : List Text → List Text → List Text
  fresh seen [] = []
  fresh seen (value ∷ values) =
      let trimmed = trim_space value in
      let skipped = fresh seen values in
      let kept = trimmed ∷ fresh (to_lower trimmed ∷ seen) values in
      if trimmed == [] || is_seen seen (to_lower trimmed) then skipped else kept

  normalize_from-fresh :
      (seen out values : List Text) → normalize_from seen out values ≡ out ++ fresh seen values
  unfolding normalize_from fresh
  normalize_from-fresh seen out [] = sym (append-nil out)
  normalize_from-fresh seen out (value ∷ values) =
      let t = trim_space value in
      elim (Bool-cases (t == [] || is_seen seen (to_lower t))) [
        | inl e ↦ rw e (normalize_from-fresh seen out values)
        | inr e ↦ rw e (
            normalize_from-fresh (to_lower t ∷ seen) (out ++ t ∷ []) values
            ∙ append_assoc out (t ∷ []) (fresh (to_lower t ∷ seen) values))
      ]

  pub normalize_string_list-fresh :
      (values : List Text) → normalize_string_list values ≡ fresh [] values
  unfolding normalize_string_list
  normalize_string_list-fresh values = normalize_from-fresh [] [] values

  -- Each text is trimmed and not blank, and its lower case differs from those before it.
  abbrev pub IsNormal : List Text → List Text → Type 0
  IsNormal seen [] = Unit
  IsNormal seen (w ∷ ws) =
      (trim_space w ≡ w)
      × (w ≢ [])
      × (is_seen seen (to_lower w) ≡ false)
      × IsNormal (to_lower w ∷ seen) ws

  fresh-IsNormal : (seen values : List Text) → IsNormal seen (fresh seen values)
  unfolding fresh
  fresh-IsNormal seen [] = tt
  fresh-IsNormal seen (value ∷ values) =
      let t = trim_space value in
      elim (Bool-cases (t == [] || is_seen seen (to_lower t))) [
        | inl e ↦ rw e (fresh-IsNormal seen values)
        | inr e ↦ rw e (
          trim_space-trim_space value,
          (λ k. true≢false ((text_eq_iff t []).1 k) (ground arith)),
          ground arith,
          fresh-IsNormal (to_lower t ∷ seen) values,
        )
      ]

  fresh_of_IsNormal : (seen ws : List Text) → IsNormal seen ws → fresh seen ws ≡ ws
  unfolding fresh
  fresh_of_IsNormal seen [] h = refl
  fresh_of_IsNormal seen (w ∷ ws) (trimmed, full, new, h) = rw trimmed (
      rw (text_ne w [] full)
        (rw new (ap (λ l. w ∷ l) (fresh_of_IsNormal (to_lower w ∷ seen) ws h))))

  -- Whatever list of texts it is given, normalisation leaves texts that are trimmed and not blank,
  -- no two of them equal up to case.
  pub normalize_string_list-IsNormal :
      (values : List Text) → IsNormal [] (normalize_string_list values)
  unfolding normalize_string_list
  normalize_string_list-IsNormal values =
      rw (normalize_from-fresh [] [] values) (fresh-IsNormal [] values)

  -- A list of that form is left as it is, so a second normalisation changes nothing.
  pub normalize_string_list_of_IsNormal :
      (ws : List Text) → IsNormal [] ws → normalize_string_list ws ≡ ws
  unfolding normalize_string_list
  normalize_string_list_of_IsNormal ws h = normalize_from-fresh [] [] ws ∙ fresh_of_IsNormal [] ws h

  -- The value is blank, or its key is one of those seen or that of a text in the list.
  abbrev pub IsRepresented : List Text → List Text → Text → Type 0
  IsRepresented seen ws value =
      trim_space value ≢ []
      → (is_seen seen (to_lower (trim_space value))
          || any (λ w. to_lower w == to_lower (trim_space value)) ws)
        ≡ true

  regroup : (a b c : Bool) → ((a || b) || c) ≡ true → (b || (a || c)) ≡ true
  regroup a b c h = ground arith

  pub fresh-skip :
      (seen values : List Text) (value : Text)
      → (trim_space value == [] || is_seen seen (to_lower (trim_space value))) ≡ true
      → fresh seen (value ∷ values) ≡ fresh seen values
  unfolding fresh
  fresh-skip seen values value e = rw e

  pub fresh-keep :
      (seen values : List Text) (value : Text)
      → (trim_space value == [] || is_seen seen (to_lower (trim_space value))) ≡ false
      → fresh seen (value ∷ values)
        ≡ trim_space value ∷ fresh (to_lower (trim_space value) ∷ seen) values
  unfolding fresh
  fresh-keep seen values value e = rw e

  fresh-IsRepresented :
      (seen values : List Text) → All (IsRepresented seen (fresh seen values)) values
  fresh-IsRepresented seen [] = tt
  fresh-IsRepresented seen (value ∷ values) =
      let t = trim_space value in
      elim (Bool-cases (t == [] || is_seen seen (to_lower t))) [
        | inl e ↦
            subst (λ l. All (IsRepresented seen l) (value ∷ values))
              (sym (fresh-skip seen values value e))
              (
                (λ full. first_seen (t == []) (is_seen seen (to_lower t)) _ (text_ne t [] full) e),
                fresh-IsRepresented seen values,
              )
        | inr e ↦
            subst (λ l. All (IsRepresented seen l) (value ∷ values))
              (sym (fresh-keep seen values value e))
              (
                (λ full. last_true (is_seen seen (to_lower t)) _ _ (==-refl (to_lower t))),
                All-map (IsRepresented (to_lower t ∷ seen) (fresh (to_lower t ∷ seen) values))
                    (IsRepresented seen (t ∷ fresh (to_lower t ∷ seen) values))
                    (λ v h full. regroup (to_lower t == to_lower (trim_space v)) _ _ (h full))
                    values (fresh-IsRepresented (to_lower t ∷ seen) values),
              )
      ]
    where
      first_seen : (a b c : Bool) → a ≡ false → (a || b) ≡ true → (b || c) ≡ true
      first_seen a b c h k = ground arith

      last_true : (a b c : Bool) → b ≡ true → (a || (b || c)) ≡ true
      last_true a b c h = ground arith

  -- Every value that is not blank is equal, once trimmed and up to case, to a text of the result.
  pub normalize_string_list-IsRepresented :
      (values : List Text) → All (IsRepresented [] (normalize_string_list values)) values
  unfolding normalize_string_list
  normalize_string_list-IsRepresented values =
      rw (normalize_from-fresh [] [] values) (fresh-IsRepresented [] values)

  fresh-All :
      (P : Text → Type 0) (seen values : List Text)
      → ((value : Text) → P value → P (trim_space value))
      → All P values
      → All P (fresh seen values)
  fresh-All P seen [] stable h = unfold fresh in tt
  fresh-All P seen (value ∷ values) stable (here, h) =
      let t = trim_space value in
      elim (Bool-cases (t == [] || is_seen seen (to_lower t))) [
        | inl e ↦
            subst (All P) (sym (fresh-skip seen values value e)) (fresh-All P seen values stable h)
        | inr e ↦
            subst (All P) (sym (fresh-keep seen values value e))
              (stable value here, fresh-All P (to_lower t ∷ seen) values stable h)
      ]

  -- Where each value is represented in a list, so is each text of the normalised values.
  pub normalize_string_list-All :
      (ws values : List Text)
      → All (IsRepresented [] ws) values
      → All (IsRepresented [] ws) (normalize_string_list values)
  normalize_string_list-All ws values h =
      rw (normalize_string_list-fresh values) (
        fresh-All (IsRepresented [] ws) [] values (λ value k. rw (trim_space-trim_space value) k) h)
