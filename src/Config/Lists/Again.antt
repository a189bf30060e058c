-- ===== src/Config/Lists/Again.antt =====
-- Lists that are normalised in parts and then again as a whole.
use proxy_rule_manager.Common.{
  Bool, true, false, ◌||◌, List, [], ◌∷◌, ◌++◌, ◌==◌, ◌≡◌, refl, sym, ap, ◌∙◌, arith, Bool-cases,
  inl, inr, subst, true≢false,
}
use proxy_rule_manager.Text.{Text, text_beq, text_eq_iff, trim_space}
use proxy_rule_manager.Text.Trim.{trim_space-trim_space}
use proxy_rule_manager.Platform.{Platform, to_lower}
use proxy_rule_manager.Config.Lists.{normalize_string_list}
use proxy_rule_manager.Config.Lists.Laws.{
  is_seen, fresh, fresh-skip, fresh-keep, normalize_string_list-fresh,
}

module _ ⦃p : Platform⦄ where
  -- Every key of the first list is one of the second.
  abbrev Covers : List Text → List Text → Type 0
  Covers seen more = (key : Text) → is_seen seen key ≡ true → is_seen more key ≡ true

  Covers-cons : (seen more : List Text) (k : Text) → Covers seen more → Covers (k ∷ seen) (k ∷ more)
  Covers-cons seen more k c key h = elim (Bool-cases (is_seen seen key)) [
    | inl e ↦ let f = c key e in ground (arith, f)
    | inr e ↦ ground (arith, h, e)
  ]

  Covers-drop :
      (seen more : List Text) (k : Text)
      → is_seen more k ≡ true
      → Covers seen more
      → Covers (k ∷ seen) more
  Covers-drop seen more k h c key g = elim (Bool-cases (k == key)) [
    | inl e ↦ subst (λ x. is_seen more x ≡ true) ((text_eq_iff k key).0 e) h
    | inr e ↦ c key (ground (arith, g, e))
  ]

  skip_more :
      (seen more : List Text) (b : Bool) (key : Text)
      → Covers seen more
      → (b || is_seen seen key) ≡ true
      → (b || is_seen more key) ≡ true
  skip_more seen more true key c h = refl
  skip_more seen more false key c h = c key h

  -- A text that is trimmed already.
  again-skip :
      (more rest : List Text) (value : Text)
      → (trim_space value == [] || is_seen more (to_lower (trim_space value))) ≡ true
      → fresh more (trim_space value ∷ rest) ≡ fresh more rest
  again-skip more rest value h =
      fresh-skip more rest (trim_space value) (rw (trim_space-trim_space value) h)

  again-keep :
      (more rest : List Text) (value : Text)
      → (trim_space value == [] || is_seen more (to_lower (trim_space value))) ≡ false
      → fresh more (trim_space value ∷ rest)
        ≡ trim_space value ∷ fresh (to_lower (trim_space value) ∷ more) rest
  again-keep more rest value h =
      fresh-keep more rest (trim_space value) (rw (trim_space-trim_space value) h)
      ∙ rw (trim_space-trim_space value) refl

  or_right : (a b : Bool) → (a || b) ≡ true → (a || false) ≡ false → b ≡ true
  or_right a b h k = ground arith

  or_left : (a b : Bool) → (a || b) ≡ false → (a || false) ≡ false
  or_left a b h = ground arith

  pub fresh-fresh_append :
      (seen more values rest : List Text)
      → Covers seen more
      → fresh more (fresh seen values ++ rest) ≡ fresh more (values ++ rest)
  fresh-fresh_append seen more [] rest c = unfold fresh in refl
  fresh-fresh_append seen more (value ∷ values) rest c =
      let t = trim_space value in
      let key = to_lower t in
      elim (Bool-cases (t == [] || is_seen seen key)) [
        | inl e ↦
            ap (λ l. fresh more (l ++ rest)) (fresh-skip seen values value e)
            ∙ fresh-fresh_append seen more values rest c
            ∙ sym (fresh-skip more (values ++ rest) value (skip_more seen more (t == []) key c e))
        | inr e ↦
            ap (λ l. fresh more (l ++ rest)) (fresh-keep seen values value e)
            ∙ elim (Bool-cases (t == [] || is_seen more key)) [
              | inl g ↦
                  again-skip more (fresh (key ∷ seen) values ++ rest) value g
                  ∙ fresh-fresh_append (key ∷ seen) more values rest
                      (Covers-drop seen more key (or_right (t == []) _ g (or_left (t == []) _ e)) c)
                  ∙ sym (fresh-skip more (values ++ rest) value g)
              | inr g ↦
                  again-keep more (fresh (key ∷ seen) values ++ rest) value g
                  ∙ ap (λ l. t ∷ l)
                      (fresh-fresh_append (key ∷ seen) (key ∷ more) values rest
                        (Covers-cons seen more key c))
                  ∙ sym (fresh-keep more (values ++ rest) value g)
            ]
      ]

  -- Skipping in front: lists that agree after any keys.
  pub fresh-append :
      (values rest others : List Text)
      → ((more : List Text) → fresh more rest ≡ fresh more others)
      → (more : List Text) → fresh more (values ++ rest) ≡ fresh more (values ++ others)
  fresh-append [] rest others h more = h more
  fresh-append (value ∷ values) rest others h more =
      let t = trim_space value in
      elim (Bool-cases (t == [] || is_seen more (to_lower t))) [
        | inl e ↦
            fresh-skip more (values ++ rest) value e
            ∙ fresh-append values rest others h more
            ∙ sym (fresh-skip more (values ++ others) value e)
        | inr e ↦
            fresh-keep more (values ++ rest) value e
            ∙ ap (λ l. t ∷ l) (fresh-append values rest others h (to_lower t ∷ more))
            ∙ sym (fresh-keep more (values ++ others) value e)
      ]

  pub fresh-normalize_append :
      (values rest : List Text) (more : List Text)
      → fresh more (normalize_string_list values ++ rest) ≡ fresh more (values ++ rest)
  fresh-normalize_append values rest more =
      ap (λ l. fresh more (l ++ rest)) (normalize_string_list-fresh values)
      ∙ fresh-fresh_append [] more values rest (λ key h. absurd (true≢false h refl))
