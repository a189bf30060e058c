-- ===== src/Text/Trim.antt =====
-- What trimming leaves.
use proxy_rule_manager.Common.{
  ℕ, ◌≡◌, Bool, false, ◌&&◌, [], ◌∷◌, arith, refl, Bool-cases, inl, inr,
}
use proxy_rule_manager.Text.{Text, is_empty, trim_left, trim_right, trim, is_space, trim_space}

module _ (p : ℕ → Bool) where
  -- No cut character at the left end, none at the right end.
  abbrev pub Left : Text → Type 0
  Left [] = Unit
  Left (c ∷ s) = p c ≡ false

  abbrev pub Right : Text → Type 0
  Right [] = Unit
  Right (c ∷ []) = p c ≡ false
  Right (c ∷ (d ∷ s)) = Right (d ∷ s)

  trim_left-Left : (s : Text) → Left (trim_left p s)
  unfolding trim_left
  trim_left-Left [] = tt
  trim_left-Left (c ∷ s) = ground (arith, trim_left-Left s)

  trim_left_of_Left : (s : Text) → Left s → trim_left p s ≡ s
  unfolding trim_left
  trim_left_of_Left [] h = refl
  trim_left_of_Left (c ∷ s) h = rw h

  Right-cons : (c : ℕ) (s : Text) → Right s → (is_empty s && p c) ≡ false → Right (c ∷ s)
  Right-cons c [] h e = e
  Right-cons c (d ∷ s) h e = h

  trim_right-Right : (s : Text) → Right (trim_right p s)
  unfolding trim_right
  trim_right-Right [] = tt
  trim_right-Right (c ∷ s) = elim (Bool-cases (is_empty (trim_right p s) && p c)) [
    | inl e ↦ rw e tt
    | inr e ↦ rw e (Right-cons c (trim_right p s) (trim_right-Right s) e)
  ]

  trim_right_of_Right : (s : Text) → Right s → trim_right p s ≡ s
  unfolding trim_right
  trim_right_of_Right [] h = refl
  trim_right_of_Right (c ∷ []) h = rw h
  trim_right_of_Right (c ∷ (d ∷ s)) h = rw (trim_right_of_Right (d ∷ s) h)

  trim_right-Left : (s : Text) → Left s → Left (trim_right p s)
  unfolding trim_right
  trim_right-Left [] h = tt
  trim_right-Left (c ∷ s) h = ground arith

  pub trim-Left : (s : Text) → Left (trim p s)
  unfolding trim
  trim-Left s = trim_right-Left (trim_left p s) (trim_left-Left s)

  pub trim-Right : (s : Text) → Right (trim p s)
  unfolding trim
  trim-Right s = trim_right-Right (trim_left p s)

  -- A text with nothing to cut at its ends is left as it is.
  pub trim_of_ends : (s : Text) → Left s → Right s → trim p s ≡ s
  unfolding trim
  trim_of_ends s l r = rw (trim_left_of_Left s l) (trim_right_of_Right s r)

  pub trim-trim : (s : Text) → trim p (trim p s) ≡ trim p s
  trim-trim s = trim_of_ends (trim p s) (trim-Left s) (trim-Right s)

pub trim_space-trim_space : (s : Text) → trim_space (trim_space s) ≡ trim_space s
unfolding trim_space
trim_space-trim_space s = trim-trim is_space s
