-- ===== src/Text/Laws.antt =====
-- What the tests on texts decide.
use proxy_rule_manager.Common.{
  ◌≡◌, ◌≢◌, ◌↔◌, true, false, [], ◌∷◌, ◌++◌, arith, refl, ap, Bool-cases, inl, inr,
  drop-length-append, append-nil,
}
use proxy_rule_manager.Text.{
  Text, text_eq, text_eq_iff, has_prefix, has_suffix, contains, trim_prefix,
}

pub text_eq_refl : (s : Text) → text_eq s s ≡ true
text_eq_refl s = (text_eq_iff s s).1 refl

pub has_prefix_sound : (s p : Text) → has_prefix s p ≡ true → (r : Text) × (s ≡ p ++ r)
unfolding has_prefix
has_prefix_sound s [] h = (s, refl)
has_prefix_sound [] (d ∷ p) h = cc
has_prefix_sound (c ∷ s) (d ∷ p) h =
    let (r, e) = has_prefix_sound s p (ground arith) in (r, ground (arith, e))

pub has_prefix-append : (p r : Text) → has_prefix (p ++ r) p ≡ true
unfolding has_prefix
has_prefix-append [] r = refl
has_prefix-append (c ∷ p) r = ground (arith, has_prefix-append p r)

pub has_suffix_sound : (s t : Text) → has_suffix s t ≡ true → (p : Text) × (s ≡ p ++ t)
unfolding has_suffix
has_suffix_sound [] t h = ([], (text_eq_iff [] t).0 h)
has_suffix_sound (c ∷ s) t h = elim (Bool-cases (text_eq (c ∷ s) t)) [
  | inl e ↦ ([], (text_eq_iff (c ∷ s) t).0 e)
  | inr e ↦ let (p, q) = has_suffix_sound s t (rw e at h) in (c ∷ p, ap (λ r. c ∷ r) q)
]

pub has_suffix-append : (p t : Text) → has_suffix (p ++ t) t ≡ true
unfolding has_suffix
has_suffix-append [] [] = refl
has_suffix-append [] (c ∷ t) = rw (text_eq_refl (c ∷ t))
has_suffix-append (c ∷ p) t = ground (arith, has_suffix-append p t)

-- A text is a suffix exactly when something before it makes the whole.
pub has_suffix_iff : (s t : Text) → (has_suffix s t ≡ true) ↔ ((p : Text) × (s ≡ p ++ t))
has_suffix_iff s t = (has_suffix_sound s t, λ h. rw (h.1) (has_suffix-append h.0 t))

pub has_prefix_iff : (s p : Text) → (has_prefix s p ≡ true) ↔ ((r : Text) × (s ≡ p ++ r))
has_prefix_iff s p = (has_prefix_sound s p, λ h. rw (h.1) (has_prefix-append p h.0))

pub contains_sound :
    (s t : Text) → contains s t ≡ true → (a : Text) × (b : Text) × (s ≡ a ++ (t ++ b))
unfolding contains
contains_sound [] t h = let (r, e) = has_prefix_sound [] t h in ([], r, e)
contains_sound (c ∷ s) t h = elim (Bool-cases (has_prefix (c ∷ s) t)) [
  | inl e ↦ let (r, q) = has_prefix_sound (c ∷ s) t e in ([], r, q)
  | inr e ↦ let (a, b, q) = contains_sound s t (rw e at h) in (c ∷ a, b, ap (λ r. c ∷ r) q)
]

pub contains-append : (a t b : Text) → contains (a ++ (t ++ b)) t ≡ true
unfolding contains
contains-append [] [] [] = unfold has_prefix in refl
contains-append [] [] (c ∷ b) = unfold has_prefix in refl
contains-append [] (c ∷ t) b = rw (has_prefix-append (c ∷ t) b)
contains-append (c ∷ a) t b = ground (arith, contains-append a t b)

pub contains-nil : (s : Text) → contains s [] ≡ true
contains-nil s = contains-append [] [] s

pub has_suffix-nil : (s : Text) → has_suffix s [] ≡ true
has_suffix-nil s = rw (← append-nil s) (has_suffix-append s [])

pub trim_prefix-append : (p r : Text) → trim_prefix (p ++ r) p ≡ r
unfolding trim_prefix
trim_prefix-append p r = rw (has_prefix-append p r) (drop-length-append p r)

pub text_ne : (s t : Text) → s ≢ t → text_eq s t ≡ false
text_ne s t h = elim (Bool-cases (text_eq s t)) [
  | inl e ↦ absurd (h ((text_eq_iff s t).0 e))
  | inr e ↦ e
]
