-- ===== src/Config/Rules/Settled.antt =====
-- What the loops of `ensureInvariants` leave behind them, rule by rule.

use proxy_rule_manager.Common.{
  ℕ, true, false, ◌≡◌, ◌≢◌, Option, none, some, List, [], ◌∷◌, arith, refl, ap, ◌∙◌, Bool-cases,
  true≢false, Option-cases, inl, inr, All, any, if◌then◌else◌, ◌==◌,
}
use proxy_rule_manager.Text.{Text, text_beq, trim_space, text_eq, text_eq_iff}
use proxy_rule_manager.Text.Trim.{trim_space-trim_space}
use proxy_rule_manager.Platform.{Platform}
use proxy_rule_manager.Model.{Rule}
use proxy_rule_manager.Rules.Catalog.{
  DomainFamily, common_domain_families, in_domain, clean_host, find_family, match_domain_family,
  default_folder_for_rule, default_remark_for_rule,
}
use proxy_rule_manager.Config.Rules.{labelled, prepare_rule}

-- The labels of a family have no space at their ends.
abbrev IsTidy : DomainFamily → Type 0
IsTidy family =
    (trim_space family.folder ≡ family.folder) × (trim_space family.remark ≡ family.remark)

find_family-IsTidy :
    (value : Text) (families : List DomainFamily) (family : DomainFamily)
    → All IsTidy families
    → find_family value families ≡ some family
    → IsTidy family
unfolding find_family
find_family-IsTidy value [] family h e = cc
find_family-IsTidy value (f ∷ families) family (tidy, h) e =
    elim (Bool-cases (any (in_domain value) f.domains)) [
      | inl hit ↦ let same : some f ≡ some family = rw hit at e in ground (arith, same)
      | inr miss ↦ find_family-IsTidy value families family h (rw miss at e)
    ]

families-IsTidy : All IsTidy common_domain_families
unfolding trim_space common_domain_families
families-IsTidy = (
  (refl, refl),
  (
    (refl, refl),
    (
      (refl, refl),
      ((refl, refl), ((refl, refl), ((refl, refl), ((refl, refl), ((refl, refl), tt))))),
    ),
  ),
)

module _ ⦃p : Platform⦄ where
  match_domain_family-IsTidy :
      (raw : Text) (family : DomainFamily) → match_domain_family raw ≡ some family → IsTidy family
  unfolding match_domain_family
  match_domain_family-IsTidy raw family e = elim (Bool-cases (clean_host raw == [])) [
    | inl blank ↦
        let absent : ◌≡◌ {A = Option DomainFamily} none (some family) = rw blank at e in cc
    | inr full ↦
        find_family-IsTidy (clean_host raw) common_domain_families family families-IsTidy
          (rw full at e)
  ]

  -- A rule with an identifier, whose labels the store would choose again.
  pub record IsSettled (rule : Rule) : Type 0 where
    pub named : rule.id ≢ []
    pub foldered : default_folder_for_rule rule ≡ rule.folder
    pub remarked : default_remark_for_rule rule ≡ rule.remark

  label : Text → Option Text → Text
  label s other = if trim_space s == [] then elim other [ some t ↦ t | none ↦ [] ] else trim_space s

  unlabelled : Option Text → Text
  unlabelled (some t) = t
  unlabelled none = []

  abbrev HasTidy : Option Text → Type 0
  HasTidy none = Unit
  HasTidy (some t) = trim_space t ≡ t

  label_full :
      (s : Text) (other : Option Text) → (trim_space s == []) ≡ false → label s other ≡ trim_space s
  unfolding label
  label_full s other full = rw full

  label_blank :
      (s : Text) (other : Option Text)
      → (trim_space s == []) ≡ true
      → label s other ≡ unlabelled other
  unfolding label unlabelled
  label_blank s none blank = rw blank
  label_blank s (some t) blank = rw blank

  label-unlabelled :
      (other : Option Text) → HasTidy other → label (unlabelled other) other ≡ unlabelled other
  unfolding label unlabelled trim_space text_eq
  label-unlabelled none tidy = refl
  label-unlabelled (some t) tidy = elim (Bool-cases (trim_space t == [])) [
    | inl blank ↦ rw blank
    | inr full ↦ rw full tidy
  ]

  label-label :
      (s : Text) (other : Option Text) → HasTidy other → label (label s other) other ≡ label s other
  label-label s other tidy = elim (Bool-cases (trim_space s == [])) [
    | inl blank ↦ rw (label_blank s other blank) (label-unlabelled other tidy)
    | inr full ↦ rw (label_full s other full) (
        label_full (trim_space s) other (rw (trim_space-trim_space s) full)
        ∙ trim_space-trim_space s)
  ]

  folder_of : Option DomainFamily → Option Text
  folder_of none = none
  folder_of (some family) = some family.folder

  remark_of : Option DomainFamily → Option Text
  remark_of none = none
  remark_of (some family) = some family.remark

  folder-eq-label :
      (rule : Rule)
      → default_folder_for_rule rule
        ≡ label rule.folder (folder_of (match_domain_family rule.value))
  unfolding default_folder_for_rule label folder_of
  folder-eq-label rule = elim (Option-cases (match_domain_family rule.value)) [
    | inl e ↦ rw (e, default_folder_for_rule, label, folder_of)
    | inr (family, e) ↦ rw (e, default_folder_for_rule, label, folder_of)
  ]

  remark-eq-label :
      (rule : Rule)
      → default_remark_for_rule rule
        ≡ label rule.remark (remark_of (match_domain_family rule.value))
  unfolding default_remark_for_rule label remark_of
  remark-eq-label rule = elim (Option-cases (match_domain_family rule.value)) [
    | inl e ↦ rw (e, default_remark_for_rule, label, remark_of)
    | inr (family, e) ↦ rw (e, default_remark_for_rule, label, remark_of)
  ]

  folder_of-HasTidy : (raw : Text) → HasTidy (folder_of (match_domain_family raw))
  unfolding folder_of
  folder_of-HasTidy raw = elim (Option-cases (match_domain_family raw)) [
    | inl e ↦ rw (e, folder_of) tt
    | inr (family, e) ↦ rw (e, folder_of) (match_domain_family-IsTidy raw family e).0
  ]

  remark_of-HasTidy : (raw : Text) → HasTidy (remark_of (match_domain_family raw))
  unfolding remark_of
  remark_of-HasTidy raw = elim (Option-cases (match_domain_family raw)) [
    | inl e ↦ rw (e, remark_of) tt
    | inr (family, e) ↦ rw (e, remark_of) (match_domain_family-IsTidy raw family e).1
  ]

  labelled-foldered :
      (rule : Rule) → default_folder_for_rule (labelled rule) ≡ (labelled rule).folder
  labelled-foldered rule =
      let other = folder_of (match_domain_family rule.value) in
      folder-eq-label (labelled rule)
      ∙ rw (folder-eq-label rule) (label-label rule.folder other (folder_of-HasTidy rule.value))

  labelled-remarked :
      (rule : Rule) → default_remark_for_rule (labelled rule) ≡ (labelled rule).remark
  labelled-remarked rule =
      let other = remark_of (match_domain_family rule.value) in
      let foldered = record rule { folder = default_folder_for_rule rule } in
      remark-eq-label (labelled rule)
      ∙ (rw (remark-eq-label foldered)
          (label-label rule.remark other (remark_of-HasTidy rule.value)))

  pub labelled-IsSettled : (rule : Rule) → rule.id ≢ [] → IsSettled (labelled rule)
  labelled-IsSettled rule h = record {
    named = h;
    foldered = labelled-foldered rule;
    remarked = labelled-remarked rule;
  }

  pub prepare_rule-IsSettled : (rule : Rule) (n : ℕ) → IsSettled (prepare_rule rule n).0
  unfolding prepare_rule
  prepare_rule-IsSettled rule n = elim (Bool-cases (rule.id == [])) [
    | inl e ↦ rw e (labelled-IsSettled (record rule { id = p.uuid n }) (p.uuid_ne_nil n))
    | inr e ↦ rw e (labelled-IsSettled rule (λ h. true≢false ((text_eq_iff rule.id []).1 h) e))
  ]

  labelled_of_IsSettled : (rule : Rule) → IsSettled rule → labelled rule ≡ rule
  labelled_of_IsSettled rule s =
      ap
        (λ f. record (record rule { folder = f }) {
          remark = default_remark_for_rule (record rule { folder = f });
        })
        s.foldered
      ∙ ap (λ r. record rule { remark = r }) s.remarked

  -- A settled rule is left as it is, and takes no identifier.
  pub prepare_rule_of_IsSettled :
      (rule : Rule) (n : ℕ) → IsSettled rule → prepare_rule rule n ≡ (rule, n)
  unfolding prepare_rule
  prepare_rule_of_IsSettled rule n s = elim (Bool-cases (rule.id == [])) [
    | inl e ↦ absurd (s.named ((text_eq_iff rule.id []).0 e))
    | inr e ↦ rw e (rw (labelled_of_IsSettled rule s))
  ]
