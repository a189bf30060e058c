-- ===== src/Common/Assoc.antt =====
-- Maps of Go as lists of entries, each key at most once. The order of the entries stands for the
-- order in which a loop over the map meets them, which Go leaves open.
use proxy_rule_manager.Common.{
  ◌≡◌, Option, none, some, List, [], ◌∷◌, arith, Comparable, ◌==◌, if◌then◌else◌,
}

module _ {ℓ κ} {K : Type ℓ} {V : Type κ} ⦃c : Comparable K⦄ where
  -- m[key]
  unfoldable pub lookup : K → List (K × V) → Option V
  lookup key [] = none
  lookup key ((k, v) ∷ entries) =
      let later = lookup key entries in if k == key then some v else later

  -- delete(m, key)
  unfoldable pub remove : K → List (K × V) → List (K × V)
  remove key [] = []
  remove key ((k, v) ∷ entries) =
      let others = remove key entries in if k == key then others else (k, v) ∷ others

  -- m[key] = value
  unfoldable pub insert : K → V → List (K × V) → List (K × V)
  unfolding remove
  insert key value entries = (key, value) ∷ remove key entries

  pub lookup-remove :
      (key j : K) (entries : List (K × V))
      → lookup j (remove key entries) ≡ (if key == j then none else lookup j entries)
  unfolding lookup remove
  lookup-remove key j [] = ground arith
  lookup-remove key j ((k, v) ∷ entries) =
      ground
        (arith, lookup-remove key j entries, c.same_iff k key, c.same_iff k j, c.same_iff key j)

  pub lookup-insert :
      (key j : K) (value : V) (entries : List (K × V))
      → lookup j (insert key value entries) ≡ (if key == j then some value else lookup j entries)
  unfolding lookup insert
  lookup-insert key j value entries = ground (arith, lookup-remove key j entries)
