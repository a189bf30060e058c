-- ===== src/Ids.antt =====
-- Code that calls uuid.NewString: the number of identifiers taken so far is passed along.
use proxy_rule_manager.Common.{ℕ, suc}
use proxy_rule_manager.Text.{Text}
use proxy_rule_manager.Platform.{Platform}

abbrev pub Ids : Type 0 → Type 0
Ids A = ℕ → A × ℕ

abbrev pub pure : {A : Type 0} → A → Ids A
pure a n = (a, n)

infixl 5 ◌>>=◌
abbrev pub ◌>>=◌ : {A B : Type 0} → Ids A → (A → Ids B) → Ids B
◌>>=◌ m f n = let (a, n') = m n in f a n'

-- uuid.NewString()
abbrev pub new_id : ⦃p : Platform⦄ → Ids Text
new_id ⦃p⦄ n = (p.uuid n, suc n)
