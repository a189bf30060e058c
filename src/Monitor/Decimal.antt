-- ===== src/Monitor/Decimal.antt =====
-- %d of package fmt, for numbers that are not negative.
use proxy_rule_manager.Common.{ℕ, zero, suc, ◌+◌, ◌/◌, ◌%◌, [], ◌∷◌, ltb, if◌then◌else◌}
use proxy_rule_manager.Text.{Text}

-- The digits before those in the list; a number has no more digits than its successor counts.
unfoldable pub digits : ℕ → ℕ → Text → Text
digits zero n later = later
digits (suc fuel) n later =
    let more = digits fuel (n / 10) ((b'0' + n % 10) ∷ later) in
    if ltb n 10 then (b'0' + n) ∷ later else more

unfoldable pub decimal : ℕ → Text
unfolding digits
decimal n = digits (suc n) n []
