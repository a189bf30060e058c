-- ===== src/Text.antt =====
-- Go strings as lists of code points, with the functions of package strings that the program
-- calls. `TrimSpace` cuts the White_Space characters of Unicode. What rests on large tables of the
-- standard library (case mapping, IP and URL syntax, regular expressions) is in Platform.antt.
pub mod Laws
pub mod Trim
use Prim.Native.Char.{code}
use mathlib.Core.List.{reverse}
use proxy_rule_manager.Common.{
  ℕ, zero, suc, ◌-◌, ◌≡◌, ◌↔◌, String, Bool, true, false, not, ◌&&◌, ◌||◌, List, [], ◌∷◌, ◌++◌,
  ◌==◌, Comparable, leb, nat_eq, nat_eq_iff, if◌then◌else◌, length, take, drop, Option, none, some,
  refl, arith,
}

abbrev pub Text : Type 0
Text = List ℕ

-- The code points of a literal.
abbrev pub codes : String → Text
codes String.[] = []
codes (String.◌∷◌ c s) = code c ∷ codes s

unfoldable pub text_eq : Text → Text → Bool
text_eq [] [] = true
text_eq [] (_ ∷ _) = false
text_eq (_ ∷ _) [] = false
text_eq (c ∷ s) (d ∷ t) = nat_eq c d && text_eq s t

pub text_eq_iff : (s t : Text) → (text_eq s t ≡ true) ↔ (s ≡ t)
unfolding text_eq
text_eq_iff [] [] = ground arith
text_eq_iff [] (_ ∷ _) = ground arith
text_eq_iff (_ ∷ _) [] = ground arith
text_eq_iff (c ∷ s) (d ∷ t) = ground (arith, text_eq_iff s t, nat_eq_iff c d)

instance abbrev pub text_beq : Comparable Text
text_beq = record { same = text_eq; same_iff = text_eq_iff }

-- strings.HasPrefix
unfoldable pub has_prefix : Text → Text → Bool
has_prefix s [] = true
has_prefix [] (_ ∷ _) = false
has_prefix (c ∷ s) (d ∷ p) = nat_eq c d && has_prefix s p

-- strings.HasSuffix
unfoldable pub has_suffix : Text → Text → Bool
unfolding text_eq
has_suffix [] t = text_eq [] t
has_suffix (c ∷ s) t = text_eq (c ∷ s) t || has_suffix s t

-- strings.Contains
unfoldable pub contains : Text → Text → Bool
unfolding has_prefix
contains [] t = has_prefix [] t
contains (c ∷ s) t = has_prefix (c ∷ s) t || contains s t

-- strings.TrimPrefix
unfoldable pub trim_prefix : Text → Text → Text
unfolding has_prefix
trim_prefix s p = if has_prefix s p then drop (length p) s else s

-- strings.TrimSuffix
unfoldable pub trim_suffix : Text → Text → Text
unfolding has_suffix
trim_suffix s t = if has_suffix s t then take (length s - length t) s else s

unfoldable pub trim_left : (ℕ → Bool) → Text → Text
trim_left p [] = []
trim_left p (c ∷ s) = let rest = trim_left p s in if p c then rest else c ∷ s

abbrev pub is_empty {ℓ} : {A : Type ℓ} → List A → Bool
is_empty [] = true
is_empty (_ ∷ _) = false

unfoldable pub trim_right : (ℕ → Bool) → Text → Text
trim_right p [] = []
trim_right p (c ∷ s) = let rest = trim_right p s in if is_empty rest && p c then [] else c ∷ rest

-- strings.TrimFunc; `Trim` with a cutset is `trim` with a test of membership.
unfoldable pub trim : (ℕ → Bool) → Text → Text
unfolding trim_left trim_right
trim p s = trim_right p (trim_left p s)

unfoldable pub is_space : ℕ → Bool
is_space c =
    (leb 9 c && leb c 13)
    || nat_eq c 32
    || nat_eq c 0x85
    || nat_eq c 0xa0
    || nat_eq c 0x1680
    || (leb 0x2000 c && leb c 0x200a)
    || nat_eq c 0x2028
    || nat_eq c 0x2029
    || nat_eq c 0x202f
    || nat_eq c 0x205f
    || nat_eq c 0x3000

-- strings.TrimSpace
unfoldable pub trim_space : Text → Text
unfolding trim is_space
trim_space s = trim is_space s

abbrev pub is_dot : ℕ → Bool
is_dot c = nat_eq c b'.'

abbrev pub is_bracket : ℕ → Bool
is_bracket c = nat_eq c b'[' || nat_eq c b']'

-- strings.Count of a text of one character
unfoldable pub count : Text → ℕ → ℕ
count [] d = 0
count (c ∷ s) d = let rest = count s d in if nat_eq c d then suc rest else rest

-- strings.ReplaceAll of one character by a text
unfoldable pub replace_all : ℕ → Text → Text → Text
replace_all d t [] = []
replace_all d t (c ∷ s) = let rest = replace_all d t s in if nat_eq c d then t ++ rest else c ∷ rest
