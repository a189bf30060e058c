-- ===== src/Platform.antt =====
-- What the program takes from the tables and parsers of Go's standard library and from
-- github.com/google/uuid: case mapping by character, IP, CIDR and URL syntax, regular expressions,
-- path.Match, and fresh identifiers. The laws are documented behaviour of these.
use proxy_rule_manager.Common.{
  ℕ, ◌+◌, ◌<◌, ◌≡◌, ◌≢◌, Bool, ◌&&◌, Option, [], List, map, leb, if◌then◌else◌, ◌==◌,
}
use proxy_rule_manager.Text.{Text, is_space, text_beq}

abbrev pub Bytes : Type 0
Bytes = List ℕ

abbrev pub ascii_lower : ℕ → ℕ
ascii_lower c = if leb b'A' c && leb c b'Z' then c + 32 else c

-- net.IPNet
pub record Network : Type 0 where
  pub base : Bytes
  pub mask : Bytes

pub record Platform : Type 0 where
  -- unicode.ToLower and ToUpper of one character
  pub lower : ℕ → ℕ
  pub upper : ℕ → ℕ
  -- The representative of a character under simple case folding (strings.EqualFold).
  pub fold : ℕ → ℕ
  -- net.ParseIP, net.IP.String, net.ParseCIDR; `none` is nil or an error
  pub parse_ip : Text → Option Bytes
  pub ip_string : Bytes → Text
  pub parse_cidr : Text → Option (Bytes × Network)
  -- url.Parse and URL.Hostname
  pub url_hostname : Text → Option Text
  -- regexp.Compile and Regexp.MatchString
  pub compile : Text → Option (Text → Bool)
  -- path.Match; false on a malformed pattern
  pub path_match : Text → Text → Bool
  -- string(bytes), as code points
  pub decode : Bytes → Text
  -- The n-th value of uuid.NewString.
  pub uuid : ℕ → Text
  pub lower_ascii : (c : ℕ) → c < 128 → lower c ≡ ascii_lower c
  pub lower_idem : (c : ℕ) → lower (lower c) ≡ lower c
  pub is_space-lower : (c : ℕ) → is_space (lower c) ≡ is_space c
  pub uuid_ne_nil : (n : ℕ) → uuid n ≢ []
  pub uuid_injective : (m n : ℕ) → uuid m ≡ uuid n → m ≡ n

module _ ⦃p : Platform⦄ where
  -- strings.ToLower, strings.ToUpper
  abbrev pub to_lower : Text → Text
  to_lower s = map p.lower s

  abbrev pub to_upper : Text → Text
  to_upper s = map p.upper s

  -- strings.EqualFold
  abbrev pub equal_fold : Text → Text → Bool
  equal_fold s t = map p.fold s == map p.fold t
