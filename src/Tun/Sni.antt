-- ===== src/Tun/Sni.antt =====
-- detectTLSServerName and parseTLSServerNameExtension. An index or a slice out of range is a panic
-- of Go, and the two loops run on fuel.
pub mod Total
use proxy_rule_manager.Common.{
  ℕ, zero, suc, ◌+◌, ◌-◌, ◌*◌, Bool, true, false, ◌||◌, ◌&&◌, not, Option, none, some, List, [],
  ◌∷◌, ◌++◌, if◌then◌else◌, ◌==◌, nat_eq, ltb, leb, length, take, drop,
}
use proxy_rule_manager.Text.{Text, is_empty}
use proxy_rule_manager.Platform.{Platform, Bytes}
use proxy_rule_manager.Net.HostPort.{normalize_detected_host}

pub data Reading {ℓ} (A : Type ℓ) : Type ℓ where
  done : A → Reading A
  panicked out_of_fuel : Reading A

infixl 5 ◌>>=◌
abbrev pub ◌>>=◌ {ℓ κ} : {A : Type ℓ} {B : Type κ} → Reading A → (A → Reading B) → Reading B
done a >>= f = f a
panicked >>= f = panicked
out_of_fuel >>= f = out_of_fuel

-- A function's result `(host, ok)`; `none` is `("", false)`.
abbrev pub Found : Type 0
Found = Reading (Option Text)

-- s[i]
unfoldable pub at : Bytes → ℕ → Reading ℕ
at [] i = panicked
at (b ∷ s) zero = done b
at (b ∷ s) (suc i) = at s i

-- s[lo:hi]
unfoldable pub slice : Bytes → ℕ → ℕ → Reading Bytes
slice s lo hi =
    if leb lo hi && leb hi (length s) then done (take (hi - lo) (drop lo s)) else panicked

-- binary.BigEndian.Uint16(s[i:i+2])
unfoldable pub uint16 : Bytes → ℕ → Reading ℕ
uint16 s i = do t ← slice s i (i + 2); hi ← at t 0; lo ← at t 1; done (hi * 256 + lo)

module _ ⦃p : Platform⦄ where
  -- the loop over the names of the extension
  unfoldable pub server_names : ℕ → Bytes → Found
  server_names zero items = out_of_fuel
  server_names (suc fuel) items = if ltb (length items) 3 then done none else do
    name_type ← at items 0
    name_len ← uint16 items 1
    rest ← slice items 3 (length items)
    if ltb (length rest) name_len then done none else do
      name ← slice rest 0 name_len
      behind ← slice rest name_len (length rest)
      let host = normalize_detected_host (p.decode name)
      let onward = server_names fuel behind
      if nat_eq name_type 0 && not (is_empty host) then done (some host) else onward

  unfoldable pub parse_server_name_extension : Bytes → Found
  parse_server_name_extension ext = if ltb (length ext) 2 then done none else do
    list_len ← uint16 ext 0
    if nat_eq list_len 0 || ltb (length ext) (2 + list_len)
        then done none
        else do items ← slice ext 2 (2 + list_len); server_names (suc (length items)) items

  -- the loop over the extensions
  unfoldable pub find_extension : ℕ → Bytes → Found
  find_extension zero extensions = out_of_fuel
  find_extension (suc fuel) extensions = if ltb (length extensions) 4 then done none else do
    ext_type ← uint16 extensions 0
    ext_len ← uint16 extensions 2
    rest ← slice extensions 4 (length extensions)
    if ltb (length rest) ext_len then done none else do
      ext ← slice rest 0 ext_len
      behind ← slice rest ext_len (length rest)
      let onward = find_extension fuel behind
      let tried = do
        found ← parse_server_name_extension ext
        elim found [ some host ↦ done (some host) | none ↦ onward ]
      if nat_eq ext_type 0 then tried else onward

  -- the extensions of the hello, from the offset of their length
  unfoldable pub read_extensions : Bytes → ℕ → Found
  read_extensions hello offset = do
    extensions_len ← uint16 hello offset
    if ltb (length hello) (offset + 2 + extensions_len) then done none else do
      extensions ← slice hello (offset + 2) (offset + 2 + extensions_len)
      find_extension (suc (length extensions)) extensions

  unfoldable pub skip_compression : Bytes → ℕ → Found
  skip_compression hello offset = do
    compression_methods_len ← at hello offset
    if ltb (length hello) (offset + 1 + compression_methods_len + 2)
        then done none
        else read_extensions hello (offset + 1 + compression_methods_len)

  unfoldable pub skip_cipher_suites : Bytes → ℕ → Found
  skip_cipher_suites hello offset = do
    cipher_suites_len ← uint16 hello offset
    if ltb (length hello) (offset + 2 + cipher_suites_len + 1)
        then done none
        else skip_compression hello (offset + 2 + cipher_suites_len)

  -- from the session identifier at offset 34
  unfoldable pub read_hello : Bytes → Found
  read_hello hello = if ltb (length hello) 34 || ltb (length hello) 35 then done none else do
    session_id_len ← at hello 34
    if ltb (length hello) (35 + session_id_len + 2)
        then done none
        else skip_cipher_suites hello (35 + session_id_len)

  unfoldable pub read_record : Bytes → Found
  read_record handshake = if ltb (length handshake) 4 then done none else do
    kind ← at handshake 0
    b1 ← at handshake 1
    b2 ← at handshake 2
    b3 ← at handshake 3
    let hello_len = b1 * 65536 + b2 * 256 + b3
    if not (nat_eq kind 1) || nat_eq hello_len 0 || ltb (length handshake) (4 + hello_len)
        then done none
        else do hello ← slice handshake 4 (4 + hello_len); read_hello hello

  unfoldable pub detect_tls_server_name : Bytes → Found
  detect_tls_server_name payload = if ltb (length payload) 5 then done none else do
    kind ← at payload 0
    record_len ← uint16 payload 3
    if not (nat_eq kind 0x16) || nat_eq record_len 0 || ltb (length payload) (5 + record_len)
        then done none
        else do handshake ← slice payload 5 (5 + record_len); read_record handshake
