-- ===== src/Tun/Sni/Total.antt =====
-- detectTLSServerName: indexes, slices and fuel.
use proxy_rule_manager.Common.{
  ℕ, zero, suc, ◌+◌, ◌-◌, ◌*◌, ◌≤◌, ◌<◌, ◌≡◌, Bool, true, false, ◌||◌, ◌&&◌, not, none, some, [],
  ◌∷◌, if◌then◌else◌, nat_eq, ltb, length, take, drop, length-drop, length-take_le, arith, refl,
}
use proxy_rule_manager.Text.{is_empty}
use proxy_rule_manager.Platform.{Platform, Bytes}
use proxy_rule_manager.Tun.Sni.{
  Reading, done, panicked, out_of_fuel, ◌>>=◌, Found, at, slice, uint16, server_names,
  parse_server_name_extension, find_extension, read_extensions, skip_compression,
  skip_cipher_suites, read_hello, read_record, detect_tls_server_name,
}
use proxy_rule_manager.Net.HostPort.{normalize_detected_host}

-- The computation ends with a result.
abbrev pub Ends {ℓ} : {A : Type ℓ} → Reading A → Type 0
Ends (done a) = Unit
Ends panicked = ⊥
Ends out_of_fuel = ⊥

at_total : (s : Bytes) (i : ℕ) → i < length s → (b : ℕ) × (at s i ≡ done b)
unfolding at
at_total [] i h = elim h [ ]
at_total (b ∷ s) zero h = (b, refl)
at_total (b ∷ s) (suc i) h = at_total s i (omega arith)

slice_total :
    (s : Bytes) (lo hi : ℕ)
    → lo ≤ hi
    → hi ≤ length s
    → (t : Bytes) × (slice s lo hi ≡ done t) × (length t ≡ hi - lo)
unfolding slice
slice_total s lo hi h k = (
  take (hi - lo) (drop lo s),
  ground arith,
  length-take_le (hi - lo) (drop lo s) (omega (arith, length-drop lo s)),
)

uint16_total : (s : Bytes) (i : ℕ) → i + 2 ≤ length s → (n : ℕ) × (uint16 s i ≡ done n)
unfolding uint16
uint16_total s i h =
    let (t, e, l) = slice_total s i (i + 2) (omega arith) h in
    let (hi, e0) = at_total t 0 (omega arith) in
    let (lo, e1) = at_total t 1 (omega arith) in (hi * 256 + lo, rw e (rw e0 (rw e1)))

-- The rules for the steps of a parser: what follows a read within bounds, and the two branches.
module _ {A : Type 0} where
  at-Ends :
      (s : Bytes) (i : ℕ) (f : ℕ → Reading A)
      → i < length s
      → ((b : ℕ) → Ends (f b))
      → Ends (at s i >>= f)
  at-Ends s i f h k = let (b, e) = at_total s i h in rw e (k b)

  uint16-Ends :
      (s : Bytes) (i : ℕ) (f : ℕ → Reading A)
      → i + 2 ≤ length s
      → ((n : ℕ) → Ends (f n))
      → Ends (uint16 s i >>= f)
  uint16-Ends s i f h k = let (n, e) = uint16_total s i h in rw e (k n)

  slice-Ends :
      (s : Bytes) (lo hi : ℕ) (f : Bytes → Reading A)
      → lo ≤ hi
      → hi ≤ length s
      → ((t : Bytes) → length t ≡ hi - lo → Ends (f t))
      → Ends (slice s lo hi >>= f)
  slice-Ends s lo hi f h k g = let (t, e, l) = slice_total s lo hi h k in rw e (g t l)

  if-Ends :
      (b : Bool) (x y : Reading A)
      → (b ≡ true → Ends x)
      → (b ≡ false → Ends y)
      → Ends (if b then x else y)
  if-Ends true x y h k = h refl
  if-Ends false x y h k = k refl

  either-Ends : (b : Bool) (x : A) (y : Reading A) → Ends y → Ends (if b then done x else y)
  either-Ends b x y h = if-Ends b (done x) y (λ e. tt) (λ e. h)

  -- A guard that returns early.
  unless-Ends :
      (a b : ℕ) (x : A) (y : Reading A) → (b ≤ a → Ends y) → Ends (if ltb a b then done x else y)
  unless-Ends a b x y k = if-Ends (ltb a b) (done x) y (λ h. tt) (λ h. k (ground arith))

  guard-Ends :
      (c d : Bool) (a b : ℕ) (x : A) (y : Reading A)
      → (b ≤ a → Ends y)
      → Ends (if c || d || ltb a b then done x else y)
  guard-Ends c d a b x y k =
      if-Ends (c || d || ltb a b) (done x) y (λ h. tt) (λ h. k (ground arith))

  early-Ends :
      (c : Bool) (a b : ℕ) (x : A) (y : Reading A)
      → (b ≤ a → Ends y)
      → Ends (if c || ltb a b then done x else y)
  early-Ends c a b x y k = if-Ends (c || ltb a b) (done x) y (λ h. tt) (λ h. k (ground arith))

module _ ⦃p : Platform⦄ where
  server_names-Ends :
      (fuel : ℕ) (items : Bytes) → length items < fuel → Ends (server_names fuel items)
  unfolding server_names
  server_names-Ends zero items h = elim h [ ]
  server_names-Ends (suc fuel) items h = unless-Ends (length items) 3 none _ λ long.
      at-Ends items 0 _ (omega arith) λ name_type. uint16-Ends items 1 _ (omega arith) λ name_len.
        slice-Ends items 3 (length items) _ (omega arith) (omega arith) λ rest l.
          unless-Ends (length rest) name_len none _ λ fits.
            slice-Ends rest 0 name_len _ (omega arith) (omega arith) λ name l'.
              slice-Ends rest name_len (length rest) _ (omega arith) (omega arith) λ behind l2.
                let host = normalize_detected_host (p.decode name) in
                either-Ends (nat_eq name_type 0 && not (is_empty host)) (some host) _
                  (server_names-Ends fuel behind (omega arith))

  parse_server_name_extension-Ends : (ext : Bytes) → Ends (parse_server_name_extension ext)
  unfolding parse_server_name_extension
  parse_server_name_extension-Ends ext = unless-Ends (length ext) 2 none _ λ long.
      uint16-Ends ext 0 _ (omega arith) λ list_len.
        early-Ends (nat_eq list_len 0) (length ext) (2 + list_len) none _ λ fits.
          slice-Ends ext 2 (2 + list_len) _ (omega arith) (omega arith)
            λ items l. server_names-Ends (suc (length items)) items (omega arith)

  tried-Ends :
      (found onward : Found)
      → Ends found
      → Ends onward
      → Ends (found >>= λ f. elim f [ some host ↦ done (some host) | none ↦ onward ])
  tried-Ends (done none) onward h k = k
  tried-Ends (done (some host)) onward h k = tt
  tried-Ends panicked onward h k = h
  tried-Ends out_of_fuel onward h k = h

  find_extension-Ends :
      (fuel : ℕ) (extensions : Bytes)
      → length extensions < fuel
      → Ends (find_extension fuel extensions)
  unfolding find_extension
  find_extension-Ends zero extensions h = elim h [ ]
  find_extension-Ends (suc fuel) extensions h = unless-Ends (length extensions) 4 none _ λ long.
      uint16-Ends extensions 0 _ (omega arith) λ ext_type.
        uint16-Ends extensions 2 _ (omega arith) λ ext_len.
          slice-Ends extensions 4 (length extensions) _ (omega arith) (omega arith) λ rest l.
            unless-Ends (length rest) ext_len none _ λ fits.
              slice-Ends rest 0 ext_len _ (omega arith) (omega arith) λ ext l'.
                slice-Ends rest ext_len (length rest) _ (omega arith) (omega arith) λ behind l2.
                  let onward = find_extension-Ends fuel behind (omega arith) in
                  if-Ends (nat_eq ext_type 0) _ (find_extension fuel behind)
                    (λ e.
                      tried-Ends (parse_server_name_extension ext) (find_extension fuel behind)
                        (parse_server_name_extension-Ends ext) onward)
                    (λ e. onward)

  read_extensions-Ends :
      (hello : Bytes) (offset : ℕ) → offset + 2 ≤ length hello → Ends (read_extensions hello offset)
  unfolding read_extensions
  read_extensions-Ends hello offset h = uint16-Ends hello offset _ h λ n.
      unless-Ends (length hello) (offset + 2 + n) none _ λ fits.
        slice-Ends hello (offset + 2) (offset + 2 + n) _ (omega arith) (omega arith)
          λ extensions l. find_extension-Ends (suc (length extensions)) extensions (omega arith)

  skip_compression-Ends :
      (hello : Bytes) (offset : ℕ) → offset < length hello → Ends (skip_compression hello offset)
  unfolding skip_compression
  skip_compression-Ends hello offset h = at-Ends hello offset _ h λ n.
      unless-Ends (length hello) (offset + 1 + n + 2) none _
        λ fits. read_extensions-Ends hello (offset + 1 + n) (omega arith)

  skip_cipher_suites-Ends :
      (hello : Bytes) (offset : ℕ)
      → offset + 2 ≤ length hello
      → Ends (skip_cipher_suites hello offset)
  unfolding skip_cipher_suites
  skip_cipher_suites-Ends hello offset h = uint16-Ends hello offset _ h λ n.
      unless-Ends (length hello) (offset + 2 + n + 1) none _
        λ fits. skip_compression-Ends hello (offset + 2 + n) (omega arith)

  read_hello-Ends : (hello : Bytes) → Ends (read_hello hello)
  unfolding read_hello
  read_hello-Ends hello = early-Ends (ltb (length hello) 34) (length hello) 35 none _ λ long.
      at-Ends hello 34 _ (omega arith) λ n.
        unless-Ends (length hello) (35 + n + 2) none _
          λ fits. skip_cipher_suites-Ends hello (35 + n) (omega arith)

  read_record-Ends : (handshake : Bytes) → Ends (read_record handshake)
  unfolding read_record
  read_record-Ends handshake = unless-Ends (length handshake) 4 none _ λ long.
      at-Ends handshake 0 _ (omega arith) λ kind. at-Ends handshake 1 _ (omega arith) λ b1.
        at-Ends handshake 2 _ (omega arith) λ b2. at-Ends handshake 3 _ (omega arith) λ b3.
          let n = b1 * 65536 + b2 * 256 + b3 in
          guard-Ends (not (nat_eq kind 1)) (nat_eq n 0) (length handshake) (4 + n) none _ λ fits.
            slice-Ends handshake 4 (4 + n) _ (omega arith) (omega arith)
              λ hello l. read_hello-Ends hello

  -- Whatever bytes an application sends, reading the server name of a TLS ClientHello from them ends
  -- with a result: no index and no slice is out of range, and the loops stop within their fuel.
  pub detect_tls_server_name-Ends : (payload : Bytes) → Ends (detect_tls_server_name payload)
  unfolding detect_tls_server_name
  detect_tls_server_name-Ends payload = unless-Ends (length payload) 5 none _ λ long.
      at-Ends payload 0 _ (omega arith) λ kind. uint16-Ends payload 3 _ (omega arith) λ n.
        guard-Ends (not (nat_eq kind 0x16)) (nat_eq n 0) (length payload) (5 + n) none _ λ fits.
          slice-Ends payload 5 (5 + n) _ (omega arith) (omega arith)
            λ handshake l. read_record-Ends handshake
