-- ===== src/Tun/Payload.antt =====
-- The first bytes of an application's connection: detectHostFromInitialPayload and detectHTTPHost of
-- internal/tun/app_routing.go, captureInitialPayload of internal/tun/service_windows.go.
pub mod Laws
use proxy_rule_manager.Common.{
  ℕ, zero, suc, ◌+◌, ◌-◌, Bool, true, false, ◌||◌, ◌&&◌, not, Option, none, some, List, [], ◌∷◌,
  ◌++◌, if◌then◌else◌, ◌==◌, nat_eq, ltb, leb, length, take, drop, any,
}
use proxy_rule_manager.Text.{
  Text, codes, text_beq, trim_space, trim_right, is_space, is_empty, has_prefix,
}
use proxy_rule_manager.Platform.{Platform, Bytes, to_lower, to_upper}
use proxy_rule_manager.Net.HostPort.{normalize_detected_host}
use proxy_rule_manager.Tun.Sni.{Reading, done, panicked, out_of_fuel, ◌>>=◌, detect_tls_server_name}

-- The bytes up to the first occurrence of a text and with it.
unfoldable pub cut_after : Bytes → Bytes → Option Bytes
unfolding has_prefix
cut_after t [] = none
cut_after t (b ∷ s) =
    let later = cut_after t s in
    if has_prefix (b ∷ s) t then some t else elim later [ none ↦ none | some u ↦ some (b ∷ u) ]

-- bytes.Split at line feeds: the first part and those that follow
unfoldable pub split_lines : Bytes → Bytes × List Bytes
split_lines [] = ([], [])
split_lines (b ∷ s) =
    let (line, lines) = split_lines s in
    if nat_eq b 10 then ([], line ∷ lines) else (b ∷ line, lines)

-- strings.Fields, with the field that is being read
unfoldable pub fields : Text → Text → List Text
unfolding is_space
fields current [] = if is_empty current then [] else current ∷ []
fields current (c ∷ s) =
    let closed = fields [] s in
    let longer = fields (current ++ c ∷ []) s in
    if is_space c then (if is_empty current then closed else current ∷ closed) else longer

abbrev pub methods : List Text
methods =
    codes "GET"
    ∷ codes "POST"
    ∷ codes "PUT"
    ∷ codes "DELETE"
    ∷ codes "PATCH"
    ∷ codes "HEAD"
    ∷ codes "OPTIONS"
    ∷ codes "CONNECT"
    ∷ codes "TRACE"
    ∷ []

module _ ⦃p : Platform⦄ where
  unfoldable pub looks_like_http_request_line : Text → Bool
  unfolding fields
  looks_like_http_request_line line = elim (fields [] line) [
    | [] ↦ false
    | method ∷ [] ↦ false
    | method ∷ (_ ∷ _) ↦ any (λ m. m == to_upper method) methods
  ]

  -- The target of a request line that is not empty, and its method in upper case.
  unfoldable pub host_of_target : Text → Text → Text
  unfolding has_prefix normalize_detected_host
  host_of_target method target =
      if method == codes "CONNECT"
      then normalize_detected_host target
      else if has_prefix (to_lower target) (codes "http://")
          || has_prefix (to_lower target) (codes "https://")
      then elim (p.url_hostname target) [ none ↦ [] | some host ↦ normalize_detected_host host ]
      else []

  unfoldable pub extract_host_from_request_line : Text → Text
  unfolding fields host_of_target trim_space
  extract_host_from_request_line line = elim (fields [] line) [
    | [] ↦ []
    | method ∷ [] ↦ []
    | method ∷ (target ∷ _) ↦
        if is_empty (trim_space target)
        then []
        else host_of_target (to_upper method) (trim_space target)
  ]

  -- strings.TrimSpace(strings.TrimRight(string(raw), "\\r"))
  abbrev pub clean_line : Bytes → Text
  clean_line raw = trim_space (trim_right (λ c. nat_eq c 13) (p.decode raw))

  -- The loop over the lines of the header.
  unfoldable pub find_host_header : List Bytes → Option Text
  unfolding has_prefix normalize_detected_host trim_space trim_right
  find_host_header [] = none
  find_host_header (raw ∷ lines) =
      let later = find_host_header lines in
      let line = clean_line raw in
      let host = normalize_detected_host (trim_space (drop 5 line)) in
      if is_empty line
      then none
      else if has_prefix (to_lower line) (codes "host:")
      then (if is_empty host then later else some host)
      else later

  -- The part of `detectHTTPHost` behind the cutting of the block.
  unfoldable pub host_of_lines : Bytes → List Bytes → Option Text
  unfolding looks_like_http_request_line extract_host_from_request_line find_host_header trim_space
      trim_right
  host_of_lines first lines =
      let request_line = clean_line first in
      let host = extract_host_from_request_line request_line in
      if not (looks_like_http_request_line request_line)
      then none
      else if is_empty host
      then find_host_header lines
      else some host

  abbrev pub header_block : Bytes → Bytes
  header_block payload = elim (cut_after (13 ∷ 10 ∷ 13 ∷ 10 ∷ []) payload) [
    | some block ↦ block
    | none ↦ elim (cut_after (10 ∷ 10 ∷ []) payload) [ some block ↦ block | none ↦ payload ]
  ]

  unfoldable pub detect_http_host : Bytes → Option Text
  unfolding cut_after split_lines host_of_lines
  detect_http_host payload =
      let (first, lines) = split_lines (header_block payload) in host_of_lines first lines

  -- The host and its source, given the name that the TLS part found.
  unfoldable pub named_host : Bytes → Option Text → Text × Text
  unfolding detect_http_host
  named_host payload (some host) = (host, codes "tls-sni")
  named_host payload none = elim (detect_http_host payload) [
    | some host ↦ (host, codes "http-host")
    | none ↦ ([], [])
  ]

  unfoldable pub detect_host_from_initial_payload : Bytes → Reading (Text × Text)
  unfolding detect_tls_server_name named_host
  detect_host_from_initial_payload payload = do
    found ← detect_tls_server_name payload
    done (named_host payload found)

-- How the reads of a connection end.
pub data ReadError : Type 0 where
  eof timeout : ReadError
  failed : Text → ReadError

-- The bytes of a connection as they arrive, each part in one read if the buffer is large enough,
-- then the error of every further read, and whether its deadline can be set.
pub record Incoming : Type 0 where
  pub deadline : Option Text
  pub segments : List Bytes
  pub end : ReadError

-- What the function answers after an error of a read.
abbrev pub after_error : ReadError → Option ReadError
after_error timeout = none
after_error eof = some eof
after_error (failed e) = some (failed e)

abbrev pub read_size : ℕ → Bytes → ℕ
read_size limit buf = if ltb (limit - length buf) 4096 then limit - length buf else 4096

-- What is left of the segments after a read.
abbrev pub left_over : ℕ → Bytes → List Bytes → List Bytes
left_over size segment segments =
    if leb (length segment) size then segments else drop size segment ∷ segments

module _ ⦃p : Platform⦄ where
  -- The loop, on fuel.
  unfoldable pub capture :
      ℕ → ℕ → Bytes → List Bytes → ReadError → Reading (Bytes × Option ReadError)
  unfolding detect_host_from_initial_payload
  capture zero limit buf segments end = out_of_fuel
  capture (suc fuel) limit buf [] end =
      if ltb (length buf) limit then done (buf, after_error end) else done (buf, none)
  capture (suc fuel) limit buf (segment ∷ segments) end =
      let size = read_size limit buf in
      let longer = buf ++ take size segment in
      let rest = capture fuel limit longer (left_over size segment segments) end in
      if ltb (length buf) limit
      then (if is_empty (take size segment) then rest else do
        found ← detect_host_from_initial_payload longer
        if is_empty found.0 then rest else done (longer, none))
      else done (buf, none)

  -- Each turn adds a byte to the buffer or uses up a segment.
  unfoldable pub capture_initial_payload : Incoming → ℕ → Reading (Bytes × Option ReadError)
  unfolding capture
  capture_initial_payload conn limit =
      if nat_eq limit 0 then done ([], none) else elim conn.deadline [
        | some e ↦ done ([], some (failed e))
        | none ↦ capture (suc (limit + length conn.segments)) limit [] conn.segments conn.end
      ]
