-- ===== src/Tests/Matching.antt =====
-- Concrete runs of the rule engine, the process matcher and the application routing.
use proxy_rule_manager.Common.{ℕ, ◌≡◌, ◌≢◌, ◌⊎◌, none, some, List, [], ◌∷◌, ◌++◌, All, refl, arith}
use proxy_rule_manager.Text.{
  Text, codes, text_eq, trim, trim_right, trim_suffix, trim_space, has_prefix, has_suffix, contains,
  replace_all, count,
}
use proxy_rule_manager.Net.{to4, net_contains}
use proxy_rule_manager.Model.Equality.{type_eq}
use proxy_rule_manager.Platform.{Bytes, to_lower}
use proxy_rule_manager.Model.{rules_proxy_fallback, force_direct, force_proxy}
use proxy_rule_manager.Net.HostPort.{normalize_detected_host}
use proxy_rule_manager.Rules.Engine.{
  normalize_host, match_rule, matched_at, fallback, fallback_matched, match,
}
use proxy_rule_manager.Rules.Engine.FirstMatch.{Applies, FirstMatch, hit, skip, match_first}
use proxy_rule_manager.Procmatch.{normalize_process_path, match_process}
use proxy_rule_manager.Procmatch.Laws.{Answer, match_process-Answer, match_process_trailing}
use proxy_rule_manager.Tun.Sni.{
  done, at, slice, uint16, server_names, parse_server_name_extension, find_extension,
  read_extensions, skip_compression, skip_cipher_suites, read_hello, read_record,
  detect_tls_server_name,
}
use proxy_rule_manager.Tun.Sni.Total.{Ends, detect_tls_server_name-Ends}
use proxy_rule_manager.Tun.Route.{decide_app_route, route_by_rules, route_by_address}
use proxy_rule_manager.Tun.Route.Laws.{
  RejectedByRule, decide_app_route-FirstMatch, decide_app_route-reject,
}
use proxy_rule_manager.Tests.{ascii, ten, example_com, ads, tens_rule, last_rule, sample_rules}

engine : Unit {0}
unfolding normalize_host match_rule match normalize_detected_host normalize_process_path
    match_process decide_app_route route_by_rules route_by_address to4 net_contains type_eq text_eq
    trim trim_right trim_suffix trim_space has_prefix has_suffix contains replace_all count
engine = tt

engine_tests :
    (match (codes "www.Example.com.") sample_rules ≡ (example_com, matched_at 0 example_com))
    × (match (codes "ads.net") sample_rules ≡ (ads, matched_at 1 ads))
    × (match (codes "notexample.com") sample_rules ≡ (last_rule, matched_at 2 last_rule))
    × (match (codes "10.0.0.1") (tens_rule ∷ []) ≡ (tens_rule, matched_at 0 tens_rule))
    × (match (codes "a.net") (example_com ∷ []) ≡ (fallback, fallback_matched (example_com ∷ [])))
unfolding engine
engine_tests = (refl, refl, refl, refl, refl)

match_first_example :
    ((n : ℕ) × (r : _) × FirstMatch (normalize_host (codes "ads.net")) sample_rules n r
      × (match (codes "ads.net") sample_rules ≡ (r, matched_at n r)))
    ⊎ (All (λ r. ¬ Applies (normalize_host (codes "ads.net")) r) sample_rules
        × (match (codes "ads.net") sample_rules ≡ (fallback, fallback_matched sample_rules)))
match_first_example = match_first (codes "ads.net") sample_rules

abbrev queries : List Text
queries = codes " Codex.exe " ∷ codes "path-prefix:C:/Games/" ∷ codes "D:\\Tools\\" ∷ []

process_tests :
    (match_process (codes "codex.EXE") [] queries ≡ some (codes " Codex.exe "))
    × (match_process (codes "a.exe") (codes "C:\\games\\A.exe") queries
        ≡ some (codes "path-prefix:C:/Games/"))
    × (match_process (codes "a.exe") (codes "C:\\gamesA.exe") (codes "path-prefix:C:/Games/" ∷ [])
        ≡ none)
    × (match_process (codes "other.exe") [] queries ≡ some (codes "D:\\Tools\\"))
unfolding engine
process_tests = (refl, refl, refl, refl)

match_process-Answer_example :
    Answer
      (to_lower (trim_space (codes "codex.EXE")))
      (normalize_process_path [])
      queries
      (match_process (codes "codex.EXE") [] queries)
match_process-Answer_example = match_process-Answer (codes "codex.EXE") [] queries

match_process_trailing_example :
    match_process (codes "other.exe") [] (codes "D:/Tools/" ∷ []) ≡ some (codes "D:/Tools/")
unfolding engine
match_process_trailing_example =
    match_process_trailing (codes "other.exe") [] (codes "D:/Tools/") (codes "d:/tools/")
      (codes "d:\\tools") [] refl refl refl refl refl refl

-- A ClientHello for the host a.b, and the same cut short.
abbrev hello : Bytes
hello =
    0x16
      ∷ 3
      ∷ 1
      ∷ 0
      ∷ 59
      ∷ 1
      ∷ 0
      ∷ 0
      ∷ 55
      ∷ 3
      ∷ 3
      ∷ (0 ∷ 0 ∷ 0 ∷ 0 ∷ 0 ∷ 0 ∷ 0 ∷ 0 ∷ 0 ∷ 0 ∷ 0 ∷ 0 ∷ 0 ∷ 0 ∷ 0 ∷ 0 ∷ 0 ∷ 0 ∷ 0 ∷ 0 ∷ 0 ∷ 0 ∷ 0
          ∷ 0 ∷ 0 ∷ 0 ∷ 0 ∷ 0 ∷ 0 ∷ 0 ∷ 0 ∷ 0 ∷ [])
    ++ 0 ∷ 0 ∷ 2 ∷ 19 ∷ 1 ∷ 1 ∷ 0 ∷ 0 ∷ 12 ∷ 0 ∷ 0 ∷ 0 ∷ 8 ∷ 0 ∷ 6 ∷ 0 ∷ 0 ∷ 3 ∷ b'a' ∷ b'.' ∷ b'b'
      ∷ []

tls_tests : detect_tls_server_name hello ≡ done (some (codes "a.b"))
unfolding detect_tls_server_name read_record read_hello skip_cipher_suites skip_compression
    read_extensions find_extension parse_server_name_extension server_names uint16 slice at engine
tls_tests = refl

detect_tls_server_name-Ends_example : Ends (detect_tls_server_name hello)
detect_tls_server_name-Ends_example = detect_tls_server_name-Ends hello

decide_app_route-FirstMatch_example :
    (decide_app_route (codes "ads.net:443") ten sample_rules rules_proxy_fallback).rule ≡ ads
unfolding engine
decide_app_route-FirstMatch_example =
    decide_app_route-FirstMatch (codes "ads.net:443") ten sample_rules rules_proxy_fallback 1 ads
      (λ e. ground (arith, e)) (λ e. ground (arith, e)) (ground arith)
      (skip (ground arith) (hit (refl, refl)))

decide_app_route-reject_example :
    (rules_proxy_fallback ≢ force_direct)
    × (rules_proxy_fallback ≢ force_proxy)
    × RejectedByRule [] ten (tens_rule ∷ [])
unfolding engine
decide_app_route-reject_example =
    decide_app_route-reject [] ten (tens_rule ∷ []) rules_proxy_fallback refl
