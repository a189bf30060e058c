-- ===== src/Proxy/Course.antt =====
-- What may happen to one request to the local proxy, as data: its calls and answers in their order.
use proxy_rule_manager.Common.{
  ℕ, Bool, true, false, Option, none, some, List, [], ◌∷◌, ◌++◌, ◌≡◌, ◌≢◌,
}
use proxy_rule_manager.Text.{Text}
use proxy_rule_manager.Platform.{Bytes}
use proxy_rule_manager.Model.{RuleTarget, proxy, direct, reject}
use proxy_rule_manager.Proxy.{
  Failure, ok, err, Setting, Event, Transport, responded, sent, dialed, asked_upstream,
  build_direct_dialer, refused_connect,
}

-- How a tunnel was tried, in its calls and its failure: DIRECT dials the requested address, any other
-- target dials the upstream proxy and asks it for the requested address.
pub data Attempt (o : Setting) (host_port : Text) (target : RuleTarget)
    : List Event → Option Failure → Type 0 where
  no_adapter :
      (target ≡ direct)
      → (e : Failure) → (build_direct_dialer o ≡ err e)
      → Attempt o host_port target [] (some e)
  straight :
      (target ≡ direct)
      → (local : Option Bytes) → (build_direct_dialer o ≡ ok local)
      → Attempt o host_port target (dialed local host_port ∷ []) (o.dial local host_port)
  unreached :
      (target ≢ direct)
      → (e : Failure) → (o.dial none o.upstream_proxy_addr ≡ some e)
      → Attempt o host_port target (dialed none o.upstream_proxy_addr ∷ []) (some e)
  unwritten :
      (target ≢ direct)
      → (o.dial none o.upstream_proxy_addr ≡ none)
      → (e : Failure) → (o.write_connect host_port ≡ some e)
      → Attempt o host_port target
          (dialed none o.upstream_proxy_addr ∷ asked_upstream host_port ∷ [])
          (some e)
  asked :
      (target ≢ direct)
      → (o.dial none o.upstream_proxy_addr ≡ none)
      → (o.write_connect host_port ≡ none)
      → Attempt o host_port target
          (dialed none o.upstream_proxy_addr ∷ asked_upstream host_port ∷ [])
          (refused_connect o.read_response)

-- The calls and answers of one request, by its kind, all of them and in their order.
pub data Course (o : Setting) (host_port : Text) (target : RuleTarget)
    : Bool → List Event → Type 0 where
  rejected :
      (is_connect : Bool)
      → (target ≡ reject)
      → Course o host_port target is_connect (responded 403 ∷ [])
  forwarded :
      (target ≢ reject)
      → (t : Transport) → ((target ≡ proxy) → t.via ≡ some o.upstream_proxy_addr)
      → ((target ≢ proxy) → t.via ≡ none)
      → (code : ℕ) → Course o host_port target false (sent t ∷ responded code ∷ [])
  unsupported :
      (target ≢ reject)
      → (o.hijackable ≡ false)
      → Course o host_port target true (responded 500 ∷ [])
  not_hijacked :
      (target ≢ reject)
      → (o.hijackable ≡ true)
      → (e : Failure) → (o.hijack ≡ some e)
      → Course o host_port target true []
  not_connected :
      (target ≢ reject)
      → (o.hijackable ≡ true)
      → (o.hijack ≡ none)
      → (calls : List Event) (e : Failure) → Attempt o host_port target calls (some e)
      → Course o host_port target true (calls ++ responded 502 ∷ [])
  tunnelled :
      (target ≢ reject)
      → (o.hijackable ≡ true)
      → (o.hijack ≡ none)
      → (calls : List Event) → Attempt o host_port target calls none
      → Course o host_port target true (calls ++ responded 200 ∷ [])
