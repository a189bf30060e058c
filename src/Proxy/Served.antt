-- ===== src/Proxy/Served.antt =====
-- What a request to the local proxy leaves behind it.
use proxy_rule_manager.Common.{
  Bool, true, false, List, [], ◌∷◌, ◌++◌, if◌then◌else◌, ◌==◌, ◌≡◌, ◌≢◌, refl, ap, ◌∙◌, Bool-cases,
  inl, inr, true≢false,
}
use proxy_rule_manager.Text.{Text, codes}
use proxy_rule_manager.Platform.{Platform, equal_fold}
use proxy_rule_manager.Model.{RuleTarget, reject, Rule, active, closed, TrafficLog}
use proxy_rule_manager.Model.Equality.{target_beq}
use proxy_rule_manager.Rules.Engine.{match}
use proxy_rule_manager.Logs
use proxy_rule_manager.Logs.Window.{AllNew}
use proxy_rule_manager.Proxy.{
  Setting, HttpRequest, World, Event, responded, emit, finished, finish_log, add_log, open_entry,
  split_endpoint, default_http_host, handle_forward_http, handle_connect, handle_http,
}
use proxy_rule_manager.Proxy.Course.{Course, rejected}
use proxy_rule_manager.Proxy.Laws.{
  Serves, Calls-here, Calls-emit, Calls-finish, forward-Serves, connect-Serves, update_first-append,
  closed≢active,
}

-- The events are those before and the new ones of a course for the target, and the log has one entry
-- more, with the given identifier and target and a status that is not active.
pub record IsServed (o : Setting) (id host_port : Text) (target : RuleTarget) (is_connect : Bool)
    (before after : World) : Type 0 where
  pub new : List Event
  pub events : after.events ≡ before.events ++ new
  pub course : Course o host_port target is_connect new
  pub entry : TrafficLog
  pub logged : after.logs.all ≡ before.logs.all ++ entry ∷ []
  pub named : entry.id ≡ id
  pub ended : entry.status ≢ active
  pub aimed : entry.target ≡ target

Serves-IsServed :
    (o : Setting) (id host_port : Text) (target : RuleTarget) (is_connect : Bool)
    (entry : TrafficLog) (w after : World)
    → entry.id ≡ id
    → entry.target ≡ target
    → AllNew id w.logs.all
    → Serves o id host_port target is_connect (add_log entry w) after
    → IsServed o id host_port target is_connect w after
unfolding add_log finished Logs.update Logs.add
Serves-IsServed o id host_port target is_connect entry w after named aimed new s =
    let f = s.finish in
    record {
      new = s.new;
      events = s.events;
      course = s.course;
      entry = finished o f.upload f.download f.status f.message entry;
      logged =
          ap (λ l. l.all) f.same
          ∙ update_first-append id (finished o f.upload f.download f.status f.message) w.logs.all
              entry new named;
      named = named;
      ended = f.ended;
      aimed = aimed;
    }

module _ ⦃p : Platform⦄ (o : Setting) (rules : List Rule) (id : Text) where
  -- The host and port whose rule decides.
  abbrev pub asked_endpoint : HttpRequest → Text × Text
  asked_endpoint r =
      split_endpoint (if equal_fold r.method (codes "CONNECT") then r.host else default_http_host r)

  rejected-Serves :
      (host_port : Text) (target : RuleTarget) (is_connect : Bool) (w : World)
      → target ≡ reject
      → Serves o id host_port target is_connect w
          (finish_log o id 0 0 closed [] (emit (responded 403) w))
  rejected-Serves host_port target is_connect w same =
      Calls-finish o id host_port target 0 0 closed [] (Calls-emit (responded 403) (Calls-here w))
        (rejected is_connect same) closed≢active

  not_reject : {target : RuleTarget} → (target == reject) ≡ false → target ≢ reject
  not_reject {target} e same = true≢false ((target_beq.same_iff target reject).1 same) e

  handle_forward_http-IsServed :
      (r : HttpRequest) (host_port : Text) (w : World)
      → AllNew id w.logs.all
      → IsServed o id host_port
          (match (split_endpoint (default_http_host r)).0 rules).0.target
          false
          w
          (handle_forward_http o rules r id w)
  unfolding handle_forward_http open_entry
  handle_forward_http-IsServed r host_port w new =
      let endpoint = split_endpoint (default_http_host r) in
      let found = match endpoint.0 rules in
      let entry = open_entry o id endpoint (codes "HTTP") found in
      let logged = add_log entry w in
      let target = found.0.target in
      Serves-IsServed o id host_port target false entry w (handle_forward_http o rules r id w) refl
        refl new
        (elim (Bool-cases (target == reject)) [
          | inl e ↦ rw e (
              rejected-Serves host_port target false logged
                ((target_beq.same_iff target reject).0 e))
          | inr e ↦ rw e (forward-Serves o id host_port target (not_reject e) logged)
        ])

  handle_connect-IsServed :
      (r : HttpRequest) (w : World)
      → AllNew id w.logs.all
      → IsServed o id r.host
          (match (split_endpoint r.host).0 rules).0.target
          true
          w
          (handle_connect o rules r id w)
  unfolding handle_connect open_entry
  handle_connect-IsServed r w new =
      let endpoint = split_endpoint r.host in
      let found = match endpoint.0 rules in
      let entry = open_entry o id endpoint (codes "HTTPS CONNECT") found in
      let logged = add_log entry w in
      let target = found.0.target in
      Serves-IsServed o id r.host target true entry w (handle_connect o rules r id w) refl refl new
        (elim (Bool-cases (target == reject)) [
          | inl e ↦
              rw e (
                rejected-Serves r.host target true logged ((target_beq.same_iff target reject).0 e))
          | inr e ↦ rw e (connect-Serves o id r.host target (not_reject e) logged)
        ])

  -- A request to the local proxy, whatever the network answers: the log gains exactly one entry,
  -- with the target of the host's rule, and it does not stay active. The calls and answers are
  -- exactly these. A host that a rule rejects gets 403 and nothing else happens. A forwarded request
  -- is sent once, through the upstream proxy for PROXY and through none otherwise, and answered. A
  -- tunnel gets 500 where the connection cannot be taken over, and no answer where taking it over
  -- fails; otherwise DIRECT dials the requested address, unless its adapter is not found, and any
  -- other target dials the upstream proxy and, once connected, asks it for the requested address;
  -- the answer is 200 where that ends without a failure and 502 where it fails. The request's
  -- identifier is to be new in the log.
  pub handle_http-IsServed :
      (r : HttpRequest) (w : World)
      → AllNew id w.logs.all
      → IsServed o id r.host
          (match (asked_endpoint r).0 rules).0.target
          (equal_fold r.method (codes "CONNECT"))
          w
          (handle_http o rules r id w)
  unfolding handle_http
  handle_http-IsServed r w new = elim (Bool-cases (equal_fold r.method (codes "CONNECT"))) [
    | inl e ↦ rw e (handle_connect-IsServed r w new)
    | inr e ↦ rw e (handle_forward_http-IsServed r r.host w new)
  ]
