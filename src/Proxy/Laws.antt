-- ===== src/Proxy/Laws.antt =====
-- The handlers' log entries and network calls.
use proxy_rule_manager.Common.{
  ℕ, Bool, true, false, Option, none, some, List, [], ◌∷◌, ◌++◌, if◌then◌else◌, ◌==◌, ◌≡◌, ◌≢◌,
  refl, sym, ap, ◌∙◌, arith, Bool-cases, inl, inr, Option-cases, ==-ne, true≢false, append_assoc,
  append-nil,
}
use proxy_rule_manager.Text.{Text, text_beq, codes}
use proxy_rule_manager.Text.Laws.{text_ne, text_eq_refl}
use proxy_rule_manager.Platform.{Platform, Bytes}
use proxy_rule_manager.Model.{
  RuleTarget, proxy, direct, reject, TrafficStatus, active, closed, error, TrafficLog,
}
use proxy_rule_manager.Model.Equality.{target_beq}
use proxy_rule_manager.Logs
use proxy_rule_manager.Logs.Window.{AllNew}
use proxy_rule_manager.Proxy.{
  Failure, Result, ok, err, Setting, World, Event, responded, sent, dialed, asked_upstream,
  RoundTrip, refused, answered, Transport, emit, finished, finish_log, end_status, end_message,
  build_direct_dialer, build_transport, forward, connect_upstream, connect_tunnel, run_tunnel,
  connect, answer_forward, ask_upstream, connect_direct, end_tunnel, hijacked, note_error,
}
use proxy_rule_manager.Proxy.Course.{
  Attempt, no_adapter, straight, unreached, unwritten, asked, Course, forwarded, unsupported,
  not_hijacked, not_connected, tunnelled,
}

pub update_first-append :
    (id : Text) (mutator : TrafficLog → TrafficLog) (entries : List TrafficLog) (entry : TrafficLog)
    → AllNew id entries
    → entry.id ≡ id
    → Logs.update_first id mutator (entries ++ entry ∷ []) ≡ entries ++ mutator entry ∷ []
unfolding Logs.update_first
update_first-append id mutator [] entry new same = rw same (rw (text_eq_refl id))
update_first-append id mutator (q ∷ entries) entry (d, new) same =
    rw (text_ne q.id id d) (ap (λ l. q ∷ l) (update_first-append id mutator entries entry new same))

pub closed≢active : closed ≢ active
closed≢active e = ground (arith, e)

error≢active : error ≢ active
error≢active e = ground (arith, e)

end_status≢active : (e : Option Failure) → end_status e ≢ active
end_status≢active none = closed≢active
end_status≢active (some e) = error≢active

-- The log store changed by one update of the entry, to a status that is not active.
pub record Finishes (o : Setting) (id : Text) (before after : Logs.Store) : Type 0 where
  pub upload : ℕ
  pub download : ℕ
  pub status : TrafficStatus
  pub message : Text
  pub ended : status ≢ active
  pub same : after ≡ Logs.update id (finished o upload download status message) before

-- The world after a step: the log store as before, and the new events behind those before.
pub record Calls (new : List Event) (before after : World) : Type 0 where
  pub events : after.events ≡ before.events ++ new
  pub logs : after.logs ≡ before.logs

pub Calls-here : (w : World) → Calls [] w w
Calls-here w = record { events = sym (append-nil w.events); logs = refl }

pub Calls-emit :
    {new : List Event} {w w' : World} (e : Event)
    → Calls new w w'
    → Calls (new ++ e ∷ []) w (emit e w')
unfolding emit
Calls-emit {new} {w} e c = record {
  events = ap (λ l. l ++ e ∷ []) c.events ∙ append_assoc w.events new (e ∷ []);
  logs = c.logs;
}

pub record Serves (o : Setting) (id host_port : Text) (target : RuleTarget) (is_connect : Bool)
    (before after : World) : Type 0 where
  pub new : List Event
  pub events : after.events ≡ before.events ++ new
  pub course : Course o host_port target is_connect new
  pub finish : Finishes o id before.logs after.logs

module _ (o : Setting) (id host_port : Text) (target : RuleTarget) where
  pub Calls-finish :
      {new : List Event} {w w' : World} {is_connect : Bool} (upload download : ℕ)
      (status : TrafficStatus) (message : Text)
      → Calls new w w'
      → Course o host_port target is_connect new
      → status ≢ active
      → Serves o id host_port target is_connect w
          (finish_log o id upload download status message w')
  unfolding finish_log
  Calls-finish {new} upload download status message c course h = record {
    new = new;
    events = c.events;
    course = course;
    finish = record {
      upload = upload;
      download = download;
      status = status;
      message = message;
      ended = h;
      same = ap (Logs.update id (finished o upload download status message)) c.logs;
    };
  }

  either-Serves :
      {is_connect : Bool} {w x y : World} (b : Bool) {c : Bool}
      → c ≡ b
      → (c ≡ true → Serves o id host_port target is_connect w x)
      → (c ≡ false → Serves o id host_port target is_connect w y)
      → Serves o id host_port target is_connect w (if b then x else y)
  either-Serves true e s t = s e
  either-Serves false e s t = t e

  module _ (served : target ≢ reject) where
    answer_forward-Serves :
        {w w' : World} (t : Transport) (r : RoundTrip)
        → ((code : ℕ) → Course o host_port target false (sent t ∷ responded code ∷ []))
        → Calls (sent t ∷ []) w w'
        → Serves o id host_port target false w (answer_forward o id r w')
    unfolding answer_forward
    answer_forward-Serves t (refused upload e) course c =
        Calls-finish upload 0 error e.text (Calls-emit (responded 502) c) (course 502) error≢active
    answer_forward-Serves t (answered code upload download e) course c =
        Calls-finish upload download (end_status e) (end_message e) (Calls-emit (responded code) c)
          (course code) (end_status≢active e)

    build_transport-Course :
        (code : ℕ)
        → Course o host_port target false (sent (build_transport o target) ∷ responded code ∷ [])
    unfolding build_transport
    build_transport-Course code =
        forwarded served (build_transport o target)
          (λ e. rw ((target_beq.same_iff target proxy).1 e) refl)
          (λ d. rw (==-ne target proxy d) refl) code

    pub forward-Serves : (w : World) → Serves o id host_port target false w (forward o id target w)
    unfolding forward
    forward-Serves w =
        let t = build_transport o target in
        answer_forward-Serves t (o.client_do t) build_transport-Course
          (Calls-emit (sent t) (Calls-here w))

    -- What an attempt to connect leaves, its failure included.
    record Tries (before : World) (after : World × Option Failure) : Type 0 where
      calls : List Event
      made : Calls calls before after.0
      attempt : Attempt o host_port target calls after.1

    ask_upstream-Tries :
        (w w' : World)
        → target ≢ direct
        → o.dial none o.upstream_proxy_addr ≡ none
        → Calls (dialed none o.upstream_proxy_addr ∷ []) w w'
        → Tries w (ask_upstream o host_port w')
    unfolding ask_upstream
    ask_upstream-Tries w w' d reached c =
        let made = Calls-emit (asked_upstream host_port) c in
        elim (Option-cases (o.write_connect host_port)) [
          | inl e ↦
              rw (e, ask_upstream) (record { calls = _; made = made; attempt = asked d reached e })
          | inr (f, e) ↦
              rw (e, ask_upstream)
                (record { calls = _; made = made; attempt = unwritten d reached f e })
        ]

    connect_upstream-Tries :
        (w : World) → target ≢ direct → Tries w (connect_upstream o host_port w)
    unfolding connect_upstream
    connect_upstream-Tries w d =
        let made = Calls-emit (dialed none o.upstream_proxy_addr) (Calls-here w) in
        elim (Option-cases (o.dial none o.upstream_proxy_addr)) [
          | inl e ↦
              rw (e, connect_upstream)
                (ask_upstream-Tries w (emit (dialed none o.upstream_proxy_addr) w) d e made)
          | inr (f, e) ↦
              rw (e, connect_upstream)
                (record { calls = _; made = made; attempt = unreached d f e })
        ]

    connect_direct-Tries :
        (w : World) (dialer : Result (Option Bytes))
        → build_direct_dialer o ≡ dialer
        → target ≡ direct
        → Tries w (connect_direct o host_port dialer w)
    unfolding connect_direct
    connect_direct-Tries w (err f) b e = record {
      calls = [];
      made = Calls-here w;
      attempt = no_adapter e f b;
    }
    connect_direct-Tries w (ok local) b e = record {
      calls = dialed local host_port ∷ [];
      made = Calls-emit (dialed local host_port) (Calls-here w);
      attempt = straight e local b;
    }

    connect_tunnel-Tries : (w : World) → Tries w (connect_tunnel o target host_port w)
    unfolding connect_tunnel
    connect_tunnel-Tries w = elim (Bool-cases (target == direct)) [
      | inl e ↦ rw e (
          connect_direct-Tries w (build_direct_dialer o) refl
            ((target_beq.same_iff target direct).0 e))
      | inr e ↦ rw e (
          connect_upstream-Tries w
            (λ same. true≢false ((target_beq.same_iff target direct).1 same) e))
    ]

    module _ ⦃p : Platform⦄ (able : o.hijackable ≡ true) where
      end_tunnel-Serves :
          {calls : List Event} {w w' : World} (failure : Option Failure)
          → o.hijack ≡ none
          → Calls calls w w'
          → Attempt o host_port target calls failure
          → Serves o id host_port target true w (end_tunnel o id failure w')
      unfolding end_tunnel
      end_tunnel-Serves {calls} (some e) taken c attempt =
          Calls-finish 0 0 error e.text (Calls-emit (responded 502) c)
            (not_connected served able taken calls e attempt) error≢active
      end_tunnel-Serves {calls} none taken c attempt =
          let ((upload, download), (first, second)) = o.tunnel in
          let final = note_error second (note_error first none) in
          Calls-finish upload download (end_status final) (end_message final)
            (Calls-emit (responded 200) c) (tunnelled served able taken calls attempt)
            (end_status≢active final)

      hijacked-Serves :
          (w : World) (failure : Option Failure)
          → o.hijack ≡ failure
          → Serves o id host_port target true w (hijacked o id target host_port failure w)
      unfolding hijacked run_tunnel
      hijacked-Serves w (some e) taken =
          Calls-finish 0 0 error e.text (Calls-here w) (not_hijacked served able e taken)
            error≢active
      hijacked-Serves w none taken =
          let t = connect_tunnel-Tries w in
          end_tunnel-Serves (connect_tunnel o target host_port w).1 taken t.made t.attempt

    pub connect-Serves :
        ⦃p : Platform⦄ (w : World)
        → Serves o id host_port target true w (connect o id target host_port w)
    unfolding connect
    connect-Serves w =
        either-Serves o.hijackable refl (λ e. hijacked-Serves e w o.hijack refl)
          (λ e.
            Calls-finish 0 0 error (codes "hijacking not supported")
              (Calls-emit (responded 500) (Calls-here w)) (unsupported served e) error≢active)
