-- ===== src/Tun/Serve/Laws.antt =====
-- The dials of a served connection against its target.
use proxy_rule_manager.Common.{
  ℕ, ◌+◌, ◌%◌, ◌^◌, ◌≡◌, ◌≢◌, refl, sym, ap, subst, ◌∙◌, Bool, true, false, ◌||◌, none, some, List,
  [], ◌∷◌, ◌++◌, if◌then◌else◌, ◌==◌, Bool-cases, Option-cases, inl, inr, append-nil, All,
  true≢false, arith,
}
use proxy_rule_manager.Text.{Text, codes, text_beq, trim_space, is_empty}
use proxy_rule_manager.Platform.{Platform, Bytes}
use proxy_rule_manager.Model.{RuleTarget, reject, direct}
use proxy_rule_manager.Model.Equality.{target_beq}
use proxy_rule_manager.Tun.Sni.{done, ◌>>=◌}
use proxy_rule_manager.Tun.Route.{decide_app_route}
use proxy_rule_manager.Tun.Payload.{detect_host_from_initial_payload}
use proxy_rule_manager.Tun.Payload.Laws.{
  IsCaptured, concat, capture_initial_payload-IsCaptured, detect_host_total,
}
use proxy_rule_manager.Tun.Table.{Connection, mark_accepted}
use proxy_rule_manager.Tun.Serve.{
  Outlet, Dial, dialed, asked, through, State, Dialing, dial_http, dial_upstream, dial_direct,
  dial_by_target, destination, build_direct_dialer, upstream_type, after_dial, serve_target,
  serve_accepted, serve_reflected_connection, closing,
}

-- A dial goes to the upstream proxy.
abbrev pub ToUpstream : Outlet → Dial → Type 0
ToUpstream o (dialed local addr) = (local ≡ none) × (addr ≡ trim_space o.upstream_proxy_addr)
ToUpstream o (asked _) = Unit
ToUpstream o (through upstream _) = upstream ≡ trim_space o.upstream_proxy_addr

module _ ⦃p : Platform⦄ where
  -- The upstream proxy is of a type that the program knows.
  abbrev pub is_supported : Outlet → Bool
  is_supported o =
      (is_empty (upstream_type o) || upstream_type o == codes "http")
      || (upstream_type o == codes "socks" || upstream_type o == codes "socks5")

  -- The dials that a target calls for, and when there are none.
  pub data Follows (o : Outlet) (dest : Text) : RuleTarget → List Dial → Type 0 where
    rejected : Follows o dest reject []
    without_adapter : (e : Text) → ((build_direct_dialer o).1 ≡ some e) → Follows o dest direct []
    straight :
        ((build_direct_dialer o).1 ≡ none)
        → Follows o dest direct (dialed (build_direct_dialer o).0 dest ∷ [])
    unsupported :
        (target : RuleTarget)
        → (target ≢ reject)
        → (target ≢ direct)
        → (is_supported o ≡ false)
        → Follows o dest target []
    upstream :
        (target : RuleTarget) (dials : List Dial)
        → (target ≢ reject)
        → (target ≢ direct)
        → (dials ≢ [])
        → All (ToUpstream o) dials
        → Follows o dest target dials

  neither : (a b : Bool) → a ≡ false → b ≡ false → (a || b) ≡ false
  neither a b e f = ground (arith, e, f)

  -- Dials to the upstream proxy, and at least one.
  abbrev Reaches : Outlet → List Dial → Type 0
  Reaches o dials = (dials ≢ []) × All (ToUpstream o) dials

  not_nil : (d : Dial) (dials : List Dial) → (d ∷ dials) ≢ []
  not_nil d dials h = ground (arith, h)

  dial_http-Reaches :
      (o : Outlet) (dest : Text) → Reaches o (dial_http o (trim_space o.upstream_proxy_addr) dest).0
  unfolding dial_http
  dial_http-Reaches o dest = elim (Option-cases (o.dial none (trim_space o.upstream_proxy_addr))) [
    | inl e ↦ rw (e, dial_http) (not_nil _ _, ((refl, refl), (tt, tt)))
    | inr (x, e) ↦ rw (e, dial_http) (not_nil _ _, ((refl, refl), tt))
  ]

  dial_upstream-Follows :
      (o : Outlet) (target : RuleTarget) (dest : Text)
      → target ≢ reject
      → target ≢ direct
      → Follows o dest target (dial_upstream o dest).0
  unfolding dial_upstream
  dial_upstream-Follows o target dest a b =
      elim (Bool-cases (is_empty (upstream_type o) || upstream_type o == codes "http")) [
        | inl e ↦
            let (some_dial, to) = dial_http-Reaches o dest in
            rw (e, dial_upstream) (upstream target _ a b some_dial to)
        | inr e ↦
            rw (e, dial_upstream)
              (elim (Bool-cases
                (upstream_type o == codes "socks" || upstream_type o == codes "socks5")) [
                  | inl f ↦ rw f (upstream target _ a b (not_nil _ _) (refl, tt))
                  | inr f ↦ rw f (unsupported target a b (neither _ _ e f))
                ])
      ]

  dial_direct-Follows : (o : Outlet) (dest : Text) → Follows o dest direct (dial_direct o dest).0
  unfolding dial_direct
  dial_direct-Follows o dest = elim (Option-cases (build_direct_dialer o).1) [
    | inl e ↦ rw (e, dial_direct) (straight e)
    | inr (x, e) ↦ rw (e, dial_direct) (without_adapter x e)
  ]

  target_ne : (a b : RuleTarget) → (a == b) ≡ false → a ≢ b
  target_ne a b h e = true≢false ((target_beq.same_iff a b).1 e) h

  dial_by_target-Follows :
      (o : Outlet) (target : RuleTarget) (dest : Text)
      → (target == reject) ≡ false
      → Follows o dest target (dial_by_target o target dest).0
  unfolding dial_by_target
  dial_by_target-Follows o target dest h = elim (Bool-cases (target == direct)) [
    | inl e ↦ rw e (
        subst (λ t. Follows o dest t (dial_direct o dest).0)
          (sym ((target_beq.same_iff target direct).0 e)) (dial_direct-Follows o dest))
    | inr e ↦ rw e (
        dial_upstream-Follows o target dest (target_ne target reject h) (target_ne target direct e))
  ]

  after_dial-dials :
      (rc : Connection) (d : Dialing) (s : State) → (after_dial rc d s).dials ≡ s.dials ++ d.0
  unfolding after_dial
  after_dial-dials rc (dials, some e) s = refl
  after_dial-dials rc (dials, none) s = refl

  -- The new dials of a served connection, and whether its target allows them.
  pub record Serves (o : Outlet) (rc : Connection) (target : RuleTarget) (s out : State)
      : Type 0 where
    pub made : List Dial
    pub dials_eq : out.dials ≡ s.dials ++ made
    pub follows : Follows o (destination rc) target made

  serve_target-Serves :
      (o : Outlet) (target : RuleTarget) (rc : Connection) (s : State)
      → Serves o rc target s (serve_target o target rc s)
  unfolding serve_target
  serve_target-Serves o target rc s = elim (Bool-cases (target == reject)) [
    | inl e ↦ rw e (record {
      made = [];
      dials_eq = sym (append-nil s.dials);
      follows =
          subst (λ t. Follows o (destination rc) t [])
            (sym ((target_beq.same_iff target reject).0 e)) rejected;
    })
    | inr e ↦ rw e (record {
      made = (dial_by_target o target (destination rc)).0;
      dials_eq = after_dial-dials rc (dial_by_target o target (destination rc)) s;
      follows = dial_by_target-Follows o target (destination rc) e;
    })
  ]

  -- The target by which a connection whose first bytes name a host is served.
  abbrev pub target_for : Outlet → Connection → Text → RuleTarget
  target_for o rc host = (decide_app_route host rc.remote_addr o.rules rc.routing_mode).rule.target

  -- The connection is served by the target of the host that its first bytes name.
  pub record IsServed (o : Outlet) (rc : Connection) (s out : State) : Type 0 where
    pub captured : Bytes
    pub first : IsCaptured 16384 (concat o.incoming.segments) captured
    pub found : Text × Text
    pub named : detect_host_from_initial_payload captured ≡ done found
    pub serves : Serves o rc (target_for o rc found.0) s out

  serve_accepted-IsServed :
      (o : Outlet) (rc : Connection) (s : State)
      → o.incoming.deadline ≡ none
      → (out : State) × (serve_accepted o rc s ≡ done out) × IsServed o rc s out
  unfolding serve_accepted
  serve_accepted-IsServed o rc s h =
      let (captured, run, first) = capture_initial_payload-IsCaptured o.incoming 16384 h in
      let (found, e) = detect_host_total captured.0 in
      (
        serve_target o (target_for o rc found.0) rc s,
        rw (run, serve_accepted) (rw (e, serve_accepted) refl),
        record {
          captured = captured.0;
          first = first;
          found = found;
          named = e;
          serves = serve_target-Serves o (target_for o rc found.0) rc s;
        },
      )

  taken : {A : Type 0} (x y : A) (b : Bool) → b ≡ true → (if b then x else y) ≡ x
  taken x y true h = refl
  taken x y false h = absurd (true≢false refl (sym h))

  -- The listener's closing changes no dial.
  closing-IsServed :
      (o : Outlet) (r : ℕ) (rc : Connection) (s t out : State)
      → t.dials ≡ s.dials
      → IsServed o rc t out
      → IsServed o rc s (closing r out)
  closing-IsServed o r rc s t out e h = record {
    captured = h.captured;
    first = h.first;
    found = h.found;
    named = h.named;
    serves = record {
      made = h.serves.made;
      dials_eq = h.serves.dials_eq ∙ ap (λ l. l ++ h.serves.made) e;
      follows = h.serves.follows;
    };
  }

  -- A connection that the application opens to its listener is served to an end, whatever the
  -- application sends and the network answers, if the deadline of the first reads can be set. The
  -- bytes captured are the first that arrive, at most 16384, and it is not stopped early: they name a
  -- host, or are that many, or are all that arrives. What is dialled follows the target that the
  -- routing decides for the host that they name, or for no host where they name none: a rejected
  -- connection dials nothing; a direct one dials the destination itself, past the upstream proxy,
  -- unless its adapter is not found; any other dials only the upstream proxy, and does dial it unless
  -- its type is unknown.
  pub serve_reflected_connection-IsServed :
      (o : Outlet) (r : ℕ) (rc : Connection) (s : State)
      → o.accepts ≡ true
      → o.incoming.deadline ≡ none
      → (out : State) × (serve_reflected_connection o r rc s ≡ done out) × IsServed o rc s out
  unfolding serve_reflected_connection
  serve_reflected_connection-IsServed o r rc s a h =
      let accepted : State = record s {
        table = mark_accepted r s.table;
        accept_count = (s.accept_count + 1) % 2 ^ 64;
      } in
      let (out, run, served) = serve_accepted-IsServed o rc accepted h in
      (
        closing r out,
        taken _ (done (closing r s)) o.accepts a ∙ ap (λ x. x >>= λ t. done (closing r t)) run,
        closing-IsServed o r rc s accepted out refl served,
      )
