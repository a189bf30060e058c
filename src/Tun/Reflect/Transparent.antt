-- ===== src/Tun/Reflect/Transparent.antt =====
-- A packet of the application and the answer to it, through the loop and back.
use proxy_rule_manager.Common.{
  ℕ, ◌≡◌, refl, sym, ap, subst, ◌∙◌, Bool, true, false, none, some, if◌then◌else◌, List, nat_eq,
  nat_beq, inl, inr, Bool-cases, Option-cases,
}
use proxy_rule_manager.Common.Assoc.{lookup}
use proxy_rule_manager.Platform.{Bytes}
use proxy_rule_manager.Tun.Sni.{done}
use proxy_rule_manager.Tun.Packet.{Packet}
use proxy_rule_manager.Tun.Packet.Fields.{Holds}
use proxy_rule_manager.Tun.Table.{
  Connection, Table, update, pointed, connection_by_local, connection_by_redirect, learn_interface,
}
use proxy_rule_manager.Tun.Table.Sound.{lookup-insert_same, same_object}
use proxy_rule_manager.Tun.Table.Steps.{update_found}
use proxy_rule_manager.Tun.Table.Linked.{IsLinked}
use proxy_rule_manager.Tun.Reflect.{
  Address, Driver, Loop, rewrite_forward, reflect_forward, handle_packet, learned,
}
use proxy_rule_manager.Tun.Reflect.Laws.{
  WritesChecksums, IsWellFormed, packet_of, handle_packet_outgoing, handle_packet_reply,
}
use proxy_rule_manager.Tun.Reflect.Delivery.{
  Delivers, reflect_forward-Delivers, reflect_reverse-Delivers,
}

-- The object of a connection that has learned its interface, unless the interface is unknown.
abbrev pick : Bool → Address → Connection → Connection
pick unknown addr c =
    if unknown then c else record c { if_idx = addr.if_idx; sub_if_idx = addr.sub_if_idx }

abbrev pub taught : Address → Connection → Connection
taught addr c = pick (nat_eq addr.if_idx 0) addr c

pick-IsWellFormed :
    (b : Bool) (addr : Address) (c : Connection) → IsWellFormed c → IsWellFormed (pick b addr c)
pick-IsWellFormed true addr c f = f
pick-IsWellFormed false addr c f = record {
  local_addr = f.local_addr;
  remote_addr = f.remote_addr;
  local_port = f.local_port;
  remote_port = f.remote_port;
  redirect_port = f.redirect_port;
}

-- What the listener of a connection sends, and what is made of it.
abbrev Reply : Bytes → Connection → Type 0
Reply s c = Holds s c.local_addr c.remote_addr c.redirect_port c.remote_port

abbrev Answer : Driver → Bytes → Address → Connection → Connection → Loop → Type 0
Answer d s from via c back =
    Delivers d s from via c.remote_addr c.local_addr c.remote_port c.local_port back

pick-Reply :
    (b : Bool) (addr : Address) (s : Bytes) (c : Connection) → Reply s c → Reply s (pick b addr c)
pick-Reply true addr s c h = h
pick-Reply false addr s c h = h

pick-Answer :
    (b : Bool) (addr from : Address) (d : Driver) (s : Bytes) (c : Connection) (back : Loop)
    → Answer d s from (pick b addr c) (pick b addr c) back
    → Answer d s from (pick b addr c) c back
pick-Answer true addr from d s c back h = h
pick-Answer false addr from d s c back h = h

pick-redirect_port :
    (b : Bool) (addr : Address) (c : Connection) → (pick b addr c).redirect_port ≡ c.redirect_port
pick-redirect_port true addr c = refl
pick-redirect_port false addr c = refl

pointed-learn :
    (entries : List (ℕ × ℕ)) (port r : ℕ) (c : Connection) (addr : Address) (t : Table)
    → lookup port entries ≡ some r
    → lookup r t.objects ≡ some c
    → pointed entries port (learned r addr t) ≡ some (r, taught addr c)
unfolding pointed learn_interface
pointed-learn entries port r c addr t e f = elim (Bool-cases (nat_eq addr.if_idx 0)) [
  | inl z ↦ rw z (rw (e, pointed) (rw (f, pointed) refl))
  | inr z ↦ rw z (
      rw (update_found r _ t c f)
        (rw (e, pointed) (rw (lookup-insert_same r _ t.objects, pointed) refl)))
]

pointed_found :
    (entries : List (ℕ × ℕ)) (port r : ℕ) (c : Connection) (t : Table)
    → lookup port entries ≡ some r
    → lookup r t.objects ≡ some c
    → pointed entries port t ≡ some (r, c)
unfolding pointed
pointed_found entries port r c t e f = rw (e, pointed) (rw (f, pointed) refl)

redirect-IsLinked :
    (t : Table) (r : ℕ) (c : Connection)
    → IsLinked t
    → lookup c.local_port t.connections ≡ some r
    → lookup r t.objects ≡ some c
    → lookup c.redirect_port t.by_redirect ≡ some r
redirect-IsLinked t r c linked e f =
    let (q, a, k) = linked c.local_port r e in
    let same = same_object t.objects refl a.found f in
    subst (λ y. lookup y t.by_redirect ≡ some r)
      (sym a.redirect_eq ∙ ap (λ x. x.redirect_port) same) k

by_redirect-learned :
    (r : ℕ) (addr : Address) (t : Table) → (learned r addr t).by_redirect ≡ t.by_redirect
unfolding learn_interface update
by_redirect-learned r addr t = elim (Bool-cases (nat_eq addr.if_idx 0)) [
  | inl z ↦ rw z refl
  | inr z ↦ rw z (elim (Option-cases (lookup r t.objects)) [
    | inl e ↦ rw (e, update) refl
    | inr (x, e) ↦ rw (e, update) refl
  ])
]

reflect_forward-table :
    (d : Driver) (r : ℕ) (c : Connection) (v : Packet) (addr : Address) (l : Loop)
    → (reflect_forward d r c v addr l).table ≡ learned r addr l.table
unfolding reflect_forward
reflect_forward-table d r c v addr l =
    elim (Bool-cases (d.sends (d.calc_checksums (rewrite_forward c v).raw))) [
      | inl e ↦ rw e refl
      | inr e ↦ rw e refl
    ]

answered :
    (d : Driver) (w : WritesChecksums d) (c : Connection) (f : IsWellFormed c) (r : ℕ)
    (reply : Bytes) (addr : Address) (l : Loop)
    → Reply reply c
    → connection_by_redirect c.redirect_port l.table ≡ some (r, c)
    → (back : Loop) × (handle_packet d reply addr l ≡ done back) × Answer d reply addr c c back
answered d w c f r reply addr l h e = (
  _,
  handle_packet_reply d c r reply addr l h e,
  reflect_reverse-Delivers d w c f r reply addr l h,
)

-- The same for a connection that learned its interface in between.
answered_taught :
    (d : Driver) (w : WritesChecksums d) (c : Connection) (f : IsWellFormed c) (r : ℕ)
    (reply : Bytes) (b : Bool) (from addr : Address) (l : Loop)
    → Reply reply c
    → connection_by_redirect c.redirect_port l.table ≡ some (r, pick b from c)
    → (back : Loop) × (handle_packet d reply addr l ≡ done back)
      × Answer d reply addr (pick b from c) c back
answered_taught d w c f r reply b from addr l h e =
    let taken =
      answered d w (pick b from c) (pick-IsWellFormed b from c f) r reply addr l
        (pick-Reply b from reply c h)
        (subst (λ q. connection_by_redirect q l.table ≡ some (r, pick b from c))
          (sym (pick-redirect_port b from c)) e) in
    let (back, run, answer) = taken in (back, run, pick-Answer b from addr d reply c back answer)

by_redirect-sent :
    (d : Driver) (r : ℕ) (c : Connection) (v : Packet) (addr : Address) (l : Loop)
    → IsLinked l.table
    → lookup c.local_port l.table.connections ≡ some r
    → lookup r l.table.objects ≡ some c
    → connection_by_redirect c.redirect_port (reflect_forward d r c v addr l).table
      ≡ some (r, taught addr c)
unfolding connection_by_redirect
by_redirect-sent d r c v addr l linked e f = rw (reflect_forward-table d r c v addr l) (
    rw (by_redirect-learned r addr l.table) (
      pointed-learn l.table.by_redirect c.redirect_port r c addr l.table
        (redirect-IsLinked l.table r c linked e f) f))

-- Where the table links both sides of its connections and tracks a connection whose local port is no
-- redirect port, and the driver writes nothing but checksums: for a packet that the application sends
-- to the remote end, the loop hands to the driver an incoming packet for the connection's own
-- listener, as if it came from the remote end; for what the listener then sends there it hands over
-- an incoming packet for the application at the port that it used, again as if it came from the
-- remote end and its port. Both keep what follows their headers, and both come in on the interface of
-- the packet that they are made of, or where that is unknown on the one that the connection has, for
-- the answer the one that it learned from the first packet.
pub handle_packet-Delivers :
    (d : Driver) (w : WritesChecksums d) (c : Connection) (f : IsWellFormed c) (r : ℕ) (l : Loop)
    → IsLinked l.table
    → lookup c.local_port l.table.connections ≡ some r
    → lookup r l.table.objects ≡ some c
    → connection_by_redirect c.local_port l.table ≡ none
    → (s reply : Bytes) (from back_from : Address)
    → Holds s c.local_addr c.remote_addr c.local_port c.remote_port
    → Holds reply c.local_addr c.remote_addr c.redirect_port c.remote_port
    → (out : Loop) × (handle_packet d s from l ≡ done out)
      × Delivers d s from c c.remote_addr c.local_addr c.remote_port c.redirect_port out
      × (back : Loop) × (handle_packet d reply back_from out ≡ done back)
      × Delivers d reply back_from
          (taught from c)
          c.remote_addr
          c.local_addr
          c.remote_port
          c.local_port
          back
unfolding connection_by_local
handle_packet-Delivers d w c f r l linked e g n s reply from back_from h k =
    let v = packet_of s c.local_addr c.remote_addr c.local_port c.remote_port in
    let tracked = pointed_found l.table.connections c.local_port r c l.table e g in
    let (back, run, answer) =
      answered_taught d w c f r reply (nat_eq from.if_idx 0) from back_from
        (reflect_forward d r c v from l) k (by_redirect-sent d r c v from l linked e g) in
    (
      reflect_forward d r c v from l,
      handle_packet_outgoing d c r s from l h tracked n,
      reflect_forward-Delivers d w c f r s from l h,
      back,
      run,
      answer,
    )
