-- ===== src/Tun/Packet/Laws.antt =====
-- The fields of a packet, read from its bytes and after they are written.
use proxy_rule_manager.Common.{
  ℕ, ◌+◌, ◌*◌, ◌/◌, ◌%◌, ◌≤◌, ◌≡◌, refl, ◌||◌, not, Option, none, some, [], ◌∷◌, if◌then◌else◌,
  nat_eq, ltb, length, arith, ◌⊎◌, inl, inr, Bool-cases,
}
use proxy_rule_manager.Platform.{Bytes}
use proxy_rule_manager.Tun.Sni.{Reading, done, at, ◌>>=◌}
use proxy_rule_manager.Tun.Packet.Buffer.{byte, at-byte, uint16-byte}
use proxy_rule_manager.Tun.Packet.{Packet, read_ip, read_fields, parse_ipv4_tcp_packet}

abbrev pub four_bytes : Bytes → ℕ → Bytes
four_bytes s i = byte s i ∷ byte s (i + 1) ∷ byte s (i + 2) ∷ byte s (i + 3) ∷ []

abbrev pub port_at : Bytes → ℕ → ℕ
port_at s i = byte s i * 256 + byte s (i + 1)

-- The length of the IP header.
abbrev pub header : Bytes → ℕ
header s = byte s 0 % 16 * 4

-- The bytes are an IPv4 packet that carries TCP and has both headers whole.
pub record IsTcp (s : Bytes) : Type 0 where
  pub version : byte s 0 / 16 ≡ 4
  pub least : 20 ≤ header s
  pub fits : header s + 20 ≤ length s
  pub protocol : byte s 9 ≡ 6

-- The fields where the headers of IPv4 and TCP have them.
abbrev pub view : Bytes → Packet
view s = record {
  raw = s;
  ihl = header s;
  src_ip = four_bytes s 12;
  dst_ip = four_bytes s 16;
  src_port = port_at s (header s);
  dst_port = port_at s (header s + 2);
}

read_ip-four_bytes : (s : Bytes) (i : ℕ) → i + 4 ≤ length s → read_ip s i ≡ done (four_bytes s i)
unfolding read_ip
read_ip-four_bytes s i h = rw (at-byte s i (omega (arith, h))) (
    rw (at-byte s (i + 1) (omega (arith, h)))
      (rw (at-byte s (i + 2) (omega (arith, h))) (rw (at-byte s (i + 3) (omega (arith, h))) refl)))

read_fields-view :
    (s : Bytes)
    → 20 ≤ header s
    → header s + 20 ≤ length s
    → read_fields s (header s) ≡ done (view s)
unfolding read_fields
read_fields-view s h k = rw (read_ip-four_bytes s 12 (omega (arith, h, k))) (
    rw (read_ip-four_bytes s 16 (omega (arith, h, k))) (
      rw (uint16-byte s (header s) (omega (arith, h, k)))
        (rw (uint16-byte s (header s + 2) (omega (arith, h, k))) refl)))

-- The tests of `parseIPv4TCPPacket` in their order.
abbrev parsed : Bytes → Reading (Option Packet)
parsed s =
    if ltb (length s) 20
    then done none
    else if not (nat_eq (byte s 0 / 16) 4)
    then done none
    else if ltb (header s) 20 || ltb (length s) (header s + 20)
    then done none
    else if not (nat_eq (byte s 9) 6)
    then done none
    else done (some (view s))

protocol-parsed :
    (s : Bytes)
    → 20 ≤ header s
    → header s + 20 ≤ length s
    → (do
      protocol ← at s 9
      if not (nat_eq protocol 6) then done none else do v ← read_fields s (header s); done (some v))
      ≡ (if not (nat_eq (byte s 9) 6) then done none else done (some (view s)))
protocol-parsed s h k = rw (at-byte s 9 (omega (arith, h, k))) (rw (read_fields-view s h k) refl)

parse_ipv4_tcp_packet-parsed : (s : Bytes) → parse_ipv4_tcp_packet s ≡ parsed s
unfolding parse_ipv4_tcp_packet
parse_ipv4_tcp_packet-parsed s = elim (Bool-cases (ltb (length s) 20)) [
  | inl e ↦ rw e refl
  | inr e ↦ rw e (
      rw (at-byte s 0 (ground (arith, e))) (elim (Bool-cases (nat_eq (byte s 0 / 16) 4)) [
        | inr f ↦ rw f refl
        | inl f ↦ rw f (elim (Bool-cases (ltb (header s) 20 || ltb (length s) (header s + 20))) [
          | inl g ↦ rw g refl
          | inr g ↦ rw g (protocol-parsed s (ground (arith, g)) (ground (arith, g)))
        ])
      ]))
]

parsed-IsTcp :
    (s : Bytes)
    → (IsTcp s × (parsed s ≡ done (some (view s)))) ⊎ (¬ IsTcp s × (parsed s ≡ done none))
parsed-IsTcp s = elim (Bool-cases (ltb (length s) 20)) [
  | inl e ↦ inr (λ t. ground (arith, e, t.fits), rw e refl)
  | inr e ↦ rw e (elim (Bool-cases (nat_eq (byte s 0 / 16) 4)) [
    | inr f ↦ inr (λ t. ground (arith, f, t.version), rw f refl)
    | inl f ↦ rw f (elim (Bool-cases (ltb (header s) 20 || ltb (length s) (header s + 20))) [
      | inl g ↦ inr (λ t. ground (arith, g, t.least, t.fits), rw g refl)
      | inr g ↦ rw g (elim (Bool-cases (nat_eq (byte s 9) 6)) [
        | inr h ↦ inr (λ t. ground (arith, h, t.protocol), rw h refl)
        | inl h ↦ inl (
          record {
            version = ground (arith, f);
            least = ground (arith, g);
            fits = ground (arith, g);
            protocol = ground (arith, h);
          },
          rw h refl,
        )
      ])
    ])
  ])
]

-- Whatever bytes the driver hands over, parsing them reads no byte out of range, and answers with
-- the fields of the two headers where the bytes are an IPv4 packet that carries TCP with both
-- headers whole, and with no packet otherwise.
pub parse_ipv4_tcp_packet-IsTcp :
    (s : Bytes)
    → (IsTcp s × (parse_ipv4_tcp_packet s ≡ done (some (view s))))
      ⊎ (¬ IsTcp s × (parse_ipv4_tcp_packet s ≡ done none))
parse_ipv4_tcp_packet-IsTcp s = rw (parse_ipv4_tcp_packet-parsed s) (parsed-IsTcp s)

pub parse_of_IsTcp : (s : Bytes) → IsTcp s → parse_ipv4_tcp_packet s ≡ done (some (view s))
parse_of_IsTcp s t = elim (parse_ipv4_tcp_packet-IsTcp s) [
  | inl (_, e) ↦ e
  | inr (bad, _) ↦ absurd (bad t)
]
