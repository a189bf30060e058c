-- ===== src/Tun/Packet/Fields.antt =====
-- The fields that stand in a packet, and what each setter does to them.
use proxy_rule_manager.Common.{
  ℕ, ◌+◌, ◌/◌, ◌%◌, ◌≤◌, ◌<◌, ◌≡◌, refl, subst, [], ◌∷◌, length, arith, ◌⊎◌, inl, inr,
}
use proxy_rule_manager.Platform.{Bytes}
use proxy_rule_manager.Net.{to4}
use proxy_rule_manager.Tun.Packet.Buffer.{
  copy_at, byte, length-copy_at, byte-copy_at_outside, byte-copy_at_inside,
}
use proxy_rule_manager.Tun.Packet.{port_bytes, four}
use proxy_rule_manager.Tun.Packet.Laws.{four_bytes, port_at, header, IsTcp}

-- An address in the form that `To4` returns.
pub data IsQuad : Bytes → Type 0 where
  quad : (a b c d : ℕ) → IsQuad (a ∷ b ∷ c ∷ d ∷ [])

pub four-IsQuad : (ip : Bytes) → IsQuad ip → four (to4 ip) ≡ ip
unfolding to4
four-IsQuad ip (quad a b c d) = refl

pub length-IsQuad : (ip : Bytes) → IsQuad ip → length ip ≡ 4
length-IsQuad ip (quad a b c d) = refl

-- The bytes are a TCP packet with these ends.
pub record Holds (s : Bytes) (src dst : Bytes) (src_port dst_port : ℕ) : Type 0 where
  pub tcp : IsTcp s
  pub src_eq : four_bytes s 12 ≡ src
  pub dst_eq : four_bytes s 16 ≡ dst
  pub src_port_eq : port_at s (header s) ≡ src_port
  pub dst_port_eq : port_at s (header s + 2) ≡ dst_port

-- A part of the bytes is apart from another.
abbrev pub Apart : ℕ → ℕ → ℕ → ℕ → Type 0
Apart j m i n = (j + m ≤ i) ⊎ (i + n ≤ j)

byte-copy_at_beside :
    (s : Bytes) (i : ℕ) (bytes : Bytes) (j m k : ℕ)
    → Apart j m i (length bytes)
    → k < m
    → byte (copy_at s i bytes) (j + k) ≡ byte s (j + k)
byte-copy_at_beside s i bytes j m k (inl h) l =
    byte-copy_at_outside s i bytes (j + k) (inl (omega (arith, h, l)))
byte-copy_at_beside s i bytes j m k (inr h) l =
    byte-copy_at_outside s i bytes (j + k) (inr (omega (arith, h)))

first-copy_at_beside :
    (s : Bytes) (i : ℕ) (bytes : Bytes) (j m : ℕ)
    → Apart j m i (length bytes)
    → 0 < m
    → byte (copy_at s i bytes) j ≡ byte s j
first-copy_at_beside s i bytes j m h l =
    subst (λ n. byte (copy_at s i bytes) n ≡ byte s n) (omega arith)
      (byte-copy_at_beside s i bytes j m 0 h l)

pub four_bytes-copy_at_beside :
    (s : Bytes) (i : ℕ) (bytes : Bytes) (j : ℕ)
    → Apart j 4 i (length bytes)
    → four_bytes (copy_at s i bytes) j ≡ four_bytes s j
four_bytes-copy_at_beside s i bytes j h = rw (first-copy_at_beside s i bytes j 4 h (omega arith)) (
    rw (byte-copy_at_beside s i bytes j 4 1 h (omega arith)) (
      rw (byte-copy_at_beside s i bytes j 4 2 h (omega arith))
        (rw (byte-copy_at_beside s i bytes j 4 3 h (omega arith)) refl)))

pub port_at-copy_at_beside :
    (s : Bytes) (i : ℕ) (bytes : Bytes) (j : ℕ)
    → Apart j 2 i (length bytes)
    → port_at (copy_at s i bytes) j ≡ port_at s j
port_at-copy_at_beside s i bytes j h =
    rw (first-copy_at_beside s i bytes j 2 h (omega arith))
      (rw (byte-copy_at_beside s i bytes j 2 1 h (omega arith)) refl)

pub header-copy_at :
    (s : Bytes) (i : ℕ) (bytes : Bytes) → 10 ≤ i → header (copy_at s i bytes) ≡ header s
header-copy_at s i bytes h = rw (byte-copy_at_outside s i bytes 0 (inl (omega (arith, h)))) refl

-- Writing behind the bytes that the tests read.
pub copy_at-IsTcp :
    (s : Bytes) (i : ℕ) (bytes : Bytes) → 10 ≤ i → IsTcp s → IsTcp (copy_at s i bytes)
copy_at-IsTcp s i bytes h t =
    let e0 = byte-copy_at_outside s i bytes 0 (inl (omega (arith, h))) in
    let e9 = byte-copy_at_outside s i bytes 9 (inl (omega (arith, h))) in
    let n = length-copy_at s i bytes in
    record {
      version = rw e0 t.version;
      least = rw e0 t.least;
      fits = rw e0 (rw n t.fits);
      protocol = rw e9 t.protocol;
    }

-- The first byte that is written.
first-copy_at :
    (s : Bytes) (i b : ℕ) (bytes : Bytes)
    → i + length (b ∷ bytes) ≤ length s
    → byte (copy_at s i (b ∷ bytes)) i ≡ b
unfolding byte
first-copy_at s i b bytes h =
    subst (λ n. byte (copy_at s i (b ∷ bytes)) n ≡ b) {y = i} (omega arith)
      (byte-copy_at_inside s i (b ∷ bytes) 0 h (omega arith))

pub four_bytes-copy_at :
    (s : Bytes) (i : ℕ) (ip : Bytes)
    → IsQuad ip
    → i + 4 ≤ length s
    → four_bytes (copy_at s i ip) i ≡ ip
unfolding byte
four_bytes-copy_at s i ip (quad a b c d) h =
    let bytes = a ∷ b ∷ c ∷ d ∷ [] in
    rw (first-copy_at s i a (b ∷ c ∷ d ∷ []) h) (
      rw (byte-copy_at_inside s i bytes 1 h (omega arith)) (
        rw (byte-copy_at_inside s i bytes 2 h (omega arith))
          (rw (byte-copy_at_inside s i bytes 3 h (omega arith)) refl)))

pub port_at-copy_at :
    (s : Bytes) (i port : ℕ)
    → port < 65536
    → i + 2 ≤ length s
    → port_at (copy_at s i (port_bytes port)) i ≡ port
unfolding byte
port_at-copy_at s i port h k =
    let bytes = port_bytes port in
    rw (first-copy_at s i (port / 256 % 256) (port % 256 ∷ []) k)
      (rw (byte-copy_at_inside s i bytes 1 k (omega arith)) (omega (arith, h)))
