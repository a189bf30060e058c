-- ===== src/Net.antt =====
-- Addresses of package net as byte lists: IP.To4, IPNet.Contains and the IPv4 tests.
pub mod HostPort
use Prim.Native.Nat.{bit_and}
use proxy_rule_manager.Common.{
  ℕ, ◌+◌, Bool, true, false, ◌&&◌, ◌||◌, Option, none, some, List, [], ◌∷◌, length, take, drop, leb,
  nat_eq, if◌then◌else◌, ◌==◌,
}
use proxy_rule_manager.Text.{text_beq}
use proxy_rule_manager.Platform.{Bytes, Network}

abbrev v4_in_v6_prefix : Bytes
v4_in_v6_prefix = 0 ∷ 0 ∷ 0 ∷ 0 ∷ 0 ∷ 0 ∷ 0 ∷ 0 ∷ 0 ∷ 0 ∷ 0xff ∷ 0xff ∷ []

unfoldable pub to4 : Bytes → Option Bytes
to4 ip =
    if nat_eq (length ip) 4
    then some ip
    else if nat_eq (length ip) 16 && take 12 ip == v4_in_v6_prefix
    then some (drop 12 ip)
    else none

-- ip[i] & mask[i] at each i; lists of one length
masked_eq : Bytes → Bytes → Bytes → Bool
masked_eq (a ∷ as') (m ∷ ms) (b ∷ bs) = nat_eq (bit_and a m) (bit_and b m) && masked_eq as' ms bs
masked_eq _ _ _ = true

-- networkNumberAndMask
network_number_and_mask : Network → Bytes × Bytes
unfolding to4
network_number_and_mask n = elim (to4 n.base) [
  | some ip ↦
      if nat_eq (length n.mask) 4
      then (ip, n.mask)
      else if nat_eq (length n.mask) 16
      then (ip, drop 12 n.mask)
      else ([], [])
  | none ↦
      if nat_eq (length n.base) 16 && nat_eq (length n.mask) 16 then (n.base, n.mask) else ([], [])
]

abbrev shortest : Bytes → Bytes
shortest ip = elim (to4 ip) [ some x ↦ x | none ↦ ip ]

unfoldable pub net_contains : Network → Bytes → Bool
unfolding network_number_and_mask masked_eq to4
net_contains n ip =
    let (nn, m) = network_number_and_mask n in
    nat_eq (length (shortest ip)) (length nn) && masked_eq nn m (shortest ip)

-- IP.Equal: an IPv4 address and the same address in IPv6 form are equal.
unfoldable pub ip_equal : Bytes → Bytes → Bool
ip_equal ip x =
    if nat_eq (length ip) (length x)
    then ip == x
    else if nat_eq (length ip) 4 && nat_eq (length x) 16
    then take 12 x == v4_in_v6_prefix && ip == drop 12 x
    else nat_eq (length ip) 16
      && nat_eq (length x) 4
      && take 12 ip == v4_in_v6_prefix
      && drop 12 ip == x

-- IP.IsLoopback
unfoldable pub is_loopback : Bytes → Bool
unfolding to4
is_loopback ip = elim (to4 ip) [
  | some [] ↦ false
  | some (a ∷ _) ↦ nat_eq a 127
  | none ↦ ip == 0 ∷ 0 ∷ 0 ∷ 0 ∷ 0 ∷ 0 ∷ 0 ∷ 0 ∷ 0 ∷ 0 ∷ 0 ∷ 0 ∷ 0 ∷ 0 ∷ 0 ∷ 1 ∷ []
]
