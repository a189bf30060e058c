-- ===== src/Tun/Packet/Buffer.antt =====
-- Writing bytes into a buffer: `copy` of Go into a part of it, and what is read from it afterwards.
use proxy_rule_manager.Common.{
  ℕ, zero, suc, ◌+◌, ◌*◌, ◌≤◌, ◌<◌, ◌≡◌, refl, ◌∙◌, false, ◌&&◌, [], ◌∷◌, if◌then◌else◌, nat_eq,
  ltb, length, arith, take, drop, length-drop, length-take_le, ◌⊎◌, inl,
}
use proxy_rule_manager.Platform.{Bytes}
use proxy_rule_manager.Tun.Sni.{done, at, slice, uint16}

-- s[i] = b, where i is an index of s
unfoldable pub put : Bytes → ℕ → ℕ → Bytes
put [] i b = []
put (x ∷ s) zero b = b ∷ s
put (x ∷ s) (suc i) b = x ∷ put s i b

-- copy(s[i:], bytes), where i is at most the length of s
unfoldable pub copy_at : Bytes → ℕ → Bytes → Bytes
unfolding put
copy_at s i [] = s
copy_at s i (b ∷ bytes) = copy_at (put s i b) (suc i) bytes

-- The byte at an index, 0 where there is none.
unfoldable pub byte : Bytes → ℕ → ℕ
byte [] i = 0
byte (x ∷ s) zero = x
byte (x ∷ s) (suc i) = byte s i

pub at-byte : (s : Bytes) (i : ℕ) → i < length s → at s i ≡ done (byte s i)
unfolding at byte
at-byte [] i h = elim h [ ]
at-byte (x ∷ s) zero h = refl
at-byte (x ∷ s) (suc i) h = at-byte s i (omega arith)

byte-drop : (n : ℕ) (s : Bytes) (i : ℕ) → byte (drop n s) i ≡ byte s (n + i)
unfolding byte
byte-drop zero s i = ground arith
byte-drop (suc n) [] i = refl
byte-drop (suc n) (x ∷ s) i = ground (arith, byte-drop n s i)

byte-take : (n : ℕ) (s : Bytes) (i : ℕ) → i < n → byte (take n s) i ≡ byte s i
unfolding byte
byte-take zero s i h = elim h [ ]
byte-take (suc n) [] i h = refl
byte-take (suc n) (x ∷ s) zero h = refl
byte-take (suc n) (x ∷ s) (suc i) h = byte-take n s i (omega arith)

pub length-put : (s : Bytes) (i b : ℕ) → length (put s i b) ≡ length s
unfolding put
length-put [] i b = refl
length-put (x ∷ s) zero b = refl
length-put (x ∷ s) (suc i) b = ground (arith, length-put s i b)

pub byte-put_same : (s : Bytes) (i b : ℕ) → i < length s → byte (put s i b) i ≡ b
unfolding put byte
byte-put_same [] i b h = elim h [ ]
byte-put_same (x ∷ s) zero b h = refl
byte-put_same (x ∷ s) (suc i) b h = byte-put_same s i b (omega arith)

pub byte-put_other : (s : Bytes) (i j b : ℕ) → nat_eq i j ≡ false → byte (put s i b) j ≡ byte s j
unfolding put byte
byte-put_other [] i j b h = refl
byte-put_other (x ∷ s) zero zero b h = ground (arith, h)
byte-put_other (x ∷ s) zero (suc j) b h = refl
byte-put_other (x ∷ s) (suc i) zero b h = refl
byte-put_other (x ∷ s) (suc i) (suc j) b h = byte-put_other s i j b (ground (arith, h))

pub byte-put :
    (s : Bytes) (i j b : ℕ)
    → byte (put s i b) j ≡ (if nat_eq i j && ltb i (length s) then b else byte s j)
unfolding put byte
byte-put [] i j b = ground arith
byte-put (x ∷ s) zero zero b = ground arith
byte-put (x ∷ s) zero (suc j) b = ground arith
byte-put (x ∷ s) (suc i) zero b = ground arith
byte-put (x ∷ s) (suc i) (suc j) b = ground (arith, byte-put s i j b)

pub length-copy_at : (s : Bytes) (i : ℕ) (bytes : Bytes) → length (copy_at s i bytes) ≡ length s
unfolding copy_at
length-copy_at s i [] = refl
length-copy_at s i (b ∷ bytes) =
    ground (arith, length-copy_at (put s i b) (suc i) bytes, length-put s i b)

-- What stands outside the part that is written is as before.
pub byte-copy_at_outside :
    (s : Bytes) (i : ℕ) (bytes : Bytes) (j : ℕ)
    → (j < i) ⊎ (i + length bytes ≤ j)
    → byte (copy_at s i bytes) j ≡ byte s j
unfolding copy_at
byte-copy_at_outside s i [] j h = refl
byte-copy_at_outside s i (b ∷ bytes) j h =
    ground (arith, byte-copy_at_outside (put s i b) (suc i) bytes j, byte-put s i j b)

right_zero : (i : ℕ) → i + 0 ≡ i
right_zero i = omega arith

right_suc : (i j : ℕ) → i + suc j ≡ suc i + j
right_suc i j = omega arith

-- What is written stands there, if it fits.
pub byte-copy_at_inside :
    (s : Bytes) (i : ℕ) (bytes : Bytes) (j : ℕ)
    → i + length bytes ≤ length s
    → j < length bytes
    → byte (copy_at s i bytes) (i + j) ≡ byte bytes j
unfolding copy_at byte
byte-copy_at_inside s i [] j h k = elim k [ ]
byte-copy_at_inside s i (b ∷ bytes) zero h k = rw (right_zero i) (
    ground (
      arith,
      byte-copy_at_outside (put s i b) (suc i) bytes i (inl (omega arith)),
      byte-put_same s i b (omega (arith, h)),
    ))
byte-copy_at_inside s i (b ∷ bytes) (suc j) h k = rw (right_suc i j) (
    byte-copy_at_inside (put s i b) (suc i) bytes j (omega (arith, h, length-put s i b))
      (omega (arith, k)))

slice-two : (s : Bytes) (i : ℕ) → i + 2 ≤ length s → slice s i (i + 2) ≡ done (take 2 (drop i s))
unfolding slice
slice-two s i h = ground arith

byte-two : (s : Bytes) (i j : ℕ) → j < 2 → byte (take 2 (drop i s)) j ≡ byte s (i + j)
byte-two s i j h = ground (arith, byte-take 2 (drop i s) j h, byte-drop i s j)

length-two : (s : Bytes) (i : ℕ) → i + 2 ≤ length s → length (take 2 (drop i s)) ≡ 2
length-two s i h = length-take_le 2 (drop i s) (omega (arith, h, length-drop i s))

pub uint16-byte :
    (s : Bytes) (i : ℕ) → i + 2 ≤ length s → uint16 s i ≡ done (byte s i * 256 + byte s (i + 1))
unfolding uint16
uint16-byte s i h =
    let t = take 2 (drop i s) in
    let two = length-two s i h in
    rw (slice-two s i h) (
      rw (at-byte t 0 (omega (arith, two))) (
        rw (at-byte t 1 (omega (arith, two)))
          (ground (arith, byte-two s i 0 (omega arith), byte-two s i 1 (omega arith)))))

drop-put : (n : ℕ) (s : Bytes) (i b : ℕ) → i < n → drop n (put s i b) ≡ drop n s
unfolding put
drop-put zero s i b h = elim h [ ]
drop-put (suc n) [] i b h = refl
drop-put (suc n) (x ∷ s) zero b h = refl
drop-put (suc n) (x ∷ s) (suc i) b h = drop-put n s i b (omega arith)

-- What stands behind the part that is written is as before.
pub drop-copy_at :
    (n : ℕ) (s : Bytes) (i : ℕ) (bytes : Bytes)
    → i + length bytes ≤ n
    → drop n (copy_at s i bytes) ≡ drop n s
unfolding copy_at
drop-copy_at n s i [] h = refl
drop-copy_at n s i (b ∷ bytes) h =
    drop-copy_at n (put s i b) (suc i) bytes (omega (arith, h))
    ∙ drop-put n s i b (omega (arith, h))
