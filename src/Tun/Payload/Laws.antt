-- ===== src/Tun/Payload/Laws.antt =====
-- What is captured of a connection.
use proxy_rule_manager.Common.{
  ℕ, zero, suc, ◌+◌, ◌-◌, ◌≤◌, ◌<◌, ◌≡◌, ◌≢◌, refl, sym, ap, subst, ◌∙◌, true, false, Option, none,
  List, [], ◌∷◌, ◌++◌, append_assoc, nat_eq, ltb, leb, length, take, drop, take-append-drop,
  length-append, arith, Bool-cases, true≢false, inl, inr, ◌⊎◌,
}
use proxy_rule_manager.Text.{Text, is_empty}
use proxy_rule_manager.Platform.{Platform, Bytes}
use proxy_rule_manager.Tun.Sni.{Reading, done, panicked, out_of_fuel, detect_tls_server_name}
use proxy_rule_manager.Tun.Sni.Total.{Ends, detect_tls_server_name-Ends}
use proxy_rule_manager.Tun.Payload.{
  named_host, detect_host_from_initial_payload, ReadError, Incoming, after_error, read_size,
  left_over, capture, capture_initial_payload,
}

unfoldable pub concat : List Bytes → Bytes
concat [] = []
concat (s ∷ segments) = s ++ concat segments

Ends-done : {A : Type 0} (r : Reading A) → Ends r → (a : A) × (r ≡ done a)
Ends-done (done a) h = (a, refl)
Ends-done panicked h = absurd h
Ends-done out_of_fuel h = absurd h

take_all : (n : ℕ) (s : Bytes) → length s ≤ n → take n s ≡ s
take_all zero [] h = refl
take_all zero (b ∷ s) h = elim h [ ]
take_all (suc n) [] h = refl
take_all (suc n) (b ∷ s) h = ap (λ l. b ∷ l) (take_all n s (omega (arith, h)))

module _ ⦃p : Platform⦄ where
  pub detect_host_total :
      (payload : Bytes)
      → (found : Text × Text) × (detect_host_from_initial_payload payload ≡ done found)
  unfolding detect_host_from_initial_payload
  detect_host_total payload =
      let (name, e) =
        Ends-done (detect_tls_server_name payload) (detect_tls_server_name-Ends payload) in
      (named_host payload name, rw (e, detect_host_from_initial_payload) refl)

-- The read took a first part of what was to come.
left_over-concat :
    (size : ℕ) (segment : Bytes) (segments : List Bytes)
    → take size segment ++ concat (left_over size segment segments) ≡ segment ++ concat segments
unfolding concat
left_over-concat size segment segments = elim (Bool-cases (leb (length segment) size)) [
  | inl e ↦ rw e (ap (λ l. l ++ concat segments) (take_all size segment (ground (arith, e))))
  | inr e ↦ rw e (
      sym (append_assoc (take size segment) (drop size segment) (concat segments))
      ∙ ap (λ l. l ++ concat segments) (take-append-drop size segment))
]

length-left_over :
    (size : ℕ) (segment : Bytes) (segments : List Bytes)
    → length (left_over size segment segments) ≤ suc (length segments)
length-left_over size segment segments = elim (Bool-cases (leb (length segment) size)) [
  | inl e ↦ rw e (omega arith)
  | inr e ↦ rw e (omega arith)
]

zero_le : (n : ℕ) → leb 0 (suc n) ≡ true
zero_le n = ground arith

-- A read of nothing used up an empty segment.
left_over_empty :
    (size : ℕ) (segment : Bytes) (segments : List Bytes)
    → 0 < size
    → is_empty (take size segment) ≡ true
    → length (left_over size segment segments) ≡ length segments
left_over_empty zero segment segments h e = elim h [ ]
left_over_empty (suc n) [] segments h e = rw (zero_le n) refl
left_over_empty (suc n) (b ∷ segment) segments h e = absurd (true≢false e refl)

length-take_short : (n : ℕ) (s : Bytes) → length (take n s) ≤ n
length-take_short zero s = omega arith
length-take_short (suc n) [] = omega arith
length-take_short (suc n) (b ∷ s) = omega (arith, length-take_short n s)

length-full : (s : Bytes) → is_empty s ≡ false → 1 ≤ length s
length-full [] e = absurd (true≢false refl e)
length-full (b ∷ s) e = omega arith

read_size_fits :
    (limit : ℕ) (buf : Bytes) → (length buf + read_size limit buf ≤ limit) ⊎ (limit < length buf)
read_size_fits limit buf = ground arith

read_size_some : (limit : ℕ) (buf : Bytes) → length buf < limit → 0 < read_size limit buf
read_size_some limit buf h = ground (arith, h)

regroup :
    (limit : ℕ) (buf segment : Bytes) (segments : List Bytes)
    → (buf ++ take (read_size limit buf) segment)
        ++ concat (left_over (read_size limit buf) segment segments)
      ≡ buf ++ concat (segment ∷ segments)
unfolding concat
regroup limit buf segment segments =
    append_assoc buf (take (read_size limit buf) segment) _
    ∙ ap (λ l. buf ++ l) (left_over-concat (read_size limit buf) segment segments)

short-longer :
    (limit : ℕ) (buf segment : Bytes)
    → length buf ≤ limit
    → length (buf ++ take (read_size limit buf) segment) ≤ limit
short-longer limit buf segment k =
    let n = length-append buf (take (read_size limit buf) segment) in
    let m = length-take_short (read_size limit buf) segment in
    elim (read_size_fits limit buf) [ inl f ↦ omega (arith, n, m, f) | inr g ↦ omega (arith, k, g) ]

-- A turn of the loop leaves less to do.
less-left :
    (limit : ℕ) (buf segment : Bytes) (segments : List Bytes) (fuel : ℕ)
    → (limit - length buf) + suc (length segments) < suc fuel
    → length buf < limit
    → (limit - length (buf ++ take (read_size limit buf) segment))
        + length (left_over (read_size limit buf) segment segments)
      < fuel
less-left limit buf segment segments fuel h l =
    let size = read_size limit buf in
    let n = length-append buf (take size segment) in
    let m = length-left_over size segment segments in
    elim (Bool-cases (is_empty (take size segment))) [
      | inl e ↦
          let k = left_over_empty size segment segments (read_size_some limit buf l) e in
          omega (arith, h, n, k)
      | inr e ↦ let k = length-full (take size segment) e in omega (arith, h, n, m, k, l)
    ]

module _ ⦃p : Platform⦄ where
  -- Why a capture goes no further: its bytes name a host, or are as many as the limit, or nothing of
  -- what arrives is left.
  pub data Stops (limit : ℕ) (buf rest : Bytes) : Type 0 where
    by_host :
        (found : Text × Text)
        → (detect_host_from_initial_payload buf ≡ done found)
        → (found.0 ≢ [])
        → Stops limit buf rest
    by_limit : (limit ≤ length buf) → Stops limit buf rest
    by_end : (rest ≡ []) → Stops limit buf rest

  -- The first part of the bytes that arrive, at most as many as the limit, and no shorter than it is
  -- to be.
  pub record IsCaptured (limit : ℕ) (arriving buf : Bytes) : Type 0 where
    pub rest : Bytes
    pub first : buf ++ rest ≡ arriving
    pub short : length buf ≤ limit
    pub stops : Stops limit buf rest

  full_text : (t : Text) → is_empty t ≡ false → t ≢ []
  full_text [] e h = absurd (true≢false refl e)
  full_text (c ∷ t) e h = ground (arith, h)

  abbrev Captures : ℕ → ℕ → Bytes → List Bytes → ReadError → Type 0
  Captures fuel limit buf segments end =
      (out : Bytes × Option ReadError) × (capture fuel limit buf segments end ≡ done out)
      × IsCaptured limit (buf ++ concat segments) out.0

  capture-IsCaptured :
      (fuel limit : ℕ) (buf : Bytes) (segments : List Bytes) (end : ReadError)
      → (limit - length buf) + length segments < fuel
      → length buf ≤ limit
      → Captures fuel limit buf segments end
  unfolding capture
  capture-IsCaptured zero limit buf segments end h k = elim h [ ]
  capture-IsCaptured (suc fuel) limit buf [] end h k =
      let here : IsCaptured limit (buf ++ concat []) buf = record {
        rest = concat [];
        first = refl;
        short = k;
        stops = by_end (unfold concat in refl);
      } in
      elim (Bool-cases (ltb (length buf) limit)) [
        | inl e ↦ ((buf, after_error end), rw e refl, here)
        | inr e ↦ ((buf, none), rw e refl, here)
      ]
  capture-IsCaptured (suc fuel) limit buf (segment ∷ segments) end h k =
      let size = read_size limit buf in
      let longer = buf ++ take size segment in
      let left = left_over size segment segments in
      let same = regroup limit buf segment segments in
      let short = short-longer limit buf segment k in
      elim (Bool-cases (ltb (length buf) limit)) [
        | inr e ↦ (
          (buf, none),
          rw e refl,
          record {
            rest = concat (segment ∷ segments);
            first = refl;
            short = k;
            stops = by_limit (ground (arith, e));
          },
        )
        | inl e ↦
            let (out, run, captured) =
              capture-IsCaptured fuel limit longer left end
                (less-left limit buf segment segments fuel h (ground (arith, e))) short in
            let all = subst (λ l. IsCaptured limit l out.0) same captured in
            elim (Bool-cases (is_empty (take size segment))) [
              | inl f ↦ (out, rw e (rw f run), all)
              | inr f ↦
                  let (found, g) = detect_host_total longer in
                  elim (Bool-cases (is_empty found.0)) [
                    | inl i ↦ (out, rw e (rw f (rw g (rw i run))), all)
                    | inr i ↦ (
                      (longer, none),
                      rw e (rw f (rw g (rw i refl))),
                      record {
                        rest = concat left;
                        first = same;
                        short = short;
                        stops = by_host found g (full_text found.0 i);
                      },
                    )
                  ]
            ]
      ]

  -- Whatever arrives on a connection whose deadline can be set, and in whatever parts, the capture of
  -- its first bytes comes to an end with a result: the bytes that it has read are a first part of
  -- those that arrive, none lost and none twice, and they are at most as many as the limit. It has
  -- not stopped early: they name a host, or are as many as the limit, or are all that arrives.
  pub capture_initial_payload-IsCaptured :
      (conn : Incoming) (limit : ℕ)
      → conn.deadline ≡ none
      → (out : Bytes × Option ReadError) × (capture_initial_payload conn limit ≡ done out)
        × IsCaptured limit (concat conn.segments) out.0
  unfolding capture_initial_payload
  capture_initial_payload-IsCaptured conn limit h = elim (Bool-cases (nat_eq limit 0)) [
    | inl e ↦ (
      ([], none),
      rw e refl,
      record {
        rest = concat conn.segments;
        first = refl;
        short = omega arith;
        stops = by_limit (ground (arith, e));
      },
    )
    | inr e ↦
        let (out, run, captured) =
          capture-IsCaptured (suc (limit + length conn.segments)) limit [] conn.segments conn.end
            (omega arith) (omega arith) in
        (out, rw e (rw h run), captured)
  ]
