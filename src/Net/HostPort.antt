-- ===== src/Net/HostPort.antt =====
-- net.SplitHostPort, and the loose form of it in internal/tun/app_routing.go
use proxy_rule_manager.Common.{
  Bool, false, ◌||◌, ◌&&◌, not, Option, none, some, [], ◌∷◌, if◌then◌else◌, ◌==◌, any, ℕ, nat_eq,
}
use proxy_rule_manager.Text.{
  Text, text_beq, count, is_empty, trim, trim_space, trim_suffix, codes, is_dot, is_bracket,
}
use proxy_rule_manager.Platform.{Platform, to_lower}

-- What stands before and behind the first `d`.
unfoldable pub split_first : ℕ → Text → Option (Text × Text)
split_first d [] = none
split_first d (c ∷ s) =
    let later : Option (Text × Text) = elim (split_first d s) [
      | none ↦ none
      | some (before, after) ↦ some (c ∷ before, after)
    ] in
    if nat_eq c d then some ([], s) else later

-- What stands before and behind the last `d`.
unfoldable pub split_last : ℕ → Text → Option (Text × Text)
split_last d [] = none
split_last d (c ∷ s) = elim (split_last d s) [
  | some (before, after) ↦ some (c ∷ before, after)
  | none ↦ if nat_eq c d then some ([], s) else none
]

abbrev has : ℕ → Text → Bool
has d s = any (λ c. nat_eq c d) s

abbrev starts_bracket : Text → Bool
starts_bracket [] = false
starts_bracket (c ∷ s) = nat_eq c b'['

abbrev behind_first : Text → Text
behind_first [] = []
behind_first (c ∷ s) = s

-- the branch for an address that begins with a bracket
unfoldable pub split_bracketed : Text → Text → Option (Text × Text)
unfolding split_first
split_bracketed hostport port = elim (split_first b']' (behind_first hostport)) [
  | none ↦ none
  | some (inside, rest) ↦
      if rest == b':' ∷ port && not (has b'[' (behind_first hostport)) && not (has b']' rest)
      then some (inside, port)
      else none
]

-- `none` is an error.
unfoldable pub split_host_port : Text → Option (Text × Text)
unfolding split_last split_bracketed
split_host_port hostport = elim (split_last b':' hostport) [
  | none ↦ none
  | some (host, port) ↦
      if starts_bracket hostport
      then split_bracketed hostport port
      else if has b':' host || has b'[' hostport || has b']' hostport
      then none
      else some (host, port)
]

-- the second half of `splitLooseHostPort`
unfoldable pub split_once : Text → Option Text
unfolding split_first count
split_once value =
    if nat_eq (count value b':') 1 && not (has b']' value)
    then elim (split_first b':' value) [
      | none ↦ none
      | some (host, port) ↦ if is_empty host || is_empty port then none else some host
    ]
    else none

-- `splitLooseHostPort`; `none` is an error. Where net.SplitHostPort succeeds with an empty part,
-- the code returns its nil error with an empty host.
unfoldable pub split_loose_host_port : Text → Option Text
unfolding split_host_port split_once
split_loose_host_port value = elim (split_host_port value) [
  | some (host, port) ↦ if is_empty host || is_empty port then some [] else some host
  | none ↦ split_once value
]

abbrev or_whole : Text → Option Text → Text
or_whole value none = value
or_whole value (some host) = host

-- `normalizeDetectedHost`
unfoldable pub normalize_detected_host : ⦃p : Platform⦄ → Text → Text
unfolding split_loose_host_port
normalize_detected_host raw =
    let value = trim_suffix (trim is_bracket (trim_space (to_lower raw))) (codes ".") in
    if value == []
    then []
    else trim is_dot (trim_space (or_whole value (split_loose_host_port value)))
