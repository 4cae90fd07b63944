-- ===== src/Go/HostPort.antt =====
-- net.SplitHostPort and net.JoinHostPort.
use mc_router.Prelude.{◌||◌, Option, none, some, [], ◌∷◌, ◌++◌, Bytes, nat_eq, if◌then◌else◌}
use mc_router.Go.Text.{cut, cut_last, contains_byte}

-- `[host]:port`: the first `]` is followed by the last colon, and no bracket stands elsewhere.
unfoldable pub split_bracketed : Bytes → Option (Bytes × Bytes)
split_bracketed s = elim (cut b']' s) [
  | none ↦ none
  | some (host, []) ↦ none
  | some (host, c ∷ port) ↦
      if nat_eq c b':'
      then (if contains_byte b':' port
            || contains_byte b'[' host
            || contains_byte b'[' port
            || contains_byte b']' port
          then none
          else some (host, port))
      else none
]

unfoldable pub split_plain : Bytes → Option (Bytes × Bytes)
split_plain s = elim (cut_last b':' s) [
  | none ↦ none
  | some (host, port) ↦
      if contains_byte b':' host || contains_byte b'[' s || contains_byte b']' s
      then none
      else some (host, port)
]

unfoldable pub split_host_port : Bytes → Option (Bytes × Bytes)
unfolding split_bracketed split_plain
split_host_port [] = none
split_host_port (c ∷ cs) = if nat_eq c b'[' then split_bracketed cs else split_plain (c ∷ cs)

unfoldable pub join_host_port : Bytes → Bytes → Bytes
join_host_port host port =
    if contains_byte b':' host then b'[' ∷ (host ++ b']' ∷ b':' ∷ port) else host ++ b':' ∷ port
