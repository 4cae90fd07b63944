-- ===== src/UdpRelay/Sessions.antt =====
-- internal/udprelay/relay.go: the table of sessions. Each function here is one section under the mutex
-- of the relay. Times are in nanoseconds.
use mc_router.Prelude.{
  ℕ, Bool, true, false, not, ◌&&◌, Option, none, some, List, [], Bytes, if◌then◌else◌, leb, nat_eq,
  length, lookup, insert, erase, bytes_Eq,
}
use mc_router.UdpRelay.Resolver.{UdpAddr, Limits}

-- A session; `id` tells one session object from another, and `key` is the text of the client's address.
pub record Session : Type 0 where
  pub id : ℕ
  pub key : Bytes
  pub backend : UdpAddr
  pub last_activity : ℕ

abbrev pub Table : Type 0
Table = List (Bytes × Session)

pub record Relay : Type 0 where
  pub closed : Bool
  pub sessions : Table
  pub next_id : ℕ

pub data SessionResult : Type 0 where
  relay_closed session_limit dial_failed : SessionResult
  session_ok : Session → Bool → SessionResult

-- The first section of sessionForClient: an answer, or none where a session has to be made.
unfoldable pub find_session : Limits → Bytes → Relay → Option SessionResult
find_session l key r = if r.closed then some relay_closed else elim (lookup key r.sessions) [
  | some s ↦ some (session_ok s false)
  | none ↦ if leb l.max_sessions (length r.sessions) then some session_limit else none
]

-- The second section, after the dial.
unfoldable pub publish_session : Limits → Session → Relay → SessionResult × Relay
publish_session l s r = if r.closed then (relay_closed, r) else elim (lookup s.key r.sessions) [
  | some existing ↦ (session_ok existing false, r)
  | none ↦
      if leb l.max_sessions (length r.sessions)
      then (session_limit, r)
      else (session_ok s true, record r { sessions = insert s.key s r.sessions })
]

-- What `current == sess` compares.
abbrev pub is_current : Session → Option Session → Bool
is_current s none = false
is_current s (some t) = nat_eq s.id t.id

unfoldable pub close_session : Session → Relay → Relay
close_session s r =
    if is_current s (lookup s.key r.sessions)
    then record r { sessions = erase s.key r.sessions }
    else r

unfoldable pub session_is_current : Session → Relay → Bool
session_is_current s r = not r.closed && is_current s (lookup s.key r.sessions)

-- sess.touch(): the object that the table has is the session itself.
unfoldable pub touch : ℕ → Session → Relay → Relay
touch now s r =
    if is_current s (lookup s.key r.sessions)
    then record r { sessions = insert s.key (record s { last_activity = now }) r.sessions }
    else r

unfoldable pub close : Relay → Relay
close r = record r { closed = true; sessions = [] }
