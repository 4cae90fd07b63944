-- ===== src/Config/Fields.antt =====
-- The checks on single fields of config.go. Name resolution, the environment and URL parsing belong
-- to the machine and to net/url: they are the parameter `Env`.
use mc_router.Prelude.{
  Bool, true, false, not, ◌&&◌, ◌||◌, Option, none, some, List, [], ◌∷◌, Bytes, String,
  if◌then◌else◌, ltb, nat_eq, length, all, ◌==◌, bytes_Eq, codes,
}
use mc_router.Prelude.Int.{ℤ, pos, ltb_ℤ, leb_ℤ}
use mc_router.Go.Text.{trim_space, is_blank, is_empty, contains_byte, byte_at}
use mc_router.Go.Netip.{Addr, parse_addr, is_unspecified, is_multicast, is_broadcast, has_zone}
use mc_router.Go.Conv.{atoi}
use mc_router.Go.HostPort.{split_host_port}
use mc_router.HostAddr.{normalize, host_char, last_byte}

pub record Env : Type 0 where
  -- net.ResolveUDPAddr and net.ResolveTCPAddr succeed.
  pub resolve_udp : Bytes → Bool
  pub resolve_tcp : Bytes → Bool
  -- os.Getenv
  pub getenv : Bytes → Bytes
  -- neturl.ParseRequestURI: the scheme and the host.
  pub request_uri : Bytes → Option (Bytes × Bytes)

-- The errors that were collected, each by the name of its field.
abbrev pub Errors : Type 0
Errors = List String

-- `if bad { errs = append(errs, …) }`
abbrev pub report : Bool → String → Errors
report true name = name ∷ []
report false name = []

abbrev pub not_positive : ℤ → Bool
not_positive n = leb_ℤ n (pos 0)

abbrev pub is_negative : ℤ → Bool
is_negative n = ltb_ℤ n (pos 0)

unfoldable pub is_dns_label : Bytes → Bool
is_dns_label value =
    if ltb (length value) 1 || ltb 63 (length value)
    then false
    else if not (all host_char value)
    then false
    else not (nat_eq (byte_at 0 value) b'-') && not (nat_eq (last_byte value) b'-')

-- A port from 1 to 65535.
unfoldable pub port_ok : Bytes → Bool
port_ok port = elim (atoi port) [
  | none ↦ false
  | some n ↦ not (ltb_ℤ n (pos 1)) && not (ltb_ℤ (pos 65535) n)
]

unfoldable pub validate_backend : Bytes → Bool
validate_backend backend = elim (split_host_port backend) [
  | none ↦ false
  | some (host, port) ↦
      if is_blank host
      then false
      else if is_blank port
      then false
      else if not (port_ok port)
      then false
      else elim (normalize host) [ none ↦ false | some h ↦ true ]
]

-- A literal address must be one that a datagram can be sent to.
unfoldable pub unicast : Addr → Bool
unicast a = not (is_unspecified a) && not (is_multicast a) && not (is_broadcast a)

unfoldable pub validate_udp_backend_address : Bytes → Bool
validate_udp_backend_address backend = elim (split_host_port backend) [
  | none ↦ false
  | some (host, port) ↦ elim (parse_addr host) [ none ↦ true | some a ↦ has_zone a || unicast a ]
]

unfoldable pub udp_backend_ok : Bytes → Bool
udp_backend_ok backend =
    if validate_backend backend then validate_udp_backend_address backend else false

unfoldable pub validate_annotation_prefix : Bytes → Bool
validate_annotation_prefix prefix =
    if is_blank prefix
    then false
    else if not (trim_space prefix == prefix)
    then false
    else if contains_byte b'/' prefix
    then false
    else elim (normalize prefix) [ none ↦ false | some n ↦ n == prefix ]

-- An absolute http or https URL with a host.
unfoldable pub http_url : Env → Bytes → Bool
http_url env url = elim (env.request_uri url) [
  | none ↦ false
  | some (scheme, host) ↦ (scheme == codes "http" || scheme == codes "https") && not (is_empty host)
]

unfoldable pub contains_any : Bytes → Bytes → Bool
contains_any [] s = false
contains_any (c ∷ cs) s = contains_byte c s || contains_any cs s
