-- ===== src/Security.antt =====
-- The policy for outbound addresses: src/network/security.rs.
--
-- The parser of URLs and the resolver of names are arguments; of a parsed URL the model has what is
-- read of it. An address is its octets or its segments.
pub mod Blocks
pub mod Laws
mod Tests
use plasmate.Common.{
  ℕ, ◌+◌, ◌*◌, ◌/◌, ◌%◌, ◌^◌, Bool, true, false, not, ◌&&◌, ◌||◌, Option, none, some, List, [], ◌∷◌,
  leb, ltb, ◌==◌, if◌then◌else◌, is_empty, Result, ok, err,
}
use plasmate.Text.{Text, codes, text_eq, lowercase, eq_ignore_case, trim_start_of, trim_end_of}

pub record Ipv4Addr : Type 0 where
  pub a : ℕ
  pub b : ℕ
  pub c : ℕ
  pub d : ℕ

pub record Ipv6Addr : Type 0 where
  pub s0 : ℕ
  pub s1 : ℕ
  pub s2 : ℕ
  pub s3 : ℕ
  pub s4 : ℕ
  pub s5 : ℕ
  pub s6 : ℕ
  pub s7 : ℕ

pub data IpAddr : Type 0 where
  v4 : Ipv4Addr → IpAddr
  v6 : Ipv6Addr → IpAddr

-- The tests of `std::net::Ipv4Addr`.
abbrev pub is_unspecified : Ipv4Addr → Bool
is_unspecified ip = ip.a == 0 && (ip.b == 0 && (ip.c == 0 && ip.d == 0))

abbrev pub is_loopback : Ipv4Addr → Bool
is_loopback ip = ip.a == 127

abbrev pub is_private : Ipv4Addr → Bool
is_private ip =
    ip.a == 10 || (ip.a == 172 && (leb 16 ip.b && leb ip.b 31)) || (ip.a == 192 && ip.b == 168)

abbrev pub is_link_local : Ipv4Addr → Bool
is_link_local ip = ip.a == 169 && ip.b == 254

abbrev pub is_multicast : Ipv4Addr → Bool
is_multicast ip = leb 224 ip.a && leb ip.a 239

abbrev pub is_broadcast : Ipv4Addr → Bool
is_broadcast ip = ip.a == 255 && (ip.b == 255 && (ip.c == 255 && ip.d == 255))

unfoldable pub is_global_v4 : Ipv4Addr → Bool
is_global_v4 ip = not (
    is_unspecified ip
    || is_loopback ip
    || is_private ip
    || is_link_local ip
    || is_multicast ip
    || is_broadcast ip
    || ip.a == 0
    || leb 224 ip.a
    || (ip.a == 100 && (leb 64 ip.b && leb ip.b 127))
    || (ip.a == 192 && (ip.b == 0 && ip.c == 0))
    || (ip.a == 192 && (ip.b == 0 && ip.c == 2))
    || (ip.a == 198 && (ip.b == 18 || ip.b == 19))
    || (ip.a == 198 && (ip.b == 51 && ip.c == 100))
    || (ip.a == 203 && (ip.b == 0 && ip.c == 113)))

-- `to_ipv4_mapped`: the address behind the prefix `::ffff:0:0/96`.
unfoldable pub to_ipv4_mapped : Ipv6Addr → Option Ipv4Addr
to_ipv4_mapped ip =
    if ip.s0 == 0 && (ip.s1 == 0 && (ip.s2 == 0 && (ip.s3 == 0 && (ip.s4 == 0 && ip.s5 == 65535))))
    then some (record { a = ip.s6 / 256; b = ip.s6 % 256; c = ip.s7 / 256; d = ip.s7 % 256 })
    else none

-- All segments but the last are 0, as in `::` and `::1`.
abbrev pub is_last : ℕ → Ipv6Addr → Bool
is_last n ip =
    ip.s0 == 0
    && (ip.s1 == 0
        && (ip.s2 == 0
            && (ip.s3 == 0 && (ip.s4 == 0 && (ip.s5 == 0 && (ip.s6 == 0 && ip.s7 == n))))))

-- `segment & mask`, with a mask of the bits from `k` on.
abbrev pub masked : ℕ → ℕ → ℕ
masked k segment = segment / 2 ^ k * 2 ^ k

unfoldable pub is_global_unicast : Ipv6Addr → Bool
is_global_unicast ip =
    masked 13 ip.s0 == 8192
    && not (
        is_last 0 ip
        || is_last 1 ip
        || masked 8 ip.s0 == 65280
        || masked 9 ip.s0 == 64512
        || masked 6 ip.s0 == 65152
        || (ip.s0 == 8193 && ip.s1 == 3512))

unfoldable pub is_global_v6 : Ipv6Addr → Bool
unfolding to_ipv4_mapped is_global_v4 is_global_unicast
is_global_v6 ip = elim (to_ipv4_mapped ip) [
  | some mapped ↦ is_global_v4 mapped
  | none ↦ is_global_unicast ip
]

unfoldable pub is_global_ip : IpAddr → Bool
unfolding is_global_v4 is_global_v6
is_global_ip (v4 ip) = is_global_v4 ip
is_global_ip (v6 ip) = is_global_v6 ip

pub record OutboundUrlPolicy : Type 0 where
  pub allow_private_network : Bool

-- The value of the environment's variable, if it is set.
unfoldable pub from_environment : Option Text → OutboundUrlPolicy
from_environment none = record { allow_private_network = false }
from_environment (some value) = record {
  allow_private_network =
      text_eq value (codes "1") || text_eq value (codes "true") || text_eq value (codes "TRUE");
}

unfoldable pub public_network_only : OutboundUrlPolicy
public_network_only = record { allow_private_network = false }

pub data Host : Type 0 where
  ipv4 : Ipv4Addr → Host
  ipv6 : Ipv6Addr → Host
  domain : Text → Host

pub record Url : Type 0 where
  pub scheme : Text
  pub username : Text
  pub password : Option Text
  pub host_str : Option Text
  pub host : Option Host
  pub port : ℕ

pub data OutboundError : Type 0 where
  invalid_url scheme_not_allowed has_credentials no_host metadata_target not_global : OutboundError
  dns_failed no_addresses : OutboundError
  resolved_to_blocked : IpAddr → OutboundError

abbrev pub is_some_text : Option Text → Bool
is_some_text none = false
is_some_text (some t) = true

abbrev pub or_empty : Option Text → Text
or_empty none = []
or_empty (some t) = t

unfoldable pub is_metadata_hostname : Text → Bool
is_metadata_hostname host =
    let name = lowercase (trim_end_of (codes "." ∷ []) host) in
    text_eq name (codes "metadata.google.internal")
    || text_eq name (codes "metadata.azure.internal")

unfoldable pub literal_ip : Option Host → Option IpAddr
literal_ip none = none
literal_ip (some (ipv4 ip)) = some (v4 ip)
literal_ip (some (ipv6 ip)) = some (v6 ip)
literal_ip (some (domain name)) = none

abbrev pub is_web_scheme : Text → Bool
is_web_scheme scheme = text_eq scheme (codes "http") || text_eq scheme (codes "https")

unfoldable pub validate_ip : OutboundUrlPolicy → IpAddr → Result OutboundError (Unit {0})
unfolding is_global_ip
validate_ip policy ip =
    if policy.allow_private_network || is_global_ip ip then ok tt else err not_global

-- `self.validate_ip(ip)?; Ok(url)`, where the URL has a literal address.
unfoldable pub check_literal : OutboundUrlPolicy → Url → Option IpAddr → Result OutboundError Url
check_literal policy url none = ok url
check_literal policy url (some ip) = elim (validate_ip policy ip) [ ok _ ↦ ok url | err e ↦ err e ]

unfoldable pub check_host : OutboundUrlPolicy → Url → Option Text → Result OutboundError Url
check_host policy url none = err no_host
check_host policy url (some host) =
    if is_metadata_hostname host && not policy.allow_private_network
    then err metadata_target
    else check_literal policy url (literal_ip url.host)

unfoldable pub validate_parsed : OutboundUrlPolicy → Url → Result OutboundError Url
validate_parsed policy url =
    if not (is_web_scheme url.scheme)
    then err scheme_not_allowed
    else if not (is_empty url.username) || is_some_text url.password
    then err has_credentials
    else check_host policy url url.host_str

unfoldable pub validate_all : OutboundUrlPolicy → List IpAddr → Result OutboundError (Unit {0})
validate_all policy [] = ok tt
validate_all policy (ip ∷ ips) = elim (validate_ip policy ip) [
  | ok _ ↦ validate_all policy ips
  | err e ↦ err (resolved_to_blocked ip)
]

unfoldable pub validate_resolved : OutboundUrlPolicy → List IpAddr → Result OutboundError (Unit {0})
unfolding validate_all
validate_resolved policy addresses =
    if is_empty addresses then err no_addresses else validate_all policy addresses

-- `parse` is the URL parser, `lookup_host` the resolver; each may fail.
module _ (parse : Text → Option Url) (lookup_host : Text → Option (List IpAddr)) where
  unfoldable pub validate_url_syntax : OutboundUrlPolicy → Text → Result OutboundError Url
  validate_url_syntax policy value = elim (parse value) [
    | none ↦ err invalid_url
    | some url ↦ validate_parsed policy url
  ]

  -- The resolver of the HTTP client: the addresses that are connected to.
  unfoldable pub resolve : OutboundUrlPolicy → Text → Result OutboundError (List IpAddr)
  resolve policy name = elim (lookup_host name) [
    | none ↦ err dns_failed
    | some addresses ↦ elim (validate_resolved policy addresses) [
      | ok _ ↦ ok addresses
      | err e ↦ err e
    ]
  ]

  unfoldable pub check_resolved : OutboundUrlPolicy → Url → Text → Result OutboundError Url
  unfolding resolve
  check_resolved policy url host = elim (resolve policy host) [ ok _ ↦ ok url | err e ↦ err e ]

  -- Behind `validate_url_syntax` the URL has a host.
  unfoldable pub check_addresses :
      OutboundUrlPolicy → Url → Option IpAddr → Result OutboundError Url
  check_addresses policy url (some ip) = ok url
  check_addresses policy url none =
      if policy.allow_private_network
      then ok url
      else check_resolved policy url (or_empty url.host_str)

  -- `validate_url` and `validate_url_blocking`.
  unfoldable pub validate_url : OutboundUrlPolicy → Text → Result OutboundError Url
  validate_url policy value = elim (validate_url_syntax policy value) [
    | err e ↦ err e
    | ok url ↦ check_addresses policy url (literal_ip url.host)
  ]

abbrev brackets : List Text
brackets = codes "[" ∷ codes "]" ∷ []

abbrev is_loopback_ip : IpAddr → Bool
is_loopback_ip (v4 ip) = is_loopback ip
is_loopback_ip (v6 ip) = is_last 1 ip

unfoldable pub is_loopback_bind_host : (Text → Option IpAddr) → Text → Bool
is_loopback_bind_host parse_ip host =
    let trimmed = trim_end_of brackets (trim_start_of brackets host) in
    eq_ignore_case trimmed (codes "localhost")
    || elim (parse_ip trimmed) [ none ↦ false | some ip ↦ is_loopback_ip ip ]
