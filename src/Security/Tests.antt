-- ===== src/Security/Tests.antt =====
-- Addresses and URLs under the strict policy: src/network/security.rs.
use plasmate.Common.{
  ◌≤◌, ◌<◌, ◌≡◌, ◌≢◌, ◌⊎◌, ◌↔◌, refl, true, Option, none, some, List, [], ◌∷◌, arith, All,
}
use plasmate.Text.{Text, codes, text_eq, lowercase, trim_end_of}
use plasmate.Security.{
  Ipv4Addr, Ipv6Addr, IpAddr, v4, is_global_v4, is_global_v6, is_global_ip, Url, domain,
  public_network_only, validate_url, resolve, validate_url_syntax, validate_parsed, check_host,
  check_literal, check_addresses, literal_ip, check_resolved, validate_resolved, validate_ip,
  is_metadata_hostname,
}
use plasmate.Security.Blocks.{IsPublic, IsMapped, mapped, is_global_v4_iff, is_global_v6_iff}
use plasmate.Security.Laws.{Allowed, validate_url-Allowed, resolve-AllGlobal}

abbrev router : Ipv4Addr
router = record { a = 192; b = 168; c = 0; d = 1 }

is_global_v4_iff_example : (is_global_v4 router ≡ true) ↔ IsPublic router
is_global_v4_iff_example = is_global_v4_iff router (omega arith)

abbrev mapped_router : Ipv6Addr
mapped_router = record { s0 = 0; s1 = 0; s2 = 0; s3 = 0; s4 = 0; s5 = 65535; s6 = 49320; s7 = 1 }

is_global_v6_iff_example : (is_global_v6 mapped_router ≡ true) ↔ (
    (IsMapped mapped_router × IsPublic (mapped mapped_router))
    ⊎ ((8192 ≤ mapped_router.s0)
        × (mapped_router.s0 < 16384)
        × (¬ ((mapped_router.s0 ≡ 8193) × (mapped_router.s1 ≡ 3512)))))
is_global_v6_iff_example = is_global_v6_iff mapped_router (omega arith)

abbrev public_ip : IpAddr
public_ip = v4 (record { a = 93; b = 184; c = 216; d = 34 })

abbrev page : Url
page = record {
  scheme = codes "https";
  username = [];
  password = none;
  host_str = some (codes "example.com");
  host = some (domain (codes "example.com"));
  port = 443;
}

abbrev parse : Text → Option Url
parse value = some page

abbrev lookup : Text → Option (List IpAddr)
lookup name = some (public_ip ∷ [])

resolve-AllGlobal_example :
    (lookup (codes "example.com") ≡ some (public_ip ∷ []))
    × ((public_ip ∷ []) ≢ [])
    × All (λ ip. is_global_ip ip ≡ true) (public_ip ∷ [])
unfolding public_network_only resolve validate_resolved validate_ip
resolve-AllGlobal_example =
    resolve-AllGlobal public_network_only refl parse lookup (codes "example.com") (public_ip ∷ [])
      refl

validate_url-Allowed_example :
    (parse (codes "https://example.com/") ≡ some page) × Allowed lookup page
unfolding public_network_only validate_url check_addresses literal_ip check_resolved
    validate_resolved validate_ip validate_url_syntax validate_parsed check_host check_literal
    is_metadata_hostname text_eq lowercase trim_end_of
validate_url-Allowed_example =
    validate_url-Allowed public_network_only refl parse lookup (codes "https://example.com/") page
      refl
