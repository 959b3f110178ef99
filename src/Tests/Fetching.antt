-- ===== src/Tests/Fetching.antt =====
-- The guard on fetched addresses at concrete inputs.
use pulse_frix.Prelude.{
  ◌≡◌, ◌≢◌, ◌⊎◌, refl, not, false, true, some, List, [], ◌∷◌, ◌++◌, Text, bytes, same_text, arith,
  All,
}
use pulse_frix.Ssrf.{
  Ip, mapped_prefix, ip_allowed, is_special, is_loopback, is_unspecified, is_link_local_unicast,
  is_link_local_multicast, is_multicast, is_interface_local_multicast, is_private, contains,
  same_prefix, is_unroutable, by_form, to4, octet, is_blocked_name, has_suffix, trim_dot, Url,
  Network, accepted, check_addresses, validate, dials, dial_addresses, safe_dial,
}
use pulse_frix.Strings.{trim_space, to_lower}
use pulse_frix.Ssrf.Ranges.{is_reserved, value, ip_allowed_lem}
use pulse_frix.Ssrf.Safety.{IsAllowed, validate-IsAllowed, safe_dial-IsAllowed}

ip_allowed_example :
    (ip_allowed (93 ∷ 184 ∷ 216 ∷ 34 ∷ []) ≡ not (is_reserved (value 93 184 216 34)))
    × (ip_allowed (mapped_prefix ++ 93 ∷ 184 ∷ 216 ∷ 34 ∷ [])
        ≡ not (is_reserved (value 93 184 216 34)))
ip_allowed_example =
    ip_allowed_lem 93 184 216 34 (omega arith) (omega arith) (omega arith) (omega arith)

abbrev site : Url
site = record { scheme = bytes "https"; host = bytes "example.com" }

abbrev address : Ip
address = 93 ∷ 184 ∷ 216 ∷ 34 ∷ []

abbrev network : Network
network = record {
  parse = λ _. some site;
  lookup = λ _. some (address ∷ []);
  split = λ _. some (bytes "example.com", bytes "443");
}

abbrev link : Text
link = bytes "https://example.com/"

link_is_accepted : validate network link ≡ accepted site
unfolding validate check_addresses ip_allowed is_special is_loopback is_unspecified
    is_link_local_unicast is_link_local_multicast is_multicast is_interface_local_multicast
    is_private contains same_prefix is_unroutable by_form to4 octet same_text is_blocked_name
    has_suffix trim_dot trim_space to_lower
link_is_accepted = refl

validate_example :
    (network.parse (trim_space link) ≡ some site)
    × ((site.scheme ≡ bytes "http") ⊎ (site.scheme ≡ bytes "https"))
    × (site.host ≢ [])
    × (is_blocked_name site.host ≡ false)
    × ((ips : List Ip) × (network.lookup site.host ≡ some ips) × (ips ≢ []) × All IsAllowed ips)
validate_example = validate-IsAllowed network link site link_is_accepted

dial_is_made : safe_dial network (bytes "example.com:443") ≡ dials address (bytes "443")
unfolding safe_dial dial_addresses ip_allowed is_special is_loopback is_unspecified
    is_link_local_unicast is_link_local_multicast is_multicast is_interface_local_multicast
    is_private contains same_prefix is_unroutable by_form to4 octet same_text
dial_is_made = refl

safe_dial_example :
    (ip_allowed address ≡ true)
    × ((host : Text) × (rest : List Ip) × (network.split (bytes "example.com:443")
          ≡ some (host, bytes "443"))
        × (network.lookup host ≡ some (address ∷ rest)))
safe_dial_example =
    safe_dial-IsAllowed network (bytes "example.com:443") address (bytes "443") dial_is_made
