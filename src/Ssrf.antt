-- ===== src/Ssrf.antt =====
-- apps/api/internal/ssrf/ssrf.go: the guard on the addresses that the control plane fetches. A `net.IP`
-- is its bytes, 4 or 16 of them, and nil is the empty list; the methods of net.IP are written out as
-- package net has them. Parsing a URL, splitting an address and DNS are the functions of `Network`.
pub mod Ranges
pub mod Safety
use pulse_frix.Prelude.{
  ℕ, zero, suc, ◌+◌, ◌*◌, ◌-◌, ◌/◌, ◌^◌, Bool, true, false, not, ◌&&◌, ◌||◌, Option, none, some,
  List, [], ◌∷◌, ◌++◌, Text, bytes, any, all, length, take, drop, reverse, ltb, leb, nat_eq,
  text_eq, ◌==◌, if◌then◌else◌,
}
use pulse_frix.Strings.{to_lower, trim_space}

abbrev pub Ip : Type 0
Ip = Text

-- The first 12 bytes of an IPv4 address in its IPv6 form.
abbrev pub mapped_prefix : Text
mapped_prefix = 0 ∷ 0 ∷ 0 ∷ 0 ∷ 0 ∷ 0 ∷ 0 ∷ 0 ∷ 0 ∷ 0 ∷ 255 ∷ 255 ∷ []

abbrev ipv6_loopback : Ip
ipv6_loopback = 0 ∷ 0 ∷ 0 ∷ 0 ∷ 0 ∷ 0 ∷ 0 ∷ 0 ∷ 0 ∷ 0 ∷ 0 ∷ 0 ∷ 0 ∷ 0 ∷ 0 ∷ 1 ∷ []

abbrev ipv6_unspecified : Ip
ipv6_unspecified = 0 ∷ 0 ∷ 0 ∷ 0 ∷ 0 ∷ 0 ∷ 0 ∷ 0 ∷ 0 ∷ 0 ∷ 0 ∷ 0 ∷ 0 ∷ 0 ∷ 0 ∷ 0 ∷ []

-- `net.IP.To4`
unfoldable pub to4 : Ip → Option Ip
to4 ip =
    if length ip == 4
    then some ip
    else if length ip == 16 && take 12 ip == mapped_prefix
    then some (drop 12 ip)
    else none

unfoldable pub octet : Ip → ℕ → ℕ
octet [] i = 0
octet (b ∷ ip) zero = b
octet (b ∷ ip) (suc i) = octet ip i

-- A test of an address: of its IPv4 form where it has one, else of its 16 bytes.
unfoldable pub by_form : (Ip → Bool) → (Ip → Bool) → Ip → Bool
by_form v4 v6 ip = elim (to4 ip) [ some v ↦ v4 v | none ↦ length ip == 16 && v6 ip ]

unfoldable pub is_loopback : Ip → Bool
is_loopback = by_form (λ v. octet v 0 == 127) (λ ip. ip == ipv6_loopback)

unfoldable pub is_unspecified : Ip → Bool
is_unspecified = by_form (λ v. v == 0 ∷ 0 ∷ 0 ∷ 0 ∷ []) (λ ip. ip == ipv6_unspecified)

unfoldable pub is_link_local_unicast : Ip → Bool
is_link_local_unicast =
    by_form (λ v. octet v 0 == 169 && octet v 1 == 254)
      (λ ip. octet ip 0 == 254 && octet ip 1 / 64 == 2)

unfoldable pub is_link_local_multicast : Ip → Bool
is_link_local_multicast =
    by_form (λ v. octet v 0 == 224 && octet v 1 == 0 && octet v 2 == 0)
      (λ ip. octet ip 0 == 255 && octet ip 1 - octet ip 1 / 16 * 16 == 2)

unfoldable pub is_multicast : Ip → Bool
is_multicast = by_form (λ v. octet v 0 / 16 == 14) (λ ip. octet ip 0 == 255)

unfoldable pub is_interface_local_multicast : Ip → Bool
is_interface_local_multicast ip =
    length ip == 16 && octet ip 0 == 255 && octet ip 1 - octet ip 1 / 16 * 16 == 1

unfoldable pub is_private : Ip → Bool
is_private =
    by_form
      (λ v.
        octet v 0 == 10
        || octet v 0 == 172 && octet v 1 / 16 == 1
        || octet v 0 == 192 && octet v 1 == 168)
      (λ ip. octet ip 0 / 2 == 126)

-- `*net.IPNet`: the number of the network and the bits of its mask.
pub record IpNet : Type 0 where
  pub number : Text
  pub bits : ℕ

-- The first `bits` bits of two addresses agree.
unfoldable pub same_prefix : ℕ → Text → Text → Bool
same_prefix bits [] ip = true
same_prefix bits (n ∷ ns) [] = true
same_prefix bits (n ∷ ns) (b ∷ bs) =
    let rest = same_prefix (bits - 8) ns bs in
    if leb 8 bits then n == b && rest else n / 2 ^ (8 - bits) == b / 2 ^ (8 - bits)

-- `net.IPNet.Contains`
unfoldable pub contains : IpNet → Ip → Bool
contains net ip =
    let x : Ip = elim (to4 ip) [ some v ↦ v | none ↦ ip ] in
    length x == length net.number && same_prefix net.bits net.number x

abbrev pub extra_blocked : List IpNet
extra_blocked =
    record { number = 169 ∷ 254 ∷ 0 ∷ 0 ∷ []; bits = 16 }
    ∷ record { number = 100 ∷ 64 ∷ 0 ∷ 0 ∷ []; bits = 10 }
    ∷ record { number = 192 ∷ 0 ∷ 0 ∷ 0 ∷ []; bits = 24 }
    ∷ record { number = 192 ∷ 0 ∷ 2 ∷ 0 ∷ []; bits = 24 }
    ∷ record { number = 198 ∷ 18 ∷ 0 ∷ 0 ∷ []; bits = 15 }
    ∷ record { number = 172 ∷ 17 ∷ 0 ∷ 0 ∷ []; bits = 16 }
    ∷ record {
      number = 252 ∷ 0 ∷ 0 ∷ 0 ∷ 0 ∷ 0 ∷ 0 ∷ 0 ∷ 0 ∷ 0 ∷ 0 ∷ 0 ∷ 0 ∷ 0 ∷ 0 ∷ 0 ∷ [];
      bits = 7;
    }
    ∷ []

-- 0.0.0.0/8 and 240.0.0.0/4
unfoldable pub is_unroutable : Ip → Bool
is_unroutable ip = elim (to4 ip) [ none ↦ false | some v ↦ octet v 0 == 0 || leb 240 (octet v 0) ]

unfoldable pub is_special : Ip → Bool
is_special ip =
    is_loopback ip
    || is_unspecified ip
    || is_link_local_unicast ip
    || is_link_local_multicast ip
    || is_multicast ip
    || is_interface_local_multicast ip

unfoldable pub ip_allowed : Ip → Bool
ip_allowed ip =
    if ip == []
    then false
    else if is_special ip
    then false
    else if is_private ip
    then false
    else if any (λ net. contains net ip) extra_blocked
    then false
    else not (is_unroutable ip)

-- The suffix tests of package strings.
starts_with : Text → Text → Bool
starts_with [] s = true
starts_with (c ∷ p) [] = false
starts_with (c ∷ p) (d ∷ s) = c == d && starts_with p s

unfoldable pub has_suffix : Text → Text → Bool
unfolding starts_with
has_suffix s suffix = starts_with (reverse suffix) (reverse s)

drop_dot : Text → Text
drop_dot [] = []
drop_dot (c ∷ s) = if c == b'.' then s else c ∷ s

-- `strings.TrimSuffix(host, ".")`
unfoldable pub trim_dot : Text → Text
unfolding drop_dot
trim_dot host = reverse (drop_dot (reverse host))

unfoldable pub is_blocked_name : Text → Bool
is_blocked_name host =
    let h = to_lower (trim_dot host) in
    h == bytes "localhost"
    || h == bytes "metadata.google.internal"
    || has_suffix h (bytes ".localhost")
    || has_suffix h (bytes ".internal")

pub record Url : Type 0 where
  pub scheme : Text
  pub host : Text

-- `parse` is `url.Parse` with `Hostname`, `lookup` is `LookupIPAddr`, and `split` `SplitHostPort`; each
-- is `none` where it returns an error.
pub record Network : Type 0 where
  pub parse : Text → Option Url
  pub lookup : Text → Option (List Ip)
  pub split : Text → Option (Text × Text)

pub data Blocked : Type 0 where
  invalid_url scheme_not_allowed empty_host blocked_host dns_failed no_addresses internal_address :
      Blocked

pub data Validated : Type 0 where
  accepted : Url → Validated
  refused : Blocked → Validated

-- The test of every resolved address.
unfoldable pub check_addresses : Url → Option (List Ip) → Validated
check_addresses u none = refused dns_failed
check_addresses u (some []) = refused no_addresses
check_addresses u (some (ip ∷ ips)) =
    if all ip_allowed (ip ∷ ips) then accepted u else refused internal_address

unfoldable pub validate : Network → Text → Validated
validate n raw_url = elim (n.parse (trim_space raw_url)) [
  | none ↦ refused invalid_url
  | some u ↦
      if not (u.scheme == bytes "http" || u.scheme == bytes "https")
      then refused scheme_not_allowed
      else if u.host == []
      then refused empty_host
      else if is_blocked_name u.host
      then refused blocked_host
      else check_addresses u (n.lookup u.host)
]

-- `DialContext` of `SafeClient`: the address and port that it dials, an error, or the panic of `ips[0]`
-- on an empty list.
pub data Dial : Type 0 where
  dials : Ip → Text → Dial
  dial_error : Dial
  dial_panic : Dial

unfoldable pub dial_addresses : Text → List Ip → Dial
dial_addresses port [] = dial_panic
dial_addresses port (ip ∷ ips) = if all ip_allowed (ip ∷ ips) then dials ip port else dial_error

unfoldable pub safe_dial : Network → Text → Dial
safe_dial n addr = elim (n.split addr) [
  | none ↦ dial_error
  | some (host, port) ↦ elim (n.lookup host) [
    | none ↦ dial_error
    | some ips ↦ dial_addresses port ips
  ]
]

-- `CheckRedirect`: `via` is the number of requests so far.
unfoldable pub allows_redirect : Network → ℕ → Text → Bool
allows_redirect n via target =
    if leb 5 via then false else elim (validate n target) [ accepted _ ↦ true | refused _ ↦ false ]
