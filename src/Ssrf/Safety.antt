-- ===== src/Ssrf/Safety.antt =====
-- What the guard lets through.
use pulse_frix.Prelude.{
  ◌≡◌, ◌≢◌, refl, ◌⊎◌, inl, inr, true, false, ◌||◌, Option, none, some, List, [], ◌∷◌, Text, bytes,
  all, text_eq, ◌==◌, arith, Option-cases, Bool-cases, All, same_text_iff,
}
use pulse_frix.Strings.{trim_space}
use pulse_frix.Ssrf.{
  Ip, ip_allowed, is_blocked_name, Url, Network, accepted, check_addresses, validate, dials,
  dial_addresses, safe_dial,
}

abbrev pub IsAllowed : Ip → Type 0
IsAllowed ip = ip_allowed ip ≡ true

all-IsAllowed : (ips : List Ip) → all ip_allowed ips ≡ true → All IsAllowed ips
all-IsAllowed [] h = tt
all-IsAllowed (ip ∷ ips) h = (ground (arith, h), all-IsAllowed ips (ground (arith, h)))

check_addresses_accepted :
    (u v : Url) (found : Option (List Ip))
    → check_addresses u found ≡ accepted v
    → (ips : List Ip) × (found ≡ some ips) × (ips ≢ []) × All IsAllowed ips × (v ≡ u)
unfolding check_addresses
check_addresses_accepted u v none h = absurd (ground (arith, h))
check_addresses_accepted u v (some []) h = absurd (ground (arith, h))
check_addresses_accepted u v (some (ip ∷ ips)) h =
    (ip ∷ ips, refl, λ e. cc, all-IsAllowed (ip ∷ ips) (ground (arith, h)), ground (arith, h))

scheme_of :
    (u : Url)
    → (u.scheme == bytes "http" || u.scheme == bytes "https") ≡ true
    → (u.scheme ≡ bytes "http") ⊎ (u.scheme ≡ bytes "https")
scheme_of u h = elim (Bool-cases (u.scheme == bytes "http")) [
  | inl e ↦ inl ((same_text_iff u.scheme (bytes "http")).0 e)
  | inr e ↦ inr ((same_text_iff u.scheme (bytes "https")).0 (ground (arith, h, e)))
]

-- A URL that is accepted is what the text parses to; its scheme is http or https, its host is not
-- empty and is no blocked name, and the host resolves to one address or more, all of them allowed.
pub validate-IsAllowed :
    (n : Network) (raw_url : Text) (u : Url)
    → validate n raw_url ≡ accepted u
    → (n.parse (trim_space raw_url) ≡ some u)
      × ((u.scheme ≡ bytes "http") ⊎ (u.scheme ≡ bytes "https"))
      × (u.host ≢ [])
      × (is_blocked_name u.host ≡ false)
      × ((ips : List Ip) × (n.lookup u.host ≡ some ips) × (ips ≢ []) × All IsAllowed ips)
unfolding validate
validate-IsAllowed n raw_url u h = elim (Option-cases (n.parse (trim_space raw_url))) [
  | inl e ↦ absurd (ground (arith, h, e))
  | inr (v, e) ↦
      let (ips, found, some_ip, allowed, same) =
        check_addresses_accepted v u (n.lookup v.host) (ground (arith, h, e)) in
      rw same (
        e,
        scheme_of v (ground (arith, h, e)),
        λ nil. ground (arith, h, e, nil, same_text_iff v.host []),
        ground (arith, h, e),
        (ips, found, some_ip, allowed),
      )
]

dial_addresses_dials :
    (p port : Text) (ips : List Ip) (ip : Ip)
    → dial_addresses p ips ≡ dials ip port
    → (ip_allowed ip ≡ true) × ((rest : List Ip) × (ips ≡ ip ∷ rest) × (p ≡ port))
unfolding dial_addresses
dial_addresses_dials p port [] ip h = absurd (ground (arith, h))
dial_addresses_dials p port (x ∷ rest) ip h =
    (ground (arith, h), (rest, ground (arith, h), ground (arith, h)))

-- Whatever names resolve to when the connection is made, an address that is dialled is allowed, and
-- it is one that the host of the address resolves to.
pub safe_dial-IsAllowed :
    (n : Network) (addr : Text) (ip : Ip) (port : Text)
    → safe_dial n addr ≡ dials ip port
    → (ip_allowed ip ≡ true)
      × ((host : Text) × (rest : List Ip) × (n.split addr ≡ some (host, port))
          × (n.lookup host ≡ some (ip ∷ rest)))
unfolding safe_dial
safe_dial-IsAllowed n addr ip port h = elim (Option-cases (n.split addr)) [
  | inl e ↦ absurd (ground (arith, h, e))
  | inr ((host, p), e) ↦ elim (Option-cases (n.lookup host)) [
    | inl e' ↦ absurd (ground (arith, h, e, e'))
    | inr (ips, e') ↦
        let (allowed, (rest, found, same)) =
          dial_addresses_dials p port ips ip (ground (arith, h, e, e')) in
        (allowed, (host, rest, ground (arith, e, same), ground (arith, e', found)))
  ]
]
