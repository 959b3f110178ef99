-- ===== src/Ssrf/Ranges.antt =====
-- The allowed IPv4 addresses, as numbers.
use pulse_frix.Prelude.{
  ℕ, ◌+◌, ◌*◌, ◌<◌, ◌≤◌, ◌/◌, ◌∙◌, ◌≡◌, refl, Bool, true, false, not, ◌&&◌, ◌||◌, [], ◌∷◌, ◌++◌,
  any, leb, nat_eq, ◌==◌, if◌then◌else◌, arith, text_eq, same_text,
}
use pulse_frix.Ssrf.{
  to4, octet, by_form, is_loopback, is_unspecified, is_link_local_unicast, is_link_local_multicast,
  is_multicast, is_interface_local_multicast, is_private, same_prefix, contains, extra_blocked,
  is_unroutable, is_special, ip_allowed, mapped_prefix,
}

abbrev pub value : ℕ → ℕ → ℕ → ℕ → ℕ
value a b c d = ((a * 256 + b) * 256 + c) * 256 + d

-- The ranges that are reserved, by their first and last address.
abbrev pub is_reserved : ℕ → Bool
is_reserved n =
    any (λ (lo, hi). leb lo n && leb n hi)
      ((value 0 0 0 0, value 0 255 255 255)
        ∷ (value 10 0 0 0, value 10 255 255 255)
        ∷ (value 100 64 0 0, value 100 127 255 255)
        ∷ (value 127 0 0 0, value 127 255 255 255)
        ∷ (value 169 254 0 0, value 169 254 255 255)
        ∷ (value 172 16 0 0, value 172 31 255 255)
        ∷ (value 192 0 0 0, value 192 0 0 255)
        ∷ (value 192 0 2 0, value 192 0 2 255)
        ∷ (value 192 168 0 0, value 192 168 255 255)
        ∷ (value 198 18 0 0, value 198 19 255 255)
        ∷ (value 224 0 0 0, value 255 255 255 255)
        ∷ [])

abbrev within : ℕ → ℕ → ℕ → Bool
within lo hi n = leb lo n && leb n hi

or_false : (x : Bool) → (x || false) ≡ x
or_false true = refl
or_false false = refl

module _ (a b c d : ℕ) (la : a < 256) (lb : b < 256) (lc : c < 256) (ld : d < 256) where
  within_first : (x : ℕ) → within (value x 0 0 0) (value x 255 255 255) (value a b c d) ≡ (a == x)
  within_first x = ground arith

  within_last : within (value 224 0 0 0) (value 255 255 255 255) (value a b c d) ≡ leb 224 a
  within_last = ground arith

  within_block :
      (x y : ℕ)
      → y < 256
      → within (value x y 0 0) (value x y 255 255) (value a b c d) ≡ (a == x && b == y)
  within_block x y small = ground arith

  within_second :
      (x lo hi : ℕ)
      → hi < 256
      → lo ≤ hi
      → within (value x lo 0 0) (value x hi 255 255) (value a b c d)
        ≡ (a == x && (leb lo b && leb b hi))
  within_second x lo hi small le = ground arith

  within_third :
      (x y z : ℕ)
      → z < 256
      → y < 256
      → within (value x y z 0) (value x y z 255) (value a b c d) ≡ (a == x && (b == y && c == z))
  within_third x y z small small' = ground arith

  special_octets : Bool
  special_octets =
      a == 127
      || (a == 0 && (b == 0 && (c == 0 && d == 0)) || (a == 169 && b == 254 || a / 16 == 14))

  private_octets : Bool
  private_octets = a == 10 || (a == 172 && (leb 16 b && leb b 31) || a == 192 && b == 168)

  extra_octets : Bool
  extra_octets =
      a == 169 && b == 254
      || (a == 100 && (leb 64 b && leb b 127)
          || (a == 192 && (b == 0 && c == 0)
              || (a == 192 && (b == 0 && c == 2)
                  || (a == 198 && (leb 18 b && leb b 19) || a == 172 && b == 17))))

  reserved_octets : Bool
  reserved_octets =
      a == 0
      || (a == 10
          || (a == 100 && (leb 64 b && leb b 127)
              || (a == 127
                  || (a == 169 && b == 254
                      || (a == 172 && (leb 16 b && leb b 31)
                          || (a == 192 && (b == 0 && c == 0)
                              || (a == 192 && (b == 0 && c == 2)
                                  || (a == 192 && b == 168
                                      || (a == 198 && (leb 18 b && leb b 19) || leb 224 a)))))))))

  is_special-octets : is_special (a ∷ b ∷ c ∷ d ∷ []) ≡ special_octets
  unfolding special_octets is_special is_loopback is_unspecified is_link_local_unicast
      is_link_local_multicast is_multicast is_interface_local_multicast by_form to4 octet same_text
  is_special-octets = ground arith

  is_private-octets : is_private (a ∷ b ∷ c ∷ d ∷ []) ≡ private_octets
  unfolding private_octets is_private by_form to4 octet
  is_private-octets = ground arith

  extra_blocked-octets : any (λ net. contains net (a ∷ b ∷ c ∷ d ∷ [])) extra_blocked ≡ extra_octets
  unfolding extra_octets contains same_prefix to4
  extra_blocked-octets = ground arith

  is_unroutable-octets : is_unroutable (a ∷ b ∷ c ∷ d ∷ []) ≡ (a == 0 || leb 240 a)
  unfolding is_unroutable to4 octet
  is_unroutable-octets = refl

  octets_agree :
      (if special_octets
        then false
        else if private_octets
        then false
        else if extra_octets
        then false
        else not (a == 0 || leb 240 a))
      ≡ not reserved_octets
  unfolding special_octets private_octets extra_octets reserved_octets
  octets_agree = ground arith

  ip_allowed-octets : ip_allowed (a ∷ b ∷ c ∷ d ∷ []) ≡ not reserved_octets
  unfolding ip_allowed same_text
  ip_allowed-octets =
      rw (is_special-octets, is_private-octets, extra_blocked-octets, is_unroutable-octets)
        octets_agree

  is_reserved-octets : is_reserved (value a b c d) ≡ reserved_octets
  unfolding reserved_octets
  is_reserved-octets = rw (
    within_first 0,
    within_first 10,
    within_second 100 64 127 (omega arith) (omega arith),
    within_first 127,
    within_block 169 254 (omega arith),
    within_second 172 16 31 (omega arith) (omega arith),
    within_third 192 0 0 (omega arith) (omega arith),
    within_third 192 0 2 (omega arith) (omega arith),
    within_block 192 168 (omega arith),
    within_second 198 18 19 (omega arith) (omega arith),
    within_last,
    or_false,
  )

ip_allowed-mapped :
    (a b c d : ℕ)
    → ip_allowed (mapped_prefix ++ a ∷ b ∷ c ∷ d ∷ []) ≡ ip_allowed (a ∷ b ∷ c ∷ d ∷ [])
unfolding ip_allowed is_special is_loopback is_unspecified is_link_local_unicast
    is_link_local_multicast is_multicast is_interface_local_multicast is_private contains
    same_prefix is_unroutable by_form to4 octet same_text
ip_allowed-mapped a b c d = refl

-- An IPv4 address, in its form of 4 bytes and in its IPv6 form of 16, is allowed exactly if its number
-- is in none of the reserved ranges: 0.0.0.0/8, 10.0.0.0/8, 100.64.0.0/10, 127.0.0.0/8,
-- 169.254.0.0/16, 172.16.0.0/12, 192.0.0.0/24, 192.0.2.0/24, 192.168.0.0/16, 198.18.0.0/15 and all
-- from 224.0.0.0 on. The bytes are below 256.
pub ip_allowed_lem :
    (a b c d : ℕ)
    → a < 256
    → b < 256
    → c < 256
    → d < 256
    → (ip_allowed (a ∷ b ∷ c ∷ d ∷ []) ≡ not (is_reserved (value a b c d)))
      × (ip_allowed (mapped_prefix ++ a ∷ b ∷ c ∷ d ∷ []) ≡ not (is_reserved (value a b c d)))
ip_allowed_lem a b c d la lb lc ld =
    let e : ip_allowed (a ∷ b ∷ c ∷ d ∷ []) ≡ not (is_reserved (value a b c d)) =
      ip_allowed-octets a b c d la lb lc ld ∙ rw (is_reserved-octets a b c d la lb lc ld) in
    (e, ip_allowed-mapped a b c d ∙ e)
