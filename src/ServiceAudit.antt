-- ===== src/ServiceAudit.antt =====
-- apps/api/internal/httpx/handlers_service_audit.go and service_audit_rules.go: the graph of the
-- services of a server, and the rules that look for what nothing needs. A nil pointer that the code
-- would follow is `none`. The fixed sentences of a finding are left out, and a sentence of its evidence
-- is a constructor with the values that it is printed with. A JSON number is a float64, of which only
-- the conversion to int64 and two comparisons are used: the functions of `Floats`.
pub mod Graph
pub mod Links
pub mod Rules
pub mod Report
pub mod Sound
pub mod Exempt
pub mod Ranking
use pulse_frix.Prelude.{
  ℕ, zero, suc, ◌+◌, ◌-◌, ◌*◌, ◌%◌, ◌^◌, ◌≡◌, refl, Bool, true, false, not, ◌&&◌, ◌||◌, Option,
  none, some, List, [], ◌∷◌, ◌++◌, Text, bytes, any, reverse, nat_eq, text_eq, ◌==◌, ltb, leb,
  if◌then◌else◌,
}
use pulse_frix.Dict
use pulse_frix.Dict.{Dict}
use pulse_frix.Prelude.Int.{ℤ, pos, negsuc, pos_part, neg_part, ltb_ℤ, sub_ℕ}
use pulse_frix.Strings.{to_lower}

abbrev pub Float : Type 0
Float = ℕ

-- A decoded JSON value, as far as an attribute is read.
pub data Value : Type 0 where
  text : Text → Value
  number : Float → Value
  texts : List Text → Value
  other : Value

-- `is_idle_cpu` is the test `f < idleCPUPercent`.
pub record Floats : Type 0 where
  pub to_int64 : Float → ℤ
  pub zero_float : Float
  pub is_idle_cpu : Float → Bool

pub record Port : Type 0 where
  pub host : ℤ
  pub container : ℤ

-- `agentResource`, without what the audit does not read.
pub record AgentResource : Type 0 where
  pub id : Text
  pub type : Text
  pub name : Text
  pub status : Text
  pub health : Text
  pub ports : List Port
  pub networks : List Text
  pub depends_on : List Text
  pub attributes : Dict Value

pub record ServiceUsage : Type 0 where
  pub cpu_percent : Float
  pub memory_bytes : ℤ
  pub disk_bytes : ℤ
  pub net_rx_bytes : ℤ
  pub net_tx_bytes : ℤ

pub record ServiceNode : Type 0 where
  pub id : Text
  pub name : Text
  pub kind : Text
  pub placement : Text
  pub status : Text
  pub health : Text
  pub image : Text
  pub engine : Text
  pub project : Text
  pub ports : List ℤ
  pub public_ports : List ℤ
  pub usage : ServiceUsage
  pub inbound_routes : List Text
  pub peers : List Text
  pub essential : Bool

pub record ServiceRelation : Type 0 where
  pub from : Text
  pub to : Text
  pub kind : Text
  pub detail : Text

-- The sum of two int64 wraps around.
wrap64 : ℤ → ℤ
wrap64 (pos n) = let m = n % 2 ^ 64 in if ltb m (2 ^ 63) then pos m else negsuc (2 ^ 64 - 1 - m)
wrap64 (negsuc n) = let m = n % 2 ^ 64 in if ltb m (2 ^ 63) then negsuc m else pos (2 ^ 64 - 1 - m)

unfoldable pub add64 : ℤ → ℤ → ℤ
unfolding wrap64
add64 a b = wrap64 (sub_ℕ (pos_part a + pos_part b) (neg_part a + neg_part b))

unfoldable pub same_int : ℤ → ℤ → Bool
same_int a b = pos_part a == pos_part b && neg_part a == neg_part b

unfoldable pub string_attr : Dict Value → Text → Text
string_attr attrs key = elim (Dict.get attrs key) [ some (text s) ↦ s | _ ↦ [] ]

unfoldable pub float_attr : Floats → Dict Value → Text → Float
float_attr fl attrs key = elim (Dict.get attrs key) [ some (number f) ↦ f | _ ↦ fl.zero_float ]

unfoldable pub int64_attr : Floats → Dict Value → Text → ℤ
int64_attr fl attrs key = fl.to_int64 (float_attr fl attrs key)

-- On a 64-bit host an `int` is an int64.
unfoldable pub int_attr : Floats → Dict Value → Text → ℤ
int_attr fl attrs key = elim (Dict.get attrs key) [ some (number f) ↦ fl.to_int64 f | _ ↦ pos 0 ]

non_empty : List Text → List Text
non_empty [] = []
non_empty (s ∷ ss) = let rest = non_empty ss in if s == [] then rest else s ∷ rest

unfoldable pub to_string_slice : Option Value → List Text
unfolding non_empty
to_string_slice (some (texts ss)) = non_empty ss
to_string_slice _ = []

unfoldable pub resources_of : List AgentResource → List Text → List AgentResource
resources_of [] want = []
resources_of (r ∷ rs) want =
    let rest = resources_of rs want in if any (λ t. t == r.type) want then r ∷ rest else rest

unfoldable pub append_unique : List Text → Text → List Text
append_unique list v = if any (λ x. x == v) list then list else list ++ v ∷ []

unfoldable pub append_unique_int : List ℤ → ℤ → List ℤ
append_unique_int list v =
    if not (ltb_ℤ (pos 0) v)
    then list
    else if any (λ x. same_int x v) list
    then list
    else list ++ v ∷ []

-- `strings.HasPrefix`, and `strings.TrimPrefix`.
unfoldable pub has_prefix : Text → Text → Bool
has_prefix s [] = true
has_prefix [] (c ∷ p) = false
has_prefix (d ∷ s) (c ∷ p) = d == c && has_prefix s p

drop_text : Text → Text → Text
drop_text s [] = s
drop_text [] (c ∷ p) = []
drop_text (d ∷ s) (c ∷ p) = drop_text s p

unfoldable pub trim_prefix : Text → Text → Text
unfolding drop_text
trim_prefix s p = if has_prefix s p then drop_text s p else s

unfoldable pub trim_suffix : Text → Text → Text
trim_suffix s p = reverse (trim_prefix (reverse s) (reverse p))

abbrev pub essential_names : List Text
essential_names =
    bytes "sshd"
    ∷ bytes "ssh"
    ∷ bytes "systemd-journald"
    ∷ bytes "systemd-logind"
    ∷ bytes "systemd-networkd"
    ∷ bytes "systemd-resolved"
    ∷ bytes "systemd-udevd"
    ∷ bytes "dbus"
    ∷ bytes "cron"
    ∷ bytes "crond"
    ∷ bytes "rsyslog"
    ∷ bytes "chronyd"
    ∷ bytes "ntpd"
    ∷ bytes "systemd-timesyncd"
    ∷ bytes "docker"
    ∷ bytes "containerd"
    ∷ bytes "ufw"
    ∷ bytes "firewalld"
    ∷ bytes "fail2ban"
    ∷ bytes "unattended-upgrades"
    ∷ []

abbrev pub essential_prefixes : List Text
essential_prefixes =
    bytes "pulse-"
    ∷ bytes "systemd-"
    ∷ bytes "getty@"
    ∷ bytes "user@"
    ∷ bytes "docker-"
    ∷ bytes "containerd-"
    ∷ []

unfoldable pub is_essential : Text → Bool
is_essential name =
    let n = to_lower (trim_suffix name (bytes ".service")) in
    any (λ e. e == n) essential_names || any (λ p. has_prefix n p) essential_prefixes
