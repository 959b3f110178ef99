-- ===== src/Websocket/Upgrade.antt =====
-- websocket.go, the test of an upgrade request. Headers are ASCII.
use pulse_frix.Prelude.{
  Bool, not, ◌&&◌, List, [], ◌∷◌, Text, bytes, any, nat_eq, text_eq, ◌==◌, ◌≡◌, refl, true,
  same_text, if◌then◌else◌,
}
use pulse_frix.Strings.{to_lower, trim_space}

-- `strings.EqualFold`
pub equal_fold : Text → Text → Bool
equal_fold a b = to_lower a == to_lower b

before_comma : Text → Text × List Text
before_comma [] = ([], [])
before_comma (c ∷ s) =
    let (w, parts) = before_comma s in if c == b',' then ([], w ∷ parts) else (c ∷ w, parts)

-- `strings.Split(v, ",")`
pub split_comma : Text → List Text
unfolding before_comma
split_comma s = let (w, parts) = before_comma s in w ∷ parts

pub header_has_token : List Text → Text → Bool
header_has_token values token =
    any (λ v. any (λ part. equal_fold (trim_space part) token) (split_comma v)) values

-- The method and the headers that the test reads; a missing header reads as empty.
pub record Upgrade : Type 0 where
  pub method : Text
  pub upgrade : Text
  pub connection : List Text
  pub version : Text
  pub key : Text

pub is_upgrade : Upgrade → Bool
is_upgrade r =
    r.method == bytes "GET"
    && (equal_fold r.upgrade (bytes "websocket")
        && (header_has_token r.connection (bytes "upgrade")
            && (r.version == bytes "13" && not (r.key == []))))

is_upgrade_run :
    is_upgrade (record {
      method = bytes "GET";
      upgrade = bytes "WebSocket";
      connection = bytes "keep-alive, Upgrade" ∷ [];
      version = bytes "13";
      key = bytes "k";
    })
    ≡ true
unfolding is_upgrade equal_fold header_has_token split_comma to_lower trim_space same_text
is_upgrade_run = refl
