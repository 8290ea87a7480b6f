-- ===== src/Gateway/DeviceAuth/Tests.antt =====
-- A store with one device, on a platform whose encodings do nothing.
use agent_ego.Base.{◌≤◌, ◌≡◌, refl, true, List, [], ◌∷◌, none, some, str_eq}
use agent_ego.Base.Dict
use agent_ego.Gateway.DeviceAuth.{
  Platform, DeviceRecord, DeviceAuthStore, verify_session_token, check_parts, check_session,
  verify_token, by_device,
}
use agent_ego.Gateway.DeviceAuth.Challenges.{
  Act, issues, consumes, issued, accepted, accepted-issued,
}
use agent_ego.Gateway.DeviceAuth.Tokens.{Proven, verify_token-Proven}

abbrev plain : Platform
plain = record {
  is_key = λ key. true;
  to_lower_case = λ s. s;
  clean_name = λ s. s;
  hmac = λ s. "mac";
  same_mac = str_eq;
  b64 = λ s. s;
  unb64 = λ s. s;
  show = λ n. "9";
  read_number = λ s. some 9;
  split = λ s. "v1" ∷ "phone" ∷ "9" ∷ "salt" ∷ "mac" ∷ [];
  bearer = some;
}

abbrev phone : DeviceRecord
phone = record {
  device_id = "phone";
  public_key_hex = "00";
  name = "phone";
  enrolled_at = 1;
  last_seen_at = none;
}

abbrev store : DeviceAuthStore
store = record {
  session_ttl_ms = 5;
  challenge_ttl_ms = 5;
  devices = ("phone", phone) ∷ [];
  challenges = [];
}

abbrev emptied : DeviceAuthStore
emptied = record store { devices = [] }

abbrev seen : DeviceAuthStore
seen = record store { devices = ("phone", record phone { last_seen_at = some 4 }) ∷ [] }

accepts_token : verify_token plain ("master" ∷ []) (some seen) "token" 8 ≡ by_device "phone"
unfolding verify_token verify_session_token check_parts check_session Dict.has Dict.get
accepts_token = refl

verify_token-Proven_example : Proven plain "token" 8 seen "phone"
verify_token-Proven_example =
    verify_token-Proven plain ("master" ∷ []) seen "token" 8 "phone" accepts_token

-- The second use of a challenge is refused.
abbrev replay : List Act
replay = issues "c" none 1 ∷ consumes "c" "phone" 2 ∷ consumes "c" "phone" 3 ∷ []

accepted-issued_example : accepted plain "c" replay store ≤ issued plain "c" replay
unfolding Dict.get
accepted-issued_example = accepted-issued plain "c" replay store refl
