-- ===== src/Gateway/DeviceAuth.antt =====
-- packages/control-plane/src/gateway/device-auth.ts and auth.ts. The clock is the argument `now`, and
-- random values are arguments; the file of devices is I/O. The hash, the encodings and the string
-- functions of the platform are a parameter.
pub mod Challenges
pub mod Tokens
mod Tests
use agent_ego.Base.{
  ℕ, ◌+◌, Bool, true, false, not, ◌&&◌, ◌||◌, List, [], ◌∷◌, Option, none, some, String, ◌<>◌,
  or_else, ltb, leb, str_eq, includes, if◌then◌else◌,
}
use agent_ego.Base.Dict
use agent_ego.Base.Dict.{Dict}
use agent_ego.Base.Result.{Result, ok, err}
use agent_ego.Reasoning.{join}

-- `same_mac` compares what two hexadecimal texts encode; `read_number` is `none` for a text that is not
-- a finite number.
pub record Platform : Type 0 where
  pub is_key : String → Bool
  pub to_lower_case : String → String
  pub clean_name : String → String
  pub hmac : String → String
  pub same_mac : String → String → Bool
  pub b64 : String → String
  pub unb64 : String → String
  pub show : ℕ → String
  pub read_number : String → Option ℕ
  pub split : String → List String
  pub bearer : String → Option String

pub record DeviceRecord : Type 0 where
  pub device_id : String
  pub public_key_hex : String
  pub name : String
  pub enrolled_at : ℕ
  pub last_seen_at : Option ℕ

pub record ChallengeRecord : Type 0 where
  pub device_id : Option String
  pub expires_at : ℕ

pub record DeviceAuthStore : Type 0 where
  pub session_ttl_ms : ℕ
  pub challenge_ttl_ms : ℕ
  pub devices : Dict DeviceRecord
  pub challenges : Dict ChallengeRecord

pub data ChallengeError : Type 0 where
  unknown_challenge challenge_expired other_device not_enrolled : ChallengeError

pub data TokenError : Type 0 where
  malformed bad_signature expired device_revoked : TokenError

-- `gcChallenges`.
unfoldable pub gc_challenges : ℕ → Dict ChallengeRecord → Dict ChallengeRecord
gc_challenges now [] = []
gc_challenges now ((c, r) ∷ m) =
    let rest = gc_challenges now m in if ltb r.expires_at now then rest else (c, r) ∷ rest

-- An empty text is no device.
abbrev pub pin : Option String → Option String
pin none = none
pin (some d) = if str_eq d "" then none else some d

unfoldable pub issue_challenge : String → Option String → ℕ → DeviceAuthStore → DeviceAuthStore
issue_challenge challenge device_id now s = record s {
  challenges =
      Dict.set challenge
        (record { device_id = pin device_id; expires_at = now + s.challenge_ttl_ms })
        (gc_challenges now s.challenges);
}

-- `rec.deviceId && rec.deviceId !== deviceId`.
abbrev pub pinned_to_other : Option String → String → Bool
pinned_to_other none device_id = false
pinned_to_other (some d) device_id = not (str_eq d "") && not (str_eq d device_id)

-- The checks of a challenge that has been found.
unfoldable pub check_challenge :
    ChallengeRecord → String → ℕ → DeviceAuthStore → Result ChallengeError DeviceRecord
check_challenge r device_id now s =
    if ltb r.expires_at now
    then err challenge_expired
    else if pinned_to_other r.device_id device_id
    then err other_device
    else elim (Dict.get device_id s.devices) [ none ↦ err not_enrolled | some d ↦ ok d ]

-- The challenge is used up whatever the checks say.
unfoldable pub consume_challenge :
    String → String → ℕ → DeviceAuthStore → DeviceAuthStore × Result ChallengeError DeviceRecord
unfolding check_challenge
consume_challenge challenge device_id now s = elim (Dict.get challenge s.challenges) [
  | none ↦ (s, err unknown_challenge)
  | some r ↦ (
    record s { challenges = Dict.delete challenge s.challenges },
    check_challenge r device_id now s,
  )
]

unfoldable pub revoke : String → DeviceAuthStore → DeviceAuthStore × Bool
revoke device_id s =
    (record s { devices = Dict.delete device_id s.devices }, Dict.has device_id s.devices)

module _ (p : Platform) where
  unfoldable pub find_by_key : String → List DeviceRecord → Option DeviceRecord
  find_by_key key [] = none
  find_by_key key (d ∷ ds) =
      let rest = find_by_key key ds in
      if str_eq (p.to_lower_case d.public_key_hex) (p.to_lower_case key) then some d else rest

  -- `none` for a key of the wrong form.
  unfoldable pub enroll :
      (public_key_hex name fresh_id : String)
      → ℕ
      → DeviceAuthStore
      → Option (DeviceAuthStore × DeviceRecord)
  unfolding find_by_key
  enroll key name fresh_id now s =
      let fresh : DeviceRecord = record {
        device_id = fresh_id;
        public_key_hex = p.to_lower_case key;
        name = p.clean_name name;
        enrolled_at = now;
        last_seen_at = none;
      } in
      if not (p.is_key key) then none else elim (find_by_key key (Dict.values s.devices)) [
        | none ↦ some (record s { devices = Dict.set fresh_id fresh s.devices }, fresh)
        | some d ↦
            let seen : DeviceRecord = record d {
              name = p.clean_name name;
              last_seen_at = some now;
            } in
            some (record s { devices = Dict.set d.device_id seen s.devices }, seen)
      ]

  -- The four parts that are signed.
  abbrev pub payload : String → ℕ → String → List String
  payload device_id expires_at nonce =
      "v1" ∷ p.b64 device_id ∷ p.b64 (p.show expires_at) ∷ p.b64 nonce ∷ []

  abbrev pub mint : String → ℕ → String → String
  mint device_id expires_at nonce =
      let body = join "." (payload device_id expires_at nonce) in body <> "." <> p.hmac body

  -- `none` for a device that is not enrolled.
  unfoldable pub issue_session_token :
      (device_id nonce : String) → ℕ → DeviceAuthStore → Option (DeviceAuthStore × String × ℕ)
  issue_session_token device_id nonce now s = elim (Dict.get device_id s.devices) [
    | none ↦ none
    | some d ↦
        let seen = record s {
          devices = Dict.set device_id (record d { last_seen_at = some now }) s.devices;
        } in
        some (seen, mint device_id (now + s.session_ttl_ms) nonce, now + s.session_ttl_ms)
  ]

  -- The checks of a token whose signature is right.
  unfoldable pub check_session :
      (device_b64 expiry_b64 : String) → ℕ → DeviceAuthStore → Result TokenError String
  check_session device_b64 expiry_b64 now s = elim (p.read_number (p.unb64 expiry_b64)) [
    | none ↦ err expired
    | some expires_at ↦
        if ltb expires_at now
        then err expired
        else if Dict.has (p.unb64 device_b64) s.devices
        then ok (p.unb64 device_b64)
        else err device_revoked
  ]

  unfoldable pub check_parts : List String → ℕ → DeviceAuthStore → Result TokenError String
  unfolding check_session
  check_parts (v ∷ d ∷ e ∷ n ∷ mac ∷ []) now s =
      if not (str_eq v "v1")
      then err malformed
      else if p.same_mac mac (p.hmac (join "." (v ∷ d ∷ e ∷ n ∷ [])))
      then check_session d e now s
      else err bad_signature
  check_parts _ now s = err malformed

  unfoldable pub verify_session_token : String → ℕ → DeviceAuthStore → Result TokenError String
  unfolding check_parts
  verify_session_token token now s = check_parts (p.split token) now s

-- `AuthDecision`; `TokenAuth` tries the shared tokens first.
pub data AuthDecision : Type 0 where
  by_master : AuthDecision
  by_device : (device_id : String) → AuthDecision
  missing_header malformed_bearer invalid_token : AuthDecision

module _ (p : Platform) (tokens : List String) (secondary : Option DeviceAuthStore) where
  unfoldable pub verify_token : String → ℕ → AuthDecision
  verify_token token now = if includes tokens token then by_master else elim secondary [
    | none ↦ invalid_token
    | some s ↦ elim (verify_session_token p token now s) [
      | err problem ↦ invalid_token
      | ok device_id ↦ by_device device_id
    ]
  ]

  unfoldable pub verify_bearer : Option String → ℕ → AuthDecision
  unfolding verify_token
  verify_bearer none now = missing_header
  verify_bearer (some header) now =
      if str_eq header ""
      then missing_header
      else elim (p.bearer header) [ none ↦ malformed_bearer | some token ↦ verify_token token now ]
