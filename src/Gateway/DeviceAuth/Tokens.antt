-- ===== src/Gateway/DeviceAuth/Tokens.antt =====
-- What a session token proves.
use agent_ego.Base.{
  ℕ, ◌≤◌, ◌≡◌, ◌∙◌, ap, ◌++◌, refl, subst, true, List, [], ◌∷◌, some, String, str_eq, eq_iff, ltb,
  arith, Bool-cases, Option-cases, inl, inr, includes,
}
use agent_ego.Base.Dict
use agent_ego.Base.Dict.{Dict, get-delete}
use agent_ego.Base.Result.{ok, Result-cases}
use agent_ego.Reasoning.{join}
use agent_ego.Gateway.DeviceAuth.{
  DeviceAuthStore, Platform, payload, mint, check_session, check_parts, verify_session_token,
  by_device, verify_token,
}

-- What the encodings and the string functions of the platform do with the parts of a token: no
-- encoding has a dot, so that splitting undoes joining; and decoding undoes encoding.
pub record Encodes (p : Platform) (id nonce : String) (expires_at : ℕ) : Type 0 where
  pub split_mint :
      let parts = payload p id expires_at nonce in
      p.split (mint p id expires_at nonce) ≡ parts ++ p.hmac (join "." parts) ∷ []
  pub decoded_id : p.unb64 (p.b64 id) ≡ id
  pub decoded_expiry : p.unb64 (p.b64 (p.show expires_at)) ≡ p.show expires_at
  pub read_show : p.read_number (p.show expires_at) ≡ some expires_at
  pub reflexive : (mac : String) → p.same_mac mac mac ≡ true

-- What is known of a token that is accepted for a device.
pub record Proven (p : Platform) (token : String) (now : ℕ) (s : DeviceAuthStore) (id : String)
    : Type 0 where
  pub device_b64 : String
  pub expiry_b64 : String
  pub nonce : String
  pub mac : String
  pub expires_at : ℕ
  pub parts : p.split token ≡ "v1" ∷ device_b64 ∷ expiry_b64 ∷ nonce ∷ mac ∷ []
  pub signed :
      p.same_mac mac (p.hmac (join "." ("v1" ∷ device_b64 ∷ expiry_b64 ∷ nonce ∷ []))) ≡ true
  pub expiry : p.read_number (p.unb64 expiry_b64) ≡ some expires_at
  pub in_time : now ≤ expires_at
  pub device : p.unb64 device_b64 ≡ id
  pub enrolled : Dict.has id s.devices ≡ true

module _ (p : Platform) where
  check_session-ok :
      (d e : String) (now : ℕ) (s : DeviceAuthStore) (id : String)
      → check_session p d e now s ≡ ok id
      → (n : ℕ) × (p.read_number (p.unb64 e) ≡ some n)
        × (now ≤ n)
        × (p.unb64 d ≡ id)
        × (Dict.has id s.devices ≡ true)
  unfolding check_session
  check_session-ok d e now s id = elim (Option-cases (p.read_number (p.unb64 e))) [
    | inl f ↦ rw (f, check_session) (λ h. cc)
    | inr (n, f) ↦ elim (Bool-cases (ltb n now)) [
      | inl g ↦ rw (f, check_session, g) (λ h. cc)
      | inr g ↦ elim (Bool-cases (Dict.has (p.unb64 d) s.devices)) [
        | inl k ↦
            rw (f, check_session, g, k)
              (λ h.
                let same : p.unb64 d ≡ id = cc in
                (n, refl, ground arith, same, subst (λ i. Dict.has i s.devices ≡ true) same k))
        | inr k ↦ rw (f, check_session, g, k) (λ h. cc)
      ]
    ]
  ]

  check_parts-Proven :
      (token : String) (parts : List String) (now : ℕ) (s : DeviceAuthStore) (id : String)
      → p.split token ≡ parts
      → check_parts p parts now s ≡ ok id
      → Proven p token now s id
  unfolding check_parts
  check_parts-Proven token [] now s id t = λ h. cc
  check_parts-Proven token (a ∷ []) now s id t = λ h. cc
  check_parts-Proven token (a ∷ b ∷ []) now s id t = λ h. cc
  check_parts-Proven token (a ∷ b ∷ c ∷ []) now s id t = λ h. cc
  check_parts-Proven token (a ∷ b ∷ c ∷ d ∷ []) now s id t = λ h. cc
  check_parts-Proven token (a ∷ b ∷ c ∷ d ∷ e ∷ f ∷ rest) now s id t = λ h. cc
  check_parts-Proven token (v ∷ d ∷ e ∷ n ∷ mac ∷ []) now s id t =
      elim (Bool-cases (str_eq v "v1")) [
        | inr a ↦ rw a (λ h. cc)
        | inl a ↦ elim (Bool-cases (p.same_mac mac (p.hmac (join "." (v ∷ d ∷ e ∷ n ∷ []))))) [
          | inr b ↦ rw (a, b) (λ h. cc)
          | inl b ↦
              rw (a, b)
                (λ h.
                  let (x, r, i, k, g) = check_session-ok d e now s id h in
                  let version : v ≡ "v1" = (eq_iff v "v1").0 a in
                  record {
                    device_b64 = d;
                    expiry_b64 = e;
                    nonce = n;
                    mac = mac;
                    expires_at = x;
                    parts = subst (λ y. p.split token ≡ y ∷ d ∷ e ∷ n ∷ mac ∷ []) version t;
                    signed =
                        subst (λ y. p.same_mac mac (p.hmac (join "." (y ∷ d ∷ e ∷ n ∷ []))) ≡ true)
                          version b;
                    expiry = r;
                    in_time = i;
                    device = k;
                    enrolled = g;
                  })
        ]
      ]

  -- A token that the authentication accepts for a device has five parts, the first of them the version,
  -- the last a right signature of the others; its expiry has not passed, and the device that it names
  -- is enrolled.
  pub verify_token-Proven :
      (tokens : List String) (s : DeviceAuthStore) (token : String) (now : ℕ) (id : String)
      → verify_token p tokens (some s) token now ≡ by_device id
      → Proven p token now s id
  unfolding verify_token verify_session_token
  verify_token-Proven tokens s token now id = elim (Bool-cases (includes tokens token)) [
    | inl a ↦ rw (a, verify_token) (λ h. cc)
    | inr a ↦ elim (Result-cases (check_parts p (p.split token) now s)) [
      | inl (x, b) ↦ rw (a, verify_token, b) (λ h. cc)
      | inr (d, b) ↦
          rw (a, verify_token, b)
            (λ h.
              let same : d ≡ id = cc in
              check_parts-Proven token (p.split token) now s id refl (b ∙ ap ok same))
    ]
  ]
