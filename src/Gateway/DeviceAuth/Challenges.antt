-- ===== src/Gateway/DeviceAuth/Challenges.antt =====
-- A challenge is good for one use.
use agent_ego.Base.{
  ℕ, ◌+◌, ◌≤◌, ◌≡◌, refl, subst, Bool, true, false, List, [], ◌∷◌, Option, none, some, String,
  str_eq, eq_iff, arith, if◌then◌else◌, Bool-cases, Option-cases, inl, inr, is_some,
}
use agent_ego.Base.Dict
use agent_ego.Base.Dict.{Dict, get-set, get-delete, str_eq_refl}
use agent_ego.Base.Result.{Result, ok, err}
use agent_ego.Gateway.DeviceAuth.{
  ChallengeRecord, DeviceAuthStore, DeviceRecord, gc_challenges, issue_challenge, check_challenge,
  consume_challenge, revoke, Platform, find_by_key, enroll,
}

-- What a client can make the store do to its challenges; an enrolment of a wrong key changes nothing.
pub data Act : Type 0 where
  issues : (challenge : String) (device_id : Option String) (now : ℕ) → Act
  consumes : (challenge device_id : String) (now : ℕ) → Act
  revokes : (device_id : String) → Act
  enrolls : (public_key_hex name fresh_id : String) (now : ℕ) → Act

abbrev pub is_ok {ℓ κ} : {E : Type ℓ} {A : Type κ} → Result E A → Bool
is_ok (ok a) = true
is_ok (err e) = false

abbrev count : Bool → ℕ
count b = if b then 1 else 0

abbrev enrolled : Option (DeviceAuthStore × DeviceRecord) → DeviceAuthStore → DeviceAuthStore
enrolled none s = s
enrolled (some r) s = r.0

count-le : (b : Bool) → count b ≤ 1
count-le true = omega arith
count-le false = omega arith

module _ (p : Platform) (c : String) where
  -- How often the challenge `c` is issued, and how often it is consumed with success.
  pub issued : List Act → ℕ
  issued [] = 0
  issued (issues d pinned now ∷ acts) = count (str_eq d c) + issued acts
  issued (consumes d device_id now ∷ acts) = issued acts
  issued (revokes device_id ∷ acts) = issued acts
  issued (enrolls key name fresh_id now ∷ acts) = issued acts

  pub accepted : List Act → DeviceAuthStore → ℕ
  accepted [] s = 0
  accepted (issues d pinned now ∷ acts) s = accepted acts (issue_challenge d pinned now s)
  accepted (consumes d device_id now ∷ acts) s =
      let r = consume_challenge d device_id now s in
      let rest = accepted acts r.0 in (if str_eq d c then count (is_ok r.1) else 0) + rest
  accepted (revokes device_id ∷ acts) s = accepted acts (revoke device_id s).0
  accepted (enrolls key name fresh_id now ∷ acts) s =
      accepted acts (enrolled (enroll p key name fresh_id now s) s)

  held : DeviceAuthStore → ℕ
  held s = count (is_some (Dict.get c s.challenges))

  gc-held :
      (now : ℕ) (m : Dict ChallengeRecord)
      → count (is_some (Dict.get c (gc_challenges now m))) ≤ count (is_some (Dict.get c m))
  unfolding gc_challenges Dict.get
  gc-held now [] = omega arith
  gc-held now ((d, r) ∷ m) = ground (arith, gc-held now m)

  issue-held :
      (d : String) (pinned : Option String) (now : ℕ) (s : DeviceAuthStore)
      → held (issue_challenge d pinned now s) ≤ count (str_eq d c) + held s
  unfolding held issue_challenge
  issue-held d pinned now s = elim (Bool-cases (str_eq d c)) [
    | inl e ↦ rw (get-set d c _ (gc_challenges now s.challenges), e) (omega arith)
    | inr e ↦
        rw (get-set d c _ (gc_challenges now s.challenges), e)
          (omega (arith, gc-held now s.challenges))
  ]

  consume-held :
      (d device_id : String) (now : ℕ) (s : DeviceAuthStore)
      → let r = consume_challenge d device_id now s in
        (if str_eq d c then count (is_ok r.1) else 0) + held r.0 ≤ held s
  unfolding held consume_challenge
  consume-held d device_id now s = elim (Option-cases (Dict.get d s.challenges)) [
    | inl e ↦ elim (Bool-cases (str_eq d c)) [
      | inl f ↦ rw (e, f, consume_challenge) (omega arith)
      | inr f ↦ rw (e, f, consume_challenge) (omega arith)
    ]
    | inr (r, e) ↦ elim (Bool-cases (str_eq d c)) [
      | inl f ↦
          let here : Dict.get c s.challenges ≡ some r =
            subst (λ k. Dict.get k s.challenges ≡ some r) ((eq_iff d c).0 f) e in
          rw (e, f, consume_challenge, get-delete d c s.challenges, f, here)
            (omega (arith, count-le (is_ok (check_challenge r device_id now s))))
      | inr f ↦ rw (e, f, consume_challenge, get-delete d c s.challenges, f) (omega arith)
    ]
  ]

  enroll-held :
      (key name fresh_id : String) (now : ℕ) (s : DeviceAuthStore)
      → held (enrolled (enroll p key name fresh_id now s) s) ≡ held s
  unfolding held enroll
  enroll-held key name fresh_id now s = elim (Bool-cases (p.is_key key)) [
    | inr e ↦ rw (e, enroll) refl
    | inl e ↦ elim (Option-cases (find_by_key p key (Dict.values s.devices))) [
      | inl f ↦ rw (e, f, enroll) refl
      | inr (d, f) ↦ rw (e, f, enroll) refl
    ]
  ]

  accepted-held : (acts : List Act) (s : DeviceAuthStore) → accepted acts s ≤ issued acts + held s
  unfolding accepted issued revoke held
  accepted-held [] s = omega arith
  accepted-held (issues d pinned now ∷ acts) s =
      omega (arith, accepted-held acts (issue_challenge d pinned now s), issue-held d pinned now s)
  accepted-held (consumes d device_id now ∷ acts) s = omega (
    arith,
    accepted-held acts (consume_challenge d device_id now s).0,
    consume-held d device_id now s,
  )
  accepted-held (revokes device_id ∷ acts) s = accepted-held acts (revoke device_id s).0
  accepted-held (enrolls key name fresh_id now ∷ acts) s =
      let next = enrolled (enroll p key name fresh_id now s) s in
      omega (arith, accepted-held acts next, enroll-held key name fresh_id now s)

  -- Whatever clients do, in any order and at any times: a challenge that the store does not hold yet is
  -- consumed with success at most as often as it is issued, so that an answer to it cannot be replayed.
  pub accepted-issued :
      (acts : List Act) (s : DeviceAuthStore)
      → Dict.get c s.challenges ≡ none
      → accepted acts s ≤ issued acts
  unfolding held
  accepted-issued acts s h =
      let none_held : held s ≡ 0 = rw h refl in omega (arith, accepted-held acts s, none_held)
