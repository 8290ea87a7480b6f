-- ===== src/Bus/Batches.antt =====
-- Offsets and batches: a batch follows what was taken before.
use agent_ego.Base.{
  append-nil, ℕ, zero, suc, ◌+◌, ◌≤◌, ◌≡◌, refl, sym, ap, ◌∙◌, List, [], ◌∷◌, ◌++◌, String, arith,
  str_eq, or_else, take, drop, length, if◌then◌else◌, length-append,
}
use agent_ego.Base.Dict
use agent_ego.Base.Dict.{Dict, has, get-set, str_eq_refl}
use agent_ego.Bus.{BusEntry, SubjectBuffer, InProcessBus, buffer, put}

module _ {M : Type 0} where
  abbrev pub offset_in : String → SubjectBuffer M → ℕ
  offset_in group buf = or_else (Dict.get group buf.offsets) 0

  unfoldable pub entries_of : String → InProcessBus M → List (BusEntry M)
  entries_of subject b = (buffer subject b).entries

  unfoldable pub offset_of : String → String → InProcessBus M → ℕ
  offset_of subject group b = offset_in group (buffer subject b)

  pub buffer-put :
      (s t : String) (buf : SubjectBuffer M) (b : InProcessBus M)
      → buffer s (put t buf b) ≡ (if str_eq t s then buf else buffer s b)
  unfolding buffer
  buffer-put s t buf b = ground (arith, get-set t s buf b.subjects)

  -- From one buffer to a later one in which `out` has been handed to the group.
  pub record Advances (group : String) (a c : SubjectBuffer M) (out : List (BusEntry M))
      : Type 0 where
    pub bound : offset_in group a ≤ length a.entries → offset_in group c ≤ length c.entries
    pub log :
        offset_in group a ≤ length a.entries
        → take (offset_in group c) c.entries ≡ take (offset_in group a) a.entries ++ out

  pub take-append_le :
      (n : ℕ) (xs ys : List (BusEntry M)) → n ≤ length xs → take n (xs ++ ys) ≡ take n xs
  take-append_le zero xs ys h = refl
  take-append_le (suc n) [] ys h = absurd (omega arith)
  take-append_le (suc n) (x ∷ xs) ys h = ap (◌∷◌ x) (take-append_le n xs ys (omega arith))

  -- A batch follows what was taken before.
  pub take-batch :
      (o c : ℕ) (xs : List (BusEntry M))
      → o ≤ length xs
      → (take (o + length (take c (drop o xs))) xs ≡ take o xs ++ take c (drop o xs))
        × (o + length (take c (drop o xs)) ≤ length xs)
  take-batch zero zero xs h = (refl, omega arith)
  take-batch zero (suc c) [] h = (refl, omega arith)
  take-batch zero (suc c) (x ∷ xs) h =
      let (e, l) = take-batch zero c xs (omega arith) in
      let shift : 0 + suc (length (take c xs)) ≡ suc (0 + length (take c xs)) = omega arith in
      rw shift (ap (◌∷◌ x) e, omega (arith, l))
  take-batch (suc o) c [] h = absurd (omega arith)
  take-batch (suc o) c (x ∷ xs) h =
      let (e, l) = take-batch o c xs (omega arith) in
      let shift : suc o + length (take c (drop o xs)) ≡ suc (o + length (take c (drop o xs))) =
        omega arith in
      rw shift (ap (◌∷◌ x) e, omega (arith, l))

  pub Advances-same : (group : String) (a : SubjectBuffer M) → Advances group a a []
  Advances-same group a = record { bound = λ h. h; log = λ h. sym (append-nil _) }

  -- More entries, with the offset of the group as it was.
  pub Advances-append :
      (group : String) (a c : SubjectBuffer M) (more : List (BusEntry M))
      → c.entries ≡ a.entries ++ more
      → offset_in group c ≡ offset_in group a
      → Advances group a c []
  Advances-append group a c more e f = record {
    bound = λ h. rw (e, f) (omega (arith, length-append a.entries more, h));
    log = λ h. rw (e, f) (take-append_le (offset_in group a) a.entries more h ∙ sym (append-nil _));
  }

  pub Advances-batch :
      (group : String) (a c : SubjectBuffer M) (n : ℕ)
      → c.entries ≡ a.entries
      → offset_in group c ≡ offset_in group a + length (take n (drop (offset_in group a) a.entries))
      → Advances group a c (take n (drop (offset_in group a) a.entries))
  Advances-batch group a c n e f = record {
    bound = λ h. rw (e, f) (take-batch (offset_in group a) n a.entries h).1;
    log = λ h. rw (e, f) (take-batch (offset_in group a) n a.entries h).0;
  }
