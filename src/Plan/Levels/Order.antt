-- ===== src/Plan/Levels/Order.antt =====
-- The levels hold every step once, in an order that respects the dependencies.
use mathlib.Core.List.{Perm, flatten, perm_middle, append-nil}
use mathlib.Core.List.Perm
use agent_ego.Base.{
  All-filter, ℕ, zero, suc, ◌+◌, ◌≤◌, ◌<◌, ◌≡◌, ◌≢◌, refl, ap, Bool, true, false, List, [], ◌∷◌,
  ◌++◌, String, arith, length, filter, Bool-cases, All, ◌⊎◌, inl, inr,
}
use agent_ego.Plan.{PlanStep, Ref, number}
use agent_ego.Plan.Levels.{is_ready, is_blocked, ids, place_level, levels_from, compute_levels}

split-perm :
    (placed : List String) (rs : List Ref)
    → Perm (filter (is_ready placed) rs ++ filter (is_blocked placed) rs) rs
split-perm placed [] = Perm.nil
split-perm placed (r ∷ rs) = elim (Bool-cases (is_ready placed r)) [
  | inl e ↦ rw e (Perm.cons r (split-perm placed rs))
  | inr e ↦ rw e (Perm.trans (perm_middle _ _) (Perm.cons r (split-perm placed rs)))
]

length-blocked :
    (placed : List String) (rs : List Ref)
    → length (filter (is_ready placed) rs) + length (filter (is_blocked placed) rs) ≡ length rs
length-blocked placed [] = refl
length-blocked placed (r ∷ rs) = elim (Bool-cases (is_ready placed r)) [
  | inl e ↦ rw e (omega (arith, length-blocked placed rs))
  | inr e ↦ rw e (omega (arith, length-blocked placed rs))
]

place-perm :
    (remaining ready blocked : List Ref) (rest : List (List Ref))
    → Perm (ready ++ blocked) remaining
    → (ready ≢ [] → Perm (flatten rest) blocked)
    → Perm (flatten (place_level remaining ready rest)) remaining
unfolding flatten
place-perm remaining [] blocked rest h k = rw append-nil (Perm.refl remaining)
place-perm remaining (r ∷ ready) blocked rest h k =
    Perm.trans (Perm.append (Perm.refl (r ∷ ready)) (k (λ e. cc))) h

blocked-lt :
    (placed : List String) (rs : List Ref)
    → filter (is_ready placed) rs ≢ []
    → length (filter (is_blocked placed) rs) < length rs
blocked-lt placed rs h = go (filter (is_ready placed) rs) h (length-blocked placed rs)
  where
    go :
        (ready : List Ref)
        → ready ≢ []
        → length ready + length (filter (is_blocked placed) rs) ≡ length rs
        → length (filter (is_blocked placed) rs) < length rs
    go [] h e = absurd (h refl)
    go (r ∷ ready) h e = omega arith

levels_from-perm :
    (rounds : ℕ) (placed : List String) (rs : List Ref)
    → length rs ≤ rounds
    → Perm (flatten (levels_from rounds placed rs)) rs
unfolding levels_from flatten
levels_from-perm zero placed [] h = Perm.nil
levels_from-perm zero placed (r ∷ rs) h = absurd (omega arith)
levels_from-perm (suc rounds) placed [] h = Perm.nil
levels_from-perm (suc rounds) placed (r ∷ rs) h =
    let ready = filter (is_ready placed) (r ∷ rs) in
    let blocked = filter (is_blocked placed) (r ∷ rs) in
    place-perm (r ∷ rs) ready blocked (levels_from rounds (ids ready ++ placed) blocked)
      (split-perm placed (r ∷ rs))
      (λ some_ready.
        levels_from-perm rounds (ids ready ++ placed) blocked
          (omega (arith, blocked-lt placed (r ∷ rs) some_ready)))

length-number : (n : ℕ) (steps : List PlanStep) → length (number n steps) ≡ length steps
unfolding number
length-number n [] = refl
length-number n (s ∷ steps) = ap suc (length-number (suc n) steps)

-- The levels hold each step of the plan exactly once, and no round of the loop is missing: as many
-- rounds as there are steps are enough.
pub flatten-compute_levels-perm :
    (steps : List PlanStep) → Perm (flatten (compute_levels steps)) (number 0 steps)
unfolding compute_levels
flatten-compute_levels-perm steps =
    levels_from-perm (length steps) [] (number 0 steps) (omega (arith, length-number 0 steps))

-- Each level comes after the levels that it depends on, but for one: a last level none of whose
-- steps has all of its dependencies in earlier levels.
abbrev pub Layered : List String → List (List Ref) → Type 0
Layered placed [] = Unit
Layered placed (l ∷ ls) =
    (All (λ r. is_ready placed r ≡ true) l × Layered (ids l ++ placed) ls)
    ⊎ ((ls ≡ []) × All (λ r. is_ready placed r ≡ false) l)

pub All-filter_none {ℓ} :
    {A : Type ℓ} (p : A → Bool) (xs : List A) → filter p xs ≡ [] → All (λ x. p x ≡ false) xs
All-filter_none p [] h = tt
All-filter_none p (x ∷ xs) h = elim (Bool-cases (p x)) [
  | inl e ↦ absurd (cons_ne (rw e at h))
  | inr e ↦ (e, All-filter_none p xs (rw e at h))
]
  where
    cons_ne : (x ∷ filter p xs) ≡ [] → ⊥
    cons_ne e = cc

place-Layered :
    (placed : List String) (remaining ready : List Ref) (rest : List (List Ref))
    → All (λ r. is_ready placed r ≡ true) ready
    → (ready ≡ [] → All (λ r. is_ready placed r ≡ false) remaining)
    → Layered (ids ready ++ placed) rest
    → Layered placed (place_level remaining ready rest)
place-Layered placed remaining [] rest h k l = inr (refl, k refl)
place-Layered placed remaining (r ∷ ready) rest h k l = inl (h, l)

levels_from-Layered :
    (rounds : ℕ) (placed : List String) (rs : List Ref)
    → Layered placed (levels_from rounds placed rs)
unfolding levels_from
levels_from-Layered zero placed rs = tt
levels_from-Layered (suc rounds) placed [] = tt
levels_from-Layered (suc rounds) placed (r ∷ rs) =
    let ready = filter (is_ready placed) (r ∷ rs) in
    let blocked = filter (is_blocked placed) (r ∷ rs) in
    place-Layered placed (r ∷ rs) ready (levels_from rounds (ids ready ++ placed) blocked)
      (All-filter (is_ready placed) (r ∷ rs)) (All-filter_none (is_ready placed) (r ∷ rs))
      (levels_from-Layered rounds (ids ready ++ placed) blocked)

-- Every step of a level has all of its dependencies in earlier levels; only a last level may hold
-- other steps, and then none of its steps has (a cycle, or a dependency that no step has for id).
pub compute_levels-Layered : (steps : List PlanStep) → Layered [] (compute_levels steps)
unfolding compute_levels
compute_levels-Layered steps = levels_from-Layered (length steps) [] (number 0 steps)
