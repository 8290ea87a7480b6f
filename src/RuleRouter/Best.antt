-- ===== src/RuleRouter/Best.antt =====
-- Which rule a message takes.
use mathlib.Core.List.{Memᴰ}
use agent_ego.Base.{
  ◌≡◌, refl, sym, ◌∙◌, subst, Bool, true, false, not, List, [], ◌∷◌, ◌++◌, none, some, String,
  arith, All, All-map, All-filter_keep, str_eq, filter, Bool-cases, Option-cases, inl, inr,
}
use agent_ego.Base.Int.{ℤ, pos, negsuc}
use agent_ego.RuleRouter.{
  at_most, RoutingRule, Incoming, RouteDecision, RouterEnv, insert, sort, remove_rule, add_rule,
  rule_matches, first_matching_rule, route,
}

at_most_refl : (a : ℤ) → at_most a a ≡ true
at_most_refl (pos a) = ground arith
at_most_refl (negsuc a) = ground arith

at_most_trans : (a b c : ℤ) → at_most a b ≡ true → at_most b c ≡ true → at_most a c ≡ true
at_most_trans (pos a) (pos b) (pos c) h k = ground arith
at_most_trans (pos a) (pos b) (negsuc c) h k = cc
at_most_trans (pos a) (negsuc b) c h k = cc
at_most_trans (negsuc a) (pos b) (pos c) h k = refl
at_most_trans (negsuc a) (pos b) (negsuc c) h k = cc
at_most_trans (negsuc a) (negsuc b) (pos c) h k = refl
at_most_trans (negsuc a) (negsuc b) (negsuc c) h k = ground arith

at_most_total : (a b : ℤ) → at_most a b ≡ false → at_most b a ≡ true
at_most_total (pos a) (pos b) h = ground arith
at_most_total (pos a) (negsuc b) h = refl
at_most_total (negsuc a) (pos b) h = cc
at_most_total (negsuc a) (negsuc b) h = ground arith

-- Higher priorities first.
pub IsSorted : List RoutingRule → Type 0
IsSorted [] = Unit
IsSorted (r ∷ rs) = All (λ q. at_most q.priority r.priority ≡ true) rs × IsSorted rs

insert-All :
    (P : RoutingRule → Type 0) (r : RoutingRule) (qs : List RoutingRule)
    → P r
    → All P qs
    → All P (insert r qs)
unfolding insert
insert-All P r [] h k = (h, tt)
insert-All P r (q ∷ qs) h (k, ks) = elim (Bool-cases (at_most q.priority r.priority)) [
  | inl e ↦ rw e (h, (k, ks))
  | inr e ↦ rw e (k, insert-All P r qs h ks)
]

insert-IsSorted : (r : RoutingRule) (qs : List RoutingRule) → IsSorted qs → IsSorted (insert r qs)
unfolding insert IsSorted
insert-IsSorted r [] h = (tt, tt)
insert-IsSorted r (q ∷ qs) (h, hs) = elim (Bool-cases (at_most q.priority r.priority)) [
  | inl e ↦ rw e (
    (
      e,
      All-map (λ x. at_most x.priority q.priority ≡ true)
          (λ x. at_most x.priority r.priority ≡ true)
          (λ x k. at_most_trans x.priority q.priority r.priority k e) qs h,
    ),
    (h, hs),
  )
  | inr e ↦ rw e (
    insert-All (λ x. at_most x.priority q.priority ≡ true) r qs
        (at_most_total q.priority r.priority e) h,
    insert-IsSorted r qs hs,
  )
]

sort-IsSorted : (rs : List RoutingRule) → IsSorted (sort rs)
unfolding sort IsSorted
sort-IsSorted [] = tt
sort-IsSorted (r ∷ rs) = insert-IsSorted r (sort rs) (sort-IsSorted rs)

filter-IsSorted :
    (p : RoutingRule → Bool) (rs : List RoutingRule) → IsSorted rs → IsSorted (filter p rs)
unfolding IsSorted
filter-IsSorted p [] h = tt
filter-IsSorted p (r ∷ rs) (h, hs) = elim (Bool-cases (p r)) [
  | inl e ↦
      rw e (
        All-filter_keep (λ q. at_most q.priority r.priority ≡ true) p rs h,
        filter-IsSorted p rs hs,
      )
  | inr e ↦ rw e (filter-IsSorted p rs hs)
]

-- What is done to the rules of a router.
pub data Change : Type 0 where
  adds : RoutingRule → Change
  removes : (rule_id : String) → Change

unfoldable pub changed : List Change → List RoutingRule → List RoutingRule
changed [] rules = rules
changed (adds r ∷ cs) rules = changed cs (add_rule r rules)
changed (removes i ∷ cs) rules = changed cs (remove_rule i rules)

changed-IsSorted :
    (cs : List Change) (rules : List RoutingRule) → IsSorted rules → IsSorted (changed cs rules)
unfolding changed add_rule remove_rule
changed-IsSorted [] rules h = h
changed-IsSorted (adds r ∷ cs) rules h =
    changed-IsSorted cs (add_rule r rules) (sort-IsSorted (remove_rule r.id rules ++ r ∷ []))
changed-IsSorted (removes i ∷ cs) rules h =
    changed-IsSorted cs (remove_rule i rules) (filter-IsSorted (λ r. not (str_eq r.id i)) rules h)

module _ (env : RouterEnv) (default_agent_id : String) where
  open env use {World}

  -- A decision is the one of a matching rule that no matching rule has priority over, or the default
  -- one, where no rule matches.
  pub data Best (rules : List RoutingRule) (msg : Incoming) (d : RouteDecision) : Type 0 where
    by_rule :
        (r : RoutingRule)
        → Memᴰ r rules
        → rule_matches env r msg ≡ true
        → All (λ q. rule_matches env q msg ≡ true → at_most q.priority r.priority ≡ true) rules
        → d.agent_id ≡ r.agent_id
        → d.priority ≡ r.priority
        → Best rules msg d
    by_default :
        All (λ q. rule_matches env q msg ≡ false) rules
        → d.agent_id ≡ default_agent_id
        → d.priority ≡ pos 0
        → Best rules msg d

  first_matching_rule-here :
      (q : RoutingRule) (qs : List RoutingRule) (msg : Incoming)
      → rule_matches env q msg ≡ true
      → first_matching_rule env (q ∷ qs) msg ≡ some q
  unfolding first_matching_rule
  first_matching_rule-here q qs msg e = rw e refl

  first_matching_rule-later :
      (q : RoutingRule) (qs : List RoutingRule) (msg : Incoming)
      → rule_matches env q msg ≡ false
      → first_matching_rule env (q ∷ qs) msg ≡ first_matching_rule env qs msg
  unfolding first_matching_rule
  first_matching_rule-later q qs msg e = rw e refl

  -- `r` stands among the rules, matches, and is not below another one that does.
  abbrev Leads : List RoutingRule → Incoming → RoutingRule → Type 0
  Leads rules msg r =
      Memᴰ r rules
      × (rule_matches env r msg ≡ true)
      × All (λ q. rule_matches env q msg ≡ true → at_most q.priority r.priority ≡ true) rules

  first_matching_rule-Leads :
      (rules : List RoutingRule) (msg : Incoming) (r : RoutingRule)
      → IsSorted rules
      → first_matching_rule env rules msg ≡ some r
      → Leads rules msg r
  unfolding IsSorted first_matching_rule
  first_matching_rule-Leads [] msg r s h = cc
  first_matching_rule-Leads (q ∷ qs) msg r (s, ss) h = elim (Bool-cases (rule_matches env q msg)) [
    | inl e ↦
        let found : some q ≡ some r = sym (first_matching_rule-here q qs msg e) ∙ h in
        let same : q ≡ r = cc in
        let below =
          All-map (λ y. at_most y.priority q.priority ≡ true)
            (λ y. rule_matches env y msg ≡ true → at_most y.priority q.priority ≡ true) (λ y k m. k)
            qs s in
        subst (Leads (q ∷ qs) msg) same (Memᴰ.head refl, e, ((λ m. at_most_refl q.priority), below))
    | inr e ↦
        let (mem, matching, best) =
          first_matching_rule-Leads qs msg r ss (sym (first_matching_rule-later q qs msg e) ∙ h) in
        (Memᴰ.tail mem, matching, ((λ m. cc), best))
  ]

  first_matching_rule-none :
      (rules : List RoutingRule) (msg : Incoming)
      → first_matching_rule env rules msg ≡ none
      → All (λ q. rule_matches env q msg ≡ false) rules
  unfolding first_matching_rule
  first_matching_rule-none [] msg = λ h. tt
  first_matching_rule-none (q ∷ qs) msg = elim (Bool-cases (rule_matches env q msg)) [
    | inl e ↦ rw e (λ h. cc)
    | inr e ↦ rw e (λ h. (refl, first_matching_rule-none qs msg h))
  ]

  -- After any additions and removals of rules, a message is routed by a matching rule that no matching
  -- rule has priority over; the default agent, with priority 0, takes it only where no rule matches.
  pub route-Best :
      (cs : List Change) (msg : Incoming) (w : World)
      → Best (changed cs []) msg (route env default_agent_id (changed cs []) msg w).1
  unfolding route IsSorted
  route-Best cs msg w =
      let rules = changed cs [] in
      elim (Option-cases (first_matching_rule env rules msg)) [
        | inl e ↦ rw (e, route) (by_default (first_matching_rule-none rules msg e) refl refl)
        | inr (r, e) ↦
            let (mem, matching, best) =
              first_matching_rule-Leads rules msg r (changed-IsSorted cs [] tt) e in
            rw (e, route) (by_rule r mem matching best refl refl)
      ]
