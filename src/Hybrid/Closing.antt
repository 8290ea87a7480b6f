-- ===== src/Hybrid/Closing.antt =====
-- A run of the chosen reasoner ends with one final event.
use agent_ego.Base.{
  ℕ, suc, ◌+◌, ◌≡◌, ◌≢◌, ◌⊎◌, refl, ap, sym, ◌∙◌, true, List, [], ◌∷◌, ◌++◌, map, Option, some,
  String, arith, inl, inr, append_assoc,
}
use agent_ego.Reasoning.{
  ReasoningMode, react, plan_execute, TerminationReason, hard_error, ReasoningBudget,
  MessageContent, PriorMessage,
}
use agent_ego.Plan.Run.{
  PlanEvent, progress, entry, spent, final, from_fallback, Ending, answered, delegated, crashed,
}
use agent_ego.Plan.Run.Turn
use agent_ego.Plan.Run.Events
use agent_ego.Plan.Run.Events.{Own, Handed}
use agent_ego.Plan.Run.Answers.{run-Fine}
use agent_ego.React.{
  ReactExecutorConfig, ReasoningEvent, step_event, delta_event, usage_event, final_event,
}
use agent_ego.React.Loop
use agent_ego.React.Rounds
use agent_ego.React.Ending.{run-Ended}
use agent_ego.Hybrid.{
  HybridConfig, HybridEnv, HybridContext, run_react, plan_env, has_returned, effective_mode, run,
}

-- The final events, of whichever reasoner.
unfoldable pub finals : List (PlanEvent ReasoningEvent) → ℕ
finals [] = 0
finals (final text reason ∷ es) = suc (finals es)
finals (from_fallback (final_event text reason) ∷ es) = suc (finals es)
finals (_ ∷ es) = finals es

finals-append :
    (es fs : List (PlanEvent ReasoningEvent)) → finals (es ++ fs) ≡ finals es + finals fs
unfolding finals
finals-append [] fs = omega arith
finals-append (final text reason ∷ es) fs = omega (arith, finals-append es fs)
finals-append (progress e ∷ es) fs = finals-append es fs
finals-append (entry e ∷ es) fs = finals-append es fs
finals-append (spent u ∷ es) fs = finals-append es fs
finals-append (from_fallback (final_event text reason) ∷ es) fs = omega (arith, finals-append es fs)
finals-append (from_fallback (step_event s) ∷ es) fs = finals-append es fs
finals-append (from_fallback (delta_event text) ∷ es) fs = finals-append es fs
finals-append (from_fallback (usage_event u) ∷ es) fs = finals-append es fs

finals-own : (es : List (PlanEvent ReasoningEvent)) → Events.finals es ≡ 0 → finals es ≡ 0
unfolding finals Events.finals
finals-own [] h = refl
finals-own (final text reason ∷ es) h = absurd (omega arith)
finals-own (progress e ∷ es) h = finals-own es h
finals-own (entry e ∷ es) h = finals-own es h
finals-own (spent u ∷ es) h = finals-own es h
finals-own (from_fallback e ∷ es) h = absurd (omega arith)

finals-react : (es : List ReasoningEvent) → finals (map from_fallback es) ≡ Rounds.finals es
unfolding finals Rounds.finals
finals-react [] = refl
finals-react (final_event text reason ∷ es) = ap suc (finals-react es)
finals-react (step_event s ∷ es) = finals-react es
finals-react (delta_event text ∷ es) = finals-react es
finals-react (usage_event u ∷ es) = finals-react es

-- A final event with a reason, whoever yields it.
pub data IsFinal (r : TerminationReason) : PlanEvent ReasoningEvent → Type 0 where
  of_plan : {text : String} → IsFinal r (final text (some r))
  of_react : {text : String} → IsFinal r (from_fallback (final_event text (some r)))

pub record Closed (es : List (PlanEvent ReasoningEvent)) : Type 0 where
  pub before : List (PlanEvent ReasoningEvent)
  pub end_event : PlanEvent ReasoningEvent
  pub reason : TerminationReason
  pub last : es ≡ before ++ end_event ∷ []
  pub is_final : IsFinal reason end_event
  pub quiet : finals before ≡ 0
  pub known : reason ≢ hard_error

map-append {ℓ κ} :
    {A : Type ℓ} {B : Type κ} (f : A → B) (xs ys : List A) → map f (xs ++ ys) ≡ map f xs ++ map f ys
map-append f [] ys = refl
map-append f (x ∷ xs) ys = ap (◌∷◌ (f x)) (map-append f xs ys)

Ending-cases : (e : Ending) → (e ≡ answered) ⊎ ((e ≡ delegated) ⊎ (e ≡ crashed))
Ending-cases answered = inl refl
Ending-cases delegated = inr (inl refl)
Ending-cases crashed = inr (inr refl)

pub Mode-cases : (m : ReasoningMode) → (m ≡ react) ⊎ (m ≡ plan_execute)
Mode-cases react = inl refl
Mode-cases plan_execute = inr refl

module _ (env : HybridEnv) where
  open env.react use {World}

  -- The events of the ReAct reasoner after some of the other one.
  react-Closed :
      (es : List (PlanEvent ReasoningEvent)) (config : ReactExecutorConfig)
      (prior : List PriorMessage)
      → (budget : Option ReasoningBudget) (content : MessageContent) (w : World) → finals es ≡ 0
      → (run_react env config prior budget content w).2 ≡ true
      → Closed (es ++ map from_fallback (run_react env config prior budget content w).1)
  react-Closed es config prior budget content w h returned =
      let st = (Loop.run env.react config budget prior content w).0 in
      let ended = run-Ended env.react config budget prior content w returned in
      let end_event = from_fallback (final_event st.final_text (some ended.reason)) in
      record {
        before = es ++ map from_fallback ended.before;
        end_event = end_event;
        reason = ended.reason;
        last = rw ended.last (
            ap (λ x. es ++ x) (map-append from_fallback ended.before _)
            ∙ sym (append_assoc es (map from_fallback ended.before) (end_event ∷ [])));
        is_final = of_react;
        quiet = omega (
          arith,
          h,
          ended.quiet,
          finals-react ended.before,
          finals-append es (map from_fallback ended.before),
        );
        known = ended.known;
      }

  Own→Closed :
      (config : HybridConfig) (ctx : HybridContext) (w : World)
      → let p = plan_env env config.react ctx.prior in
        Own p (Turn.run p config.plan_execute ctx.turn w)
        → Closed (Turn.run p config.plan_execute ctx.turn w).events
  Own→Closed config ctx w own = record {
    before = own.before;
    end_event = final own.text (some own.reason);
    reason = own.reason;
    last = own.last;
    is_final = of_plan;
    quiet = finals-own own.before own.quiet;
    known = elim own.done [ inl e ↦ rw e (λ n. cc) | inr d ↦ rw (d.0) (λ n. cc) ];
  }

  Handed→Closed :
      (config : HybridConfig) (ctx : HybridContext) (w : World)
      → let p = plan_env env config.react ctx.prior in
        Handed p (Turn.run p config.plan_execute ctx.turn w)
        → Closed (Turn.run p config.plan_execute ctx.turn w).events
  Handed→Closed config ctx w h = rw h.last (
      react-Closed h.before config.react ctx.prior h.budget h.content h.world
        (finals-own h.before h.quiet) h.returned)

  plan-Closed :
      (config : HybridConfig) (ctx : HybridContext) (w : World)
      → let r = Turn.run (plan_env env config.react ctx.prior) config.plan_execute ctx.turn w in
        has_returned r.ending ≡ true → Closed r.events
  plan-Closed config ctx w =
      let p = plan_env env config.react ctx.prior in
      let r = Turn.run p config.plan_execute ctx.turn w in
      let fine = run-Fine p config.plan_execute ctx.turn w in
      elim (Ending-cases r.ending) [
        | inl e ↦ λ h. Own→Closed config ctx w (fine.own e)
        | inr (inl e) ↦ λ h. Handed→Closed config ctx w (fine.handed e)
        | inr (inr e) ↦ rw e (λ h. cc)
      ]

  -- A turn of the hybrid reasoner that no exception ends yields one final event, as its last,
  -- whichever executor is chosen and also when the planning one hands over to the other; the event
  -- has a reason, which is never `hard_error`.
  pub run-Closed :
      (config : HybridConfig) (ctx : HybridContext) (w : World)
      → (run env config ctx w).returned ≡ true
      → Closed (run env config ctx w).events
  unfolding run finals
  run-Closed config ctx w = elim (Mode-cases (effective_mode env config ctx)) [
    | inl e ↦
        rw (e, run) (react-Closed [] config.react ctx.prior ctx.turn.budget ctx.turn.content w refl)
    | inr e ↦ rw (e, run) (plan-Closed config ctx w)
  ]
