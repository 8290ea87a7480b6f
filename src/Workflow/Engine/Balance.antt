-- ===== src/Workflow/Engine/Balance.antt =====
-- What every step leaves as it was: the frames below the innermost, the depth, the functions.
use agent_ego.Base.{
  ◌≡◌, refl, ◌∙◌, Bool, true, false, ◌&&◌, ◌||◌, List, [], ◌∷◌, Option, none, some, String, is_some,
  str_eq, if◌then◌else◌, inl, inr, Bool-cases,
}
use agent_ego.Base.Dict
use agent_ego.Base.Dict.{Dict}
use agent_ego.Workflow.{
  WorkflowStep, sequence, parallel, branch, try_, scope, Steps, no_steps, step_then, OptionalStep,
  absent, given, Kind,
}
use agent_ego.Workflow.Values.{Value, Frame, write_top}
use agent_ego.Workflow.Engine.{
  drop_top, ExecState, guarded, begin_step, finish_step, save, push, pop,
}

-- No `parallel` in the step.
unfoldable mutual
  pub is_sequential : WorkflowStep → Bool
  is_sequential (sequence id steps) = all_sequential steps
  is_sequential (parallel id steps) = false
  is_sequential (branch id condition yes_ no_) = is_sequential yes_ && optional_sequential no_
  is_sequential (try_ id body catch finally) =
      is_sequential body && (optional_sequential catch && optional_sequential finally)
  is_sequential (scope id body) = is_sequential body
  is_sequential _ = true

  pub all_sequential : Steps → Bool
  all_sequential no_steps = true
  all_sequential (step_then step steps) = is_sequential step && all_sequential steps

  pub optional_sequential : OptionalStep → Bool
  optional_sequential absent = true
  optional_sequential (given step) = is_sequential step

-- The functions of a workflow, none of which has a `parallel`.
abbrev pub SequentialFunctions : Dict WorkflowStep → Type 0
SequentialFunctions fs =
    (name : String) (body : WorkflowStep) → Dict.get name fs ≡ some body → is_sequential body ≡ true

abbrev pub is_cons {ℓ} : {A : Type ℓ} → List A → Bool
is_cons [] = false
is_cons (x ∷ xs) = true

pub drop-write_top :
    (name : String) (value : Value) (scopes : List Frame)
    → (drop_top (write_top name value scopes) ≡ drop_top scopes)
      × (is_cons (write_top name value scopes) ≡ is_cons scopes)
unfolding write_top
drop-write_top name value [] = (refl, refl)
drop-write_top name value (frame ∷ frames) = (refl, refl)

pub and-eq-true : (a b : Bool) → (a && b) ≡ true → (a ≡ true) × (b ≡ true)
and-eq-true true b e = (refl, e)
and-eq-true false b e = cc

module _ {W : Type 0} where
  -- A failure has a message and the id of a step, and there are none without a failure.
  pub record Coherent (st : ExecState W) : Type 0 where
    pub error : is_some st.error ≡ st.failed
    pub failed_at : is_some st.failed_at_step_id ≡ st.failed

  pub record Balanced (st out : ExecState W) : Type 0 where
    pub below : drop_top out.scopes ≡ drop_top st.scopes
    pub root : is_cons out.scopes ≡ is_cons st.scopes
    pub depth : out.call_depth ≡ st.call_depth
    pub limit : out.max_call_depth ≡ st.max_call_depth
    pub functions : out.functions ≡ st.functions
    pub coherent : Coherent st → Coherent out

  pub Balanced-refl : (st : ExecState W) → Balanced st st
  Balanced-refl st = record {
    below = refl;
    root = refl;
    depth = refl;
    limit = refl;
    functions = refl;
    coherent = λ c. c;
  }

  pub Balanced-trans : {a b c : ExecState W} → Balanced a b → Balanced b c → Balanced a c
  Balanced-trans p q = record {
    below = q.below ∙ p.below;
    root = q.root ∙ p.root;
    depth = q.depth ∙ p.depth;
    limit = q.limit ∙ p.limit;
    functions = q.functions ∙ p.functions;
    coherent = λ c. q.coherent (p.coherent c);
  }

  -- Whichever branch is taken.
  pub if-Balanced :
      (b : Bool) {st x y : ExecState W}
      → Balanced st x
      → Balanced st y
      → Balanced st (if b then x else y)
  if-Balanced true h k = h
  if-Balanced false h k = k

  finish-Balanced :
      (id : String) (kind : Kind) (st out : ExecState W) (thrown : Option String)
      → Balanced (begin_step id kind st) out
      → Balanced st (finish_step id kind (out, thrown))
  finish-Balanced id kind st out none b = record {
    below = b.below;
    root = b.root;
    depth = b.depth;
    limit = b.limit;
    functions = b.functions;
    coherent = λ c.
        let d = b.coherent (record { error = c.error; failed_at = c.failed_at }) in
        record { error = d.error; failed_at = d.failed_at };
  }
  finish-Balanced id kind st out (some m) b = record {
    below = b.below;
    root = b.root;
    depth = b.depth;
    limit = b.limit;
    functions = b.functions;
    coherent = λ c. record { error = refl; failed_at = refl };
  }

  pub guarded-Balanced :
      (id : String) (kind : Kind) (body : ExecState W → ExecState W × Option String)
      (st : ExecState W)
      → Balanced (begin_step id kind st) (body (begin_step id kind st)).0
      → Balanced st (guarded id kind body st)
  unfolding guarded
  guarded-Balanced id kind body st h = elim (Bool-cases (st.failed || st.returning)) [
    | inl e ↦ rw e (Balanced-refl st)
    | inr e ↦ rw e (finish-Balanced id kind st _ _ h)
  ]

  pub Balanced-scopes :
      (st : ExecState W) (scopes : List Frame)
      → drop_top scopes ≡ drop_top st.scopes
      → is_cons scopes ≡ is_cons st.scopes
      → Balanced st (record st { scopes = scopes })
  Balanced-scopes st scopes e f = record {
    below = e;
    root = f;
    depth = refl;
    limit = refl;
    functions = refl;
    coherent = λ c. record { error = c.error; failed_at = c.failed_at };
  }

  pub save-Balanced :
      (save_as : Option String) (value : Value) (st : ExecState W)
      → Balanced st (save save_as value st)
  unfolding save
  save-Balanced none value st = Balanced-refl st
  save-Balanced (some name) value st = elim (Bool-cases (str_eq name "")) [
    | inl e ↦ rw e (Balanced-refl st)
    | inr e ↦
        let (below, root) = drop-write_top name value st.scopes in
        rw e (Balanced-scopes st (write_top name value st.scopes) below root)
  ]

  -- What was run in a frame of its own leaves all of the frames.
  pub pop-Balanced :
      (frame : Frame) (st out : ExecState W)
      → Balanced (push frame st) out
      → ((pop out).scopes ≡ st.scopes) × Balanced st (pop out)
  pop-Balanced frame st out b = (
    b.below,
    record {
      below = rw b.below refl;
      root = rw b.below refl;
      depth = b.depth;
      limit = b.limit;
      functions = b.functions;
      coherent = λ c.
          let d = b.coherent (record { error = c.error; failed_at = c.failed_at }) in
          record { error = d.error; failed_at = d.failed_at };
    },
  )
