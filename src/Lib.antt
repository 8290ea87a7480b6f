-- ===== src/Lib.antt =====
-- A model of AgentEgo, a platform that runs language-model agents: channels bring messages to a control
-- plane, which limits their rate and hands them to agent workers; the ego layer may rewrite a message
-- before; a worker reasons by plans whose steps call tools, which a capability guard lets through; and
-- workflows script tools without a model.
--
-- The files and the code that they are about (paths from the root of the repository):
--   Base.antt and below: lists, maps, integers, JSON values and results, shared by the others.
--   Ego/CircuitBreaker.antt: packages/ego/src/circuit-breaker.ts. One function for each method; the
--     clock is an argument.
--   Gateway/RateLimiter.antt: packages/control-plane/src/gateway/rate-limiter.ts. A bucket holds
--     thousandths of a token as an integer.
--   Plan.antt and below: packages/agent-worker/src/reasoning/plan-execute-executor.ts over the types of
--     packages/core/src/schema/reasoning.ts. Levels: computeLevels; Parse: parsePlan; Retry: executeStep
--     and runStepWithRetries; Execute: executePlan and executeLevelParallel; Preserve:
--     preservePriorSuccesses.
--   Tools.antt: the types of packages/core/src/schema/capability.ts and
--     packages/agent-worker/src/tools/types.ts. Tools/Guard: PolicyCapabilityGuard of
--     packages/agent-worker/src/security/capability-guard.ts; Tools/Registry: LiveToolRegistry of
--     packages/agent-worker/src/tools/live-registry.ts.
--   Workflow.antt and below: packages/workflow/src/schema.ts (the steps) and
--     packages/workflow/src/engine.ts. Values: variables and conditions; Engine: the interpreter.
--   Bus.antt and below: packages/message-bus/src/in-process-bus.ts. An operation of the model is what runs
--     between two awaits; a history is a row of operations.
--   Scheduler.antt and below: packages/scheduler/src/scheduler.ts and types.ts. Running: the service with
--     the runs that are in flight.
--   Ego/States.antt: packages/core/src/adr/state.ts; Ego/Goals.antt: packages/ego/src/goal-store.ts, the
--     goals in memory.
--   Reasoning.antt: the types of a turn, of packages/core/src/schema/reasoning.ts,
--     packages/core/src/types/message.ts and packages/agent-worker/src/model/types.ts.
--   React.antt and below: packages/agent-worker/src/reasoning/react-executor.ts. Chunks: a stream; Calls:
--     the calls of tools; Loop: the steps and run. A call to the model, the guard or the sandbox takes a
--     state of the surroundings and returns the next one; an exception is a flow of its own. The loop
--     runs on as many rounds as the budget has steps.
--   Plan/Run.antt and below: the run of plan-execute-executor.ts. Turn: the planner, the replans, the
--     hand-overs and run; the loop goes by the replans that are left, so that it needs no fuel. A
--     relevance is a fraction.
--   Hybrid.antt and below: packages/agent-worker/src/reasoning/hybrid-reasoner.ts and
--     complexity-router.ts, over the two executors.
--   Ego/Layer.antt and below: packages/ego/src/layer.ts. Pipeline: processDetailed and runDeepPath from the
--     validated answer of the model on; a pipeline that the timeout overtakes ends in an operation of
--     its own.
--   Gateway/DeviceAuth.antt and below: packages/control-plane/src/gateway/device-auth.ts and auth.ts.
--   RuleRouter.antt and below: packages/control-plane/src/session/router.ts, with the rules of
--     packages/core/src/schema/routing.ts.
-- How the code is rendered. Objects that are mutated are records that each operation returns anew; the
-- steps of a plan, which levels and executor share, are a store that is addressed by position. Calls
-- to the surroundings (guard, sandbox, abort signal, matcher, tools) are arguments over a state of their
-- own, and a rejected promise is an answer that is none or an error. Loops are structural: computeLevels
-- by as many rounds as the plan has steps, since each round but the last places one, and retries by
-- their number. The workflow interpreter is structural in the step, and takes the limit of the call
-- depth for the fuel of entering functions.
--
-- Not modelled: trace logging and timestamps of records, the texts of prompts and of most error messages,
-- the rounding of floating-point numbers, the JSON parser (its result is an argument), and interleaving:
-- the steps of a parallel level of a plan are run in their order, and how the children of a parallel
-- workflow step interleave is an argument.
pub mod Base
pub mod Ego
pub mod Gateway
pub mod Plan
pub mod Tools
pub mod Workflow
pub mod Bus
pub mod Scheduler
pub mod Reasoning
pub mod React
pub mod Hybrid
pub mod RuleRouter
