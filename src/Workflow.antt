-- ===== src/Workflow.antt =====
-- packages/workflow/src/schema.ts: the steps of a workflow. `undefined` is `none` for a value of the
-- type `unknown`, and an object of arguments is its list of entries.
pub mod Values
pub mod Engine
use agent_ego.Base.{String, List, Option}
use agent_ego.Base.Dict.{Dict}
use agent_ego.Base.Json.{Json}

mutual
  pub data WorkflowStep : Type 0 where
    tool_call :
        (id tool : String) (args : List (String × Json)) (save_as : Option String) → WorkflowStep
    set_var : (id name : String) (value : Option Json) → WorkflowStep
    sequence : (id : String) (steps : Steps) → WorkflowStep
    parallel : (id : String) (steps : Steps) → WorkflowStep
    branch :
        (id : String) (condition : Option Json) (when_true : WorkflowStep)
        (when_false : OptionalStep)
        → WorkflowStep
    call :
        (id function : String) (args : Option (List (String × Json))) (save_as : Option String)
        → WorkflowStep
    return_ : (id : String) (value : Option Json) → WorkflowStep
    try_ : (id : String) (body : WorkflowStep) (catch finally : OptionalStep) → WorkflowStep
    scope : (id : String) (body : WorkflowStep) → WorkflowStep

  pub data Steps : Type 0 where
    no_steps : Steps
    step_then : WorkflowStep → Steps → Steps

  pub data OptionalStep : Type 0 where
    absent : OptionalStep
    given : WorkflowStep → OptionalStep

-- The `kind` of a step, as the events show it.
pub data Kind : Type 0 where
  tool_call_kind set_var_kind sequence_kind parallel_kind branch_kind : Kind
  call_kind return_kind try_kind scope_kind : Kind

pub record Workflow : Type 0 where
  pub id : String
  pub name : Option String
  pub version : String
  pub entry : WorkflowStep
  pub functions : Dict WorkflowStep
