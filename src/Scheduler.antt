-- ===== src/Scheduler.antt =====
-- packages/scheduler/src/scheduler.ts, over packages/scheduler/src/types.ts. `node-cron` is the test
-- `valid` of a cron expression and the moments at which it fires; a runner is the result that it
-- answers with. What `dispatch` does before its await, `begin_run`, and after it, `finish_run`, are
-- two operations, between which others may run.
pub mod Running
mod Tests
use Prim.Native.String.{◌++◌ as ◌<>◌}
use agent_ego.Base.{
  ℕ, ◌+◌, ◌-◌, Bool, true, false, not, List, [], ◌∷◌, Option, none, some, String, or_else, str_eq,
  is_some, if◌then◌else◌,
}
use agent_ego.Base.Dict
use agent_ego.Base.Dict.{Dict}

pub data CronTaskType : Type 0 where
  chat bash workflow : CronTaskType

abbrev type_name : CronTaskType → String
type_name chat = "chat"
type_name bash = "bash"
type_name workflow = "workflow"

pub record CronTask : Type 0 where
  pub id : String
  pub spec : String
  pub enabled : Bool
  pub description : Option String
  pub task_type : CronTaskType

pub record TaskRunResult : Type 0 where
  pub ok : Bool
  pub summary : Option String
  pub error : Option String

pub record TaskHistory : Type 0 where
  pub last_run_at : Option ℕ
  pub last_run_ms : Option ℕ
  pub last_error : Option String
  pub running : Bool
  pub run_count : ℕ

pub data Trigger : Type 0 where
  scheduled manual : Trigger

pub record SchedulerRunEvent : Type 0 where
  pub task_id : String
  pub task_type : CronTaskType
  pub trigger : Trigger
  pub started_at : ℕ
  pub finished_at : ℕ
  pub ok : Bool
  pub summary : Option String
  pub error : Option String

-- `jobs` are the ids of the tasks that are registered; `runners` tells which types have a runner.
pub record SchedulerService : Type 0 where
  pub tasks : Dict CronTask
  pub history : Dict TaskHistory
  pub jobs : List String
  pub runners : CronTaskType → Bool
  pub started : Bool

abbrev pub no_history : TaskHistory
no_history = record {
  last_run_at = none;
  last_run_ms = none;
  last_error = none;
  running = false;
  run_count = 0;
}

unfoldable pub add_tasks : List CronTask → SchedulerService → SchedulerService
add_tasks [] s = s
add_tasks (t ∷ ts) s =
    add_tasks ts
      (record s { tasks = Dict.set t.id t s.tasks; history = Dict.set t.id no_history s.history })

abbrev pub new : List CronTask → (CronTaskType → Bool) → SchedulerService
new tasks runners =
    add_tasks tasks
      (record { tasks = []; history = []; jobs = []; runners = runners; started = false })

pub data StartError : Type 0 where
  no_runner invalid_spec : String → StartError

-- The loop of `start`: an error leaves the jobs that are registered by then.
unfoldable pub register_jobs :
    (String → Bool) → List CronTask → SchedulerService → SchedulerService × Option StartError
register_jobs valid [] s = (s, none)
register_jobs valid (t ∷ ts) s =
    let skipped = register_jobs valid ts s in
    let registered = register_jobs valid ts (record s { jobs = t.id ∷ s.jobs }) in
    if not t.enabled
    then skipped
    else if not (s.runners t.task_type)
    then (s, some (no_runner t.id))
    else if not (valid t.spec)
    then (s, some (invalid_spec t.id))
    else registered

unfoldable pub start : (String → Bool) → SchedulerService → SchedulerService × Option StartError
unfolding register_jobs
start valid s =
    if s.started
    then (s, none)
    else register_jobs valid (Dict.values s.tasks) (record s { started = true })

-- A run that is in flight goes on.
unfoldable pub stop : SchedulerService → SchedulerService
stop s = if s.started then record s { started = false; jobs = [] } else s

unfoldable pub history_of : String → SchedulerService → TaskHistory
history_of id s = or_else (Dict.get id s.history) no_history

abbrev pub remember : String → TaskHistory → SchedulerService → SchedulerService
remember id h s = record s { history = Dict.set id h s.history }

-- `dispatch` up to its await; the flag says whether a run was begun. A missing history is made.
unfoldable pub begin_run : CronTask → SchedulerService → SchedulerService × Bool
begin_run task s =
    let h = history_of task.id s in
    if h.running
    then (remember task.id h s, false)
    else if not (s.runners task.task_type)
    then (
      remember task.id
          (record h {
            last_error = some ("no runner for type '" <> type_name task.task_type <> "'");
          })
          s,
      false,
    )
    else (remember task.id (record h { running = true }) s, true)

-- `dispatch` from the answer of the runner on, a thrown error being a failed result.
unfoldable pub finish_run :
    CronTask
    → Trigger
    → ℕ
    → ℕ
    → TaskRunResult
    → SchedulerService
    → SchedulerService × SchedulerRunEvent
finish_run task trigger started_at finished_at r s =
    let h = history_of task.id s in
    (
      remember task.id
          (record {
            last_run_at = some finished_at;
            last_run_ms = some (finished_at - started_at);
            last_error = if r.ok then none else some (or_else r.error "unknown error");
            running = false;
            run_count = h.run_count + 1;
          })
          s,
      record {
        task_id = task.id;
        task_type = task.task_type;
        trigger = trigger;
        started_at = started_at;
        finished_at = finished_at;
        ok = r.ok;
        summary = r.summary;
        error = r.error;
      },
    )

pub data RunNow : Type 0 where
  unknown_task already_running accepted : RunNow

-- `runNow`: what the caller is told, and whether a run was begun.
unfoldable pub run_now : String → SchedulerService → SchedulerService × RunNow × Bool
run_now id s = elim (Dict.get id s.tasks) [
  | none ↦ (s, unknown_task, false)
  | some task ↦
      let (after, begun) = begin_run task s in
      if (history_of id s).running then (s, already_running, false) else (after, accepted, begun)
]

pub data Status : Type 0 where
  idle running error disabled : Status

pub record CronTaskDescriptor : Type 0 where
  pub id : String
  pub spec : String
  pub status : Status
  pub last_run_at : Option ℕ
  pub last_error : Option String

-- An empty error text counts as none in the status.
abbrev is_error : Option String → Bool
is_error none = false
is_error (some e) = not (str_eq e "")

unfoldable pub describe : SchedulerService → CronTask → CronTaskDescriptor
unfolding history_of
describe s t =
    let h = history_of t.id s in
    record {
      id = t.id;
      spec = t.spec;
      status =
          if not t.enabled
          then disabled
          else if h.running
          then running
          else if is_error h.last_error
          then error
          else idle;
      last_run_at = h.last_run_at;
      last_error = h.last_error;
    }

unfoldable pub describe_all : SchedulerService → List CronTask → List CronTaskDescriptor
describe_all s [] = []
describe_all s (t ∷ ts) = describe s t ∷ describe_all s ts

abbrev pub list : SchedulerService → List CronTaskDescriptor
list s = describe_all s (Dict.values s.tasks)

abbrev pub get_descriptor : String → SchedulerService → Option CronTaskDescriptor
get_descriptor id s = elim (Dict.get id s.tasks) [ none ↦ none | some t ↦ some (describe s t) ]
