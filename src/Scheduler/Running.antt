-- ===== src/Scheduler/Running.antt =====
-- Single concurrency: which runs are in flight together.
use agent_ego.Base.{
  ℕ, ◌+◌, ◌≡◌, refl, subst, ◌∙◌, Bool, true, false, not, List, [], ◌∷◌, Option, none, some, String,
  arith, str_eq, eq_iff, includes, if◌then◌else◌, Bool-cases, Option-cases, inl, inr,
}
use agent_ego.Base.Dict
use agent_ego.Base.Dict.{Dict, get-set, str_eq_refl}
use agent_ego.Scheduler.{
  CronTask, CronTaskType, TaskRunResult, TaskHistory, Trigger, SchedulerService, new, add_tasks,
  no_history, register_jobs, start, stop, history_of, remember, begin_run, finish_run, run_now,
}

-- The service and the ids of the tasks whose runs are awaited.
pub record System : Type 0 where
  pub service : SchedulerService
  pub in_flight : List String

pub data Event : Type 0 where
  start_event : (valid : String → Bool) → Event
  stop_event : Event
  fire : (task : CronTask) → Event
  run_now_event : (id : String) → Event
  answer :
      (task : CronTask) (trigger : Trigger) (started_at finished_at : ℕ) (result : TaskRunResult)
      → Event

unfoldable pub remove : String → List String → List String
remove id [] = []
remove id (j ∷ js) = if str_eq j id then js else j ∷ remove id js

unfoldable pub occurrences : String → List String → ℕ
occurrences id [] = 0
occurrences id (j ∷ js) = (if str_eq j id then 1 else 0) + occurrences id js

abbrev pub with_run : String → SchedulerService × Bool → List String → System
with_run id (s, begun) flight = record {
  service = s;
  in_flight = if begun then id ∷ flight else flight;
}

-- The id under which the run that `runNow` begins is recorded.
abbrev pub task_id_of : Option CronTask → String → String
task_id_of none id = id
task_id_of (some task) id = task.id

-- A runner answers only a run that is in flight.
unfoldable pub happen : Event → System → System
unfolding start stop begin_run run_now finish_run
happen (start_event valid) x = record x { service = (start valid x.service).0 }
happen stop_event x = record x { service = stop x.service }
happen (fire task) x = with_run task.id (begin_run task x.service) x.in_flight
happen (run_now_event id) x =
    let (s, told, begun) = run_now id x.service in
    with_run (task_id_of (Dict.get id x.service.tasks) id) (s, begun) x.in_flight
happen (answer task trigger started_at finished_at result) x =
    if includes x.in_flight task.id
    then record {
      service = (finish_run task trigger started_at finished_at result x.service).0;
      in_flight = remove task.id x.in_flight;
    }
    else x

pub happen_all : List Event → System → System
happen_all [] x = x
happen_all (e ∷ es) x = happen_all es (happen e x)

-- As many runs of a task are in flight as its history says: one or none.
abbrev pub Single : SchedulerService → List String → Type 0
Single s flight =
    (id : String) → occurrences id flight ≡ (if (history_of id s).running then 1 else 0)

history_of-remember :
    (id j : String) (h : TaskHistory) (s : SchedulerService)
    → history_of j (remember id h s) ≡ (if str_eq id j then h else history_of j s)
unfolding history_of
history_of-remember id j h s = ground (arith, get-set id j h s.history)

occurrences-remove :
    (id j : String) (flight : List String)
    → includes flight id ≡ true
    → occurrences j (remove id flight) + (if str_eq id j then 1 else 0) ≡ occurrences j flight
unfolding occurrences remove
occurrences-remove id j [] h = cc
occurrences-remove id j (k ∷ flight) h =
    ground (arith, occurrences-remove id j flight, eq_iff k id, eq_iff k j, eq_iff id j)

one_if : Bool → ℕ
one_if b = if b then 1 else 0

-- A write to one history, with the runs in flight that it calls for.
remember-Single :
    (id : String) (h : TaskHistory) (s : SchedulerService) (flight next : List String)
    → Single s flight
    → occurrences id next ≡ (if h.running then 1 else 0)
    → ((j : String) → str_eq id j ≡ false → occurrences j next ≡ occurrences j flight)
    → Single (remember id h s) next
remember-Single id h s flight next v here there j = elim (Bool-cases (str_eq id j)) [
  | inl e ↦
      let same : id ≡ j = (eq_iff id j).0 e in
      rw (history_of-remember id j h s, e)
        (subst (λ k. occurrences k next ≡ (if h.running then 1 else 0)) same here)
  | inr e ↦ rw (history_of-remember id j h s, e) (there j e ∙ v j)
]

keep-Single :
    (id : String) (h : TaskHistory) (s : SchedulerService) (flight : List String)
    → h.running ≡ (history_of id s).running
    → Single s flight
    → Single (remember id h s) flight
keep-Single id h s flight e v = remember-Single id h s flight flight v (rw e (v id)) (λ j d. refl)

grow :
    (id : String) (s : SchedulerService) (flight : List String)
    → Single s flight
    → (history_of id s).running ≡ false
    → occurrences id (id ∷ flight) ≡ 1
unfolding occurrences
grow id s flight v e =
    let idle_now : occurrences id flight ≡ 0 = rw e at (v id) in
    rw (str_eq_refl id) (omega (arith, idle_now))

begin_run-Single :
    (task : CronTask) (s : SchedulerService) (flight : List String)
    → Single s flight
    → let x = with_run task.id (begin_run task s) flight in Single x.service x.in_flight
unfolding begin_run occurrences
begin_run-Single task s flight v =
    go (history_of task.id s).running (s.runners task.task_type) _ refl
  where
    go :
        (r k : Bool) (m : Option String)
        → (history_of task.id s).running ≡ r
        → let y : SchedulerService × Bool =
            if r
            then (remember task.id (history_of task.id s) s, false)
            else if not k
            then (remember task.id (record (history_of task.id s) { last_error = m }) s, false)
            else (remember task.id (record (history_of task.id s) { running = true }) s, true) in
          let x = with_run task.id y flight in Single x.service x.in_flight
    go true k m e = keep-Single task.id _ s flight refl v
    go false false m e = keep-Single task.id _ s flight refl v
    go false true m e =
        remember-Single task.id _ s flight (task.id ∷ flight) v (grow task.id s flight v e)
          (λ j d. rw (d, occurrences) (omega arith))

finish_run-Single :
    (task : CronTask) (trigger : Trigger) (a b : ℕ) (r : TaskRunResult) (s : SchedulerService)
    (flight : List String)
    → includes flight task.id ≡ true
    → Single s flight
    → Single (finish_run task trigger a b r s).0 (remove task.id flight)
unfolding finish_run
finish_run-Single task trigger a b r s flight i v =
    remember-Single task.id _ s flight (remove task.id flight) v
      (shrink (history_of task.id s).running (v task.id)
        (occurrences-remove task.id task.id flight i))
      (λ j d. ground (arith, d, occurrences-remove task.id j flight i))
  where
    shrink :
        (running : Bool) {n : ℕ}
        → occurrences task.id flight ≡ (if running then 1 else 0)
        → n + (if str_eq task.id task.id then 1 else 0) ≡ occurrences task.id flight
        → n ≡ 0
    shrink running e f = ground (arith, str_eq_refl task.id, e, f)

run_now-Single :
    (id : String) (s : SchedulerService) (flight : List String)
    → Single s flight
    → let r = run_now id s in
      let x = with_run (task_id_of (Dict.get id s.tasks) id) (r.0, r.2) flight in
      Single x.service x.in_flight
unfolding run_now
run_now-Single id s flight v = elim (Option-cases (Dict.get id s.tasks)) [
  | inl e ↦ rw (e, run_now) v
  | inr (task, e) ↦ elim (Bool-cases (history_of id s).running) [
    | inl r ↦ rw (e, r, run_now) v
    | inr r ↦ rw (e, r, run_now) (begin_run-Single task s flight v)
  ]
]

register_jobs-history :
    (valid : String → Bool) (ts : List CronTask) (s : SchedulerService)
    → (register_jobs valid ts s).0.history ≡ s.history
unfolding register_jobs
register_jobs-history valid [] s = refl
register_jobs-history valid (t ∷ ts) s = ground (
  arith,
  register_jobs-history valid ts s,
  register_jobs-history valid ts (record s { jobs = t.id ∷ s.jobs }),
)

Single-history :
    (s after : SchedulerService) (flight : List String)
    → after.history ≡ s.history
    → Single s flight
    → Single after flight
unfolding history_of
Single-history s after flight e v id = rw e (v id)

history-start :
    (valid : String → Bool) (s : SchedulerService) → (start valid s).0.history ≡ s.history
unfolding start
history-start valid s =
    ground (arith, register_jobs-history valid (Dict.values s.tasks) (record s { started = true }))

history-stop : (s : SchedulerService) → (stop s).history ≡ s.history
unfolding stop
history-stop s = ground arith

happen-Single :
    (e : Event) (x : System)
    → Single x.service x.in_flight
    → Single (happen e x).service (happen e x).in_flight
unfolding happen
happen-Single (start_event valid) x v =
    Single-history x.service _ x.in_flight (history-start valid x.service) v
happen-Single stop_event x v = Single-history x.service _ x.in_flight (history-stop x.service) v
happen-Single (fire task) x v = begin_run-Single task x.service x.in_flight v
happen-Single (run_now_event id) x v = run_now-Single id x.service x.in_flight v
happen-Single (answer task trigger a b r) x v = elim (Bool-cases (includes x.in_flight task.id)) [
  | inl e ↦ rw (e, happen) (finish_run-Single task trigger a b r x.service x.in_flight e v)
  | inr e ↦ rw (e, happen) v
]

happen_all-Single_from :
    (es : List Event) (x : System)
    → Single x.service x.in_flight
    → Single (happen_all es x).service (happen_all es x).in_flight
unfolding happen_all
happen_all-Single_from [] x v = v
happen_all-Single_from (e ∷ es) x v = happen_all-Single_from es (happen e x) (happen-Single e x v)

abbrev pub initial : List CronTask → (CronTaskType → Bool) → System
initial tasks runners = record { service = new tasks runners; in_flight = [] }

add_tasks-Single :
    (ts : List CronTask) (s : SchedulerService) → Single s [] → Single (add_tasks ts s) []
unfolding add_tasks occurrences history_of
add_tasks-Single [] s v = v
add_tasks-Single (t ∷ ts) s v =
    add_tasks-Single ts _ (λ id. remember-Single t.id no_history s [] [] v refl (λ j d. refl) id)

-- Single concurrency: after any sequence of starts, stops, scheduled firings, manual runs and answers
-- of the runners on a new service, the runs of a task in flight are one if its history says that it is
-- running and none otherwise, so that no task ever runs twice at a time and no flag is left set when
-- the run has ended, whether it succeeded, failed or threw.
pub happen_all-Single :
    (tasks : List CronTask) (runners : CronTaskType → Bool) (es : List Event)
    → let x = happen_all es (initial tasks runners) in Single x.service x.in_flight
unfolding occurrences history_of Dict.get
happen_all-Single tasks runners es =
    happen_all-Single_from es (initial tasks runners) (add_tasks-Single tasks _ (λ id. refl))
