-- ===== src/Scheduler/Tests.antt =====
-- One task, which fires while a manual run of it is in flight.
use agent_ego.Base.{true, none, [], ◌∷◌, List}
use agent_ego.Scheduler.{CronTask, chat}
use agent_ego.Scheduler.Running.{
  Event, fire, run_now_event, start_event, happen_all, initial, Single, happen_all-Single,
}

abbrev daily : CronTask
daily = record {
  id = "daily";
  spec = "0 9 * * *";
  enabled = true;
  description = none;
  task_type = chat;
}

abbrev overlapping : List Event
overlapping = start_event (λ spec. true) ∷ run_now_event "daily" ∷ fire daily ∷ []

happen_all-Single_example :
    let x = happen_all overlapping (initial (daily ∷ []) (λ t. true)) in
    Single x.service x.in_flight
happen_all-Single_example = happen_all-Single (daily ∷ []) (λ t. true) overlapping
