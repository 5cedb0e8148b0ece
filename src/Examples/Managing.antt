-- ===== src/Examples/Managing.antt =====
-- The theorems on the manager, with two workers and one or two tasks.
use task_orchestrator.Prelude.{
  ◌≡◌, refl, ◌⊎◌, inl, none, some, [], ◌∷◌, ◌++◌, List, String, Option, if◌then◌else◌, ◌==◌,
}
use task_orchestrator.Prelude.Int.{pos}
use task_orchestrator.Prelude.Assoc.{lookup, String-Eq, ℕ-Eq}
use task_orchestrator.Errors.{foreign, ok}
use task_orchestrator.Store.InMemory.{get, put}
use task_orchestrator.Store.Laws.{in_memory-StoreLaws}
use task_orchestrator.Task.{Task, TaskEvent, Uuid, scheduled, running, completed, failed}
use task_orchestrator.Manager.{Manager}
use task_orchestrator.Manager.State.{
  assign_task, worker_for_task, assignment_for, begin_restart, retire_task, task_locked,
}
use task_orchestrator.Manager.Send.{
  address_in, worker_address, require_worker_address, deliver, send_work, apply_reports,
}
use task_orchestrator.Manager.Health.{Moment, restart_event, restart_task}
use task_orchestrator.Manager.Reports.{FollowsOption, stored, apply_reports-FollowsOption}
use task_orchestrator.Manager.Routing.{
  none_yet, and_then, assigns, retires, RoutesListed, Calls-RoutesListed,
}
use task_orchestrator.Manager.Frames.{pending_events}
use task_orchestrator.Manager.Delivery.{deliver-unreachable}
use task_orchestrator.Manager.Dispatch.{send_work-queue}
use task_orchestrator.Manager.Restart.{restart_task-dropped}
use task_orchestrator.Manager.Unplaced.{send_work-unplaced}
use task_orchestrator.Scheduler.{select_candidate_nodes}
use task_orchestrator.Examples.Working.{reliable}
use task_orchestrator.Examples.{
  list_queue-InnerLaws, job, request, parts, first_node, fresh, busy, down, up,
}

abbrev events : Manager parts → List TaskEvent
events m = pending_events (list_queue-InnerLaws TaskEvent) m

abbrev reported : Manager parts → String → Option Task
reported m k = stored in_memory-StoreLaws m k

apply_reports-FollowsOption_example :
    FollowsOption
      (reported (busy scheduled) "7")
      (reported (apply_reports (job 7 running ∷ job 7 failed ∷ []) (busy scheduled)) "7")
apply_reports-FollowsOption_example =
    apply_reports-FollowsOption in_memory-StoreLaws (job 7 running ∷ job 7 failed ∷ [])
      (busy scheduled) "7"

found : reported (busy completed) "7" ≡ some (job 7 completed)
unfolding get lookup
found = in_memory-StoreLaws.get_found "7" (job 7 completed) ((busy completed).task_db) refl

-- Task 7 is assigned and retired again.
abbrev assigned : Manager parts
assigned = assign_task "first" (request 7 scheduled) fresh

abbrev retired : Manager parts
retired = retire_task "first" 7 assigned

routes_of_fresh : RoutesListed fresh
unfolding lookup
routes_of_fresh id w e = cc

Calls-RoutesListed_example : RoutesListed retired
Calls-RoutesListed_example =
    Calls-RoutesListed
      (and_then (and_then none_yet (assigns "first" (request 7 scheduled) refl))
        (retires "first" 7 refl))
      routes_of_fresh

send_work-queue_example :
    (events (send_work down fresh) ≡ request 8 scheduled ∷ [])
    ⊎ (events (send_work down fresh) ≡ request 8 scheduled ∷ request 7 scheduled ∷ [])
send_work-queue_example =
    send_work-queue (list_queue-InnerLaws TaskEvent) down fresh (request 7 scheduled)
      (request 8 scheduled ∷ []) refl

deliver-unreachable_example :
    (events (deliver first_node (request 7 scheduled) down fresh)
      ≡ events fresh ++ request 7 scheduled ∷ [])
    × ((id : Uuid)
        → worker_for_task id (deliver first_node (request 7 scheduled) down fresh)
          ≡ (if 7 == id then none else worker_for_task id fresh))
    × ((deliver first_node (request 7 scheduled) down fresh).task_db ≡ fresh.task_db)
deliver-unreachable_example =
    deliver-unreachable first_node (request 7 scheduled) down fresh (list_queue-InnerLaws TaskEvent)
      foreign ("event", refl, refl)

written : (put "7" (job 7 running) (fresh.task_db)).1 ≡ none
unfolding put
written = refl

is_assigned :
    (m : Manager parts) → m ≡ busy running → assignment_for 7 m ≡ some ("first", job 7 running)
unfolding assignment_for task_locked lookup get
is_assigned m e = rw e

first_address : require_worker_address "manager.stopTask" "first" (busy running) ≡ ok "http://first"
unfolding require_worker_address worker_address address_in
first_address = refl

abbrev moment : Moment
moment = record { net = down; fresh_id = 200; now = 9 }

abbrev bumped : Task
bumped = record (job 7 running) { state = scheduled; restart_count = pos 1 }

routed_first : worker_for_task 7 (busy running) ≡ some "first"
unfolding worker_for_task lookup
routed_first = refl

restart_address :
    require_worker_address "manager.restartTask" "first" (busy running) ≡ ok "http://first"
unfolding require_worker_address worker_address address_in
restart_address = refl

is_bumped : (begin_restart 7 (busy running)).1 ≡ some bumped
unfolding begin_restart task_locked get lookup put
is_bumped = refl

abbrev idle : Manager parts
idle = record (busy running) { pending = record { inner_queue = [] } }

abbrev lost : Manager parts
lost = send_work (up 201) (restart_task moment (job 7 running) idle)

restart_task-dropped_example :
    (events (restart_task moment (job 7 running) idle) ≡ restart_event moment bumped ∷ [])
    × (events lost ≡ [])
    × (worker_for_task 7 lost ≡ some "first")
    × (reported lost "7" ≡ some bumped)
unfolding worker_for_task require_worker_address worker_address begin_restart get lookup
restart_task-dropped_example =
    restart_task-dropped in_memory-StoreLaws reliable (list_queue-InnerLaws TaskEvent) moment
      (job 7 running) bumped idle "first" "http://first" "event" foreign (up 201) routed_first
      restart_address is_bumped refl refl refl refl

-- No node has room for the task.
abbrev nodeless : Manager parts
nodeless = record fresh { worker_nodes = [] }

send_work-unplaced_example :
    (events (send_work down nodeless) ≡ request 8 scheduled ∷ [])
    × ((send_work down nodeless).task_worker_map ≡ [])
    × ((send_work down nodeless).worker_task_map ≡ [])
    × ((send_work down nodeless).task_db ≡ nodeless.task_db)
    × ((send_work down nodeless).event_db ≡ nodeless.event_db)
unfolding select_candidate_nodes worker_for_task lookup
send_work-unplaced_example =
    send_work-unplaced (list_queue-InnerLaws TaskEvent) down nodeless (request 7 scheduled)
      (request 8 scheduled ∷ []) refl refl (inl refl)
