-- ===== src/Examples/Together.antt =====
-- A manager and a worker at work together on one task.
use task_orchestrator.Prelude.{◌≡◌, ◌≢◌, refl, none, some, List, [], ◌∷◌, map, length}
use task_orchestrator.Prelude.Assoc.{lookup, insert}
use task_orchestrator.Errors.{ok}
use task_orchestrator.Task.{Uuid, Time, scheduled}
use task_orchestrator.Manager.{Net}
use task_orchestrator.Manager.Send.{stop_task, worker_address, address_in, require_worker_address}
use task_orchestrator.Manager.State.{worker_for_task, retire_task, assign_task}
use task_orchestrator.Worker.Api.{start_task_handler}
use task_orchestrator.Store.Laws.{in_memory-StoreLaws}
use task_orchestrator.Wire.Delivering.{waiting}
use task_orchestrator.Worker.Setup.{run_tasks}
use task_orchestrator.Worker.Run.{World, add_task}
use task_orchestrator.Worker.State.{enqueue_task}
use task_orchestrator.Queue.{enqueue}
use task_orchestrator.System.Running.{alone}
use task_orchestrator.System.{System, sends, handles, Steps, start, later}
use task_orchestrator.System.Stopping.{run_tasks-stoppable}
use task_orchestrator.Examples.{request}
use task_orchestrator.Examples.Working.{reliable}
use task_orchestrator.Examples.Composing.{
  encoders, parsed, manager_parts, worker_parts, manager, worker, serving, serving-Serves,
  event_queue, task_queue,
}

abbrev before : System manager_parts worker_parts
before = record { manager = manager []; worker = worker []; hand = []; sending = []; refused = [] }

-- The manager has assigned the task, and the worker does not have it yet.
abbrev under_way : System manager_parts worker_parts
under_way = record before {
  manager = assign_task "first" (request 7 scheduled) (manager []);
  sending = request 7 scheduled ∷ [];
}

abbrev after : System manager_parts worker_parts
after = record under_way { worker = (start_task_handler "event" (worker [])).0; sending = [] }

-- The worker with its daemon, after the delivery.
abbrev ran : World worker_parts
ran = record { worker = after.worker; daemon = 0 }

sent : Steps parsed "first" before under_way
sent = later start (sends (request 7 scheduled))

delivery : Steps parsed "first" before after
delivery = later sent (handles [] [] (request 7 scheduled) "event" refl refl refl)

nothing_routed : (j : Uuid) → worker_for_task j before.manager ≢ some "first"
unfolding worker_for_task lookup
nothing_routed j h = let wrong : none ≡ some "first" = h in cc wrong

routed : worker_for_task 7 after.manager ≡ some "first"
unfolding worker_for_task assign_task insert lookup
routed = refl

address : require_worker_address "manager.stopTask" "first" after.manager ≡ ok "http://first"
unfolding require_worker_address worker_address address_in assign_task
address = refl

abbrev turns : List Time
turns = 5 ∷ []

one_waits : length turns ≡ length (waiting task_queue after.worker)
unfolding start_task_handler add_task enqueue_task enqueue
one_waits = refl

-- The network once the worker has had its turn.
abbrev later_net : Net
later_net = serving (run_tasks (map alone turns) ran).worker

run_tasks-stoppable_example :
    stop_task "first" 7 later_net after.manager ≡ retire_task "first" 7 after.manager
run_tasks-stoppable_example =
    run_tasks-stoppable encoders parsed "first" "http://first" event_queue task_queue
      in_memory-StoreLaws reliable before after 0 turns 7 later_net nothing_routed delivery routed
      refl (λ (_, none_sent, _). none_sent) (λ (_, none_given, _). none_given) one_waits address
      (serving-Serves (run_tasks (map alone turns) ran).worker) refl refl
