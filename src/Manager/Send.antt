-- ===== src/Manager/Send.antt =====
-- internal/manager/manager.go: how pending events are sent to workers, how tasks are stopped there,
-- and how the workers' reports come back.
use task_orchestrator.Prelude.{
  ◌&&◌, not, Option, none, some, List, [], ◌∷◌, map, String, str_eq, str_append, ◌==◌,
  if◌then◌else◌,
}
use task_orchestrator.Errors.{
  foreign, sentinel, joined, origin, origin_of, worker_unreachable, errors_is, Result, ok, err,
  or_wrap,
}
use task_orchestrator.HttpApi.{status_ok, status_created, status_no_content}
use task_orchestrator.Node.{Node}
use task_orchestrator.Task.{
  Task, TaskEvent, Uuid, completed, state_eq, new_state_machine, is_valid_transition,
}
use task_orchestrator.Manager.{Parts, Codec, Manager, Net, unreachable, answered}
use task_orchestrator.Manager.Pure.{worker_tasks_url}
use task_orchestrator.Manager.State.{
  next_pending_event, enqueue_event, assignment_for, assign_task, unassign_task, retire_task,
  put_task, pick_worker, snapshot_tasks, apply_worker_report,
}

-- The scan of `workerAddress`.
unfoldable pub address_in : List Node → String → Option String
address_in [] name = none
address_in (n ∷ ns) name = if str_eq n.name name then some n.api else address_in ns name

unfoldable pub post_task_event : Codec → String → String → TaskEvent → Net → Result Task
post_task_event codec op worker_addr te net = elim (codec.encode_event te) [
  | none ↦ err (origin_of op foreign)
  | some body ↦ elim (net.post (worker_tasks_url worker_addr) body) [
    | unreachable cause ↦ err (origin_of op (joined (sentinel worker_unreachable) cause))
    | answered resp ↦
        if not (resp.status == status_created)
        then elim (codec.decode_error resp.body) [
          | none ↦ err (origin_of op foreign)
          | some e ↦ err (origin op)
        ]
        else elim (codec.decode_task resp.body) [
          | none ↦ err (origin_of op foreign)
          | some created ↦ ok created
        ]
  ]
]

module _ {p : Parts} where
  unfoldable pub worker_address : String → Manager p → Option String
  unfolding address_in
  worker_address name m = address_in m.worker_nodes name

  unfoldable pub require_worker_address : String → String → Manager p → Result String
  require_worker_address op name m = elim (worker_address name m) [
    | none ↦ err (origin op)
    | some addr ↦ ok addr
  ]

  unfoldable pub select_worker : Task → Manager p → Manager p × Result Node
  select_worker t m =
      let (m', selected) = pick_worker t m in
      (m', elim selected [ none ↦ err (origin "manager.SelectWorker") | some n ↦ ok n ])

  -- A request that cannot be built ends like one that cannot be sent.
  unfoldable pub stop_task : String → Uuid → Net → Manager p → Manager p
  stop_task worker task_id net m = elim (require_worker_address "manager.stopTask" worker m) [
    | err e ↦ m
    | ok addr ↦
        let url = str_append (worker_tasks_url addr) (str_append "/" (p.uuid_string task_id)) in
        elim (net.delete url) [
          | unreachable cause ↦ m
          | answered resp ↦
              if not (resp.status == status_no_content) then m else retire_task worker task_id m
        ]
  ]

  -- `SendWork` from the point where a node was selected.
  unfoldable pub deliver : Node → TaskEvent → Net → Manager p → Manager p
  deliver selected te net m =
      let assigned = assign_task selected.name te m in
      elim (post_task_event p.codec "manager.SendWork" selected.api te net) [
        | err e ↦
            if errors_is e worker_unreachable
            then enqueue_event te (unassign_task selected.name te.task.id assigned)
            else assigned
        | ok new_task ↦ (put_task new_task assigned).0
      ]

  -- `SendWork` for one event.
  unfoldable pub handle_event : TaskEvent → Net → Manager p → Manager p
  unfolding select_worker
  handle_event te net m = elim (assignment_for te.task.id m) [
    | some (task_worker, persisted) ↦
        if state_eq te.task.state completed
          && is_valid_transition new_state_machine persisted.state te.task.state
        then stop_task task_worker te.task.id net m
        else m
    | none ↦
        let (m', selected) = select_worker te.task m in
        elim selected [ err e ↦ m' | ok n ↦ deliver n te net m' ]
  ]

  unfoldable pub send_work : Net → Manager p → Manager p
  send_work net m =
      let (next, rest) = next_pending_event m in
      elim next [ none ↦ rest | some te ↦ handle_event te net rest ]

  unfoldable pub add_task : TaskEvent → Manager p → Manager p
  add_task te m = enqueue_event te m

  unfoldable pub get_tasks : Manager p → Result (List Task)
  get_tasks m = or_wrap "manager.GetTasks" (snapshot_tasks m)

  -- The tasks that one worker reports, none if the poll fails.
  unfoldable pub reports_from_worker : String → Net → Manager p → List Task
  reports_from_worker worker_name net m = elim (worker_address worker_name m) [
    | none ↦ []
    | some addr ↦ elim (net.get (worker_tasks_url addr)) [
      | unreachable e ↦ []
      | answered resp ↦
          if not (resp.status == status_ok)
          then []
          else elim (p.codec.decode_tasks resp.body) [ none ↦ [] | some tasks ↦ tasks ]
    ]
  ]

  unfoldable pub apply_reports : List Task → Manager p → Manager p
  apply_reports [] m = m
  apply_reports (t ∷ ts) m = apply_reports ts (apply_worker_report t m).0

  unfoldable pub update_tasks_from_worker : String → Net → Manager p → Manager p
  unfolding reports_from_worker apply_reports
  update_tasks_from_worker worker_name net m =
      apply_reports (reports_from_worker worker_name net m) m

  -- The workers are polled at once, and their reports are merged in any interleaving.
  unfoldable pub update_tasks : (List (List Task) → List Task) → Net → Manager p → Manager p
  unfolding reports_from_worker apply_reports
  update_tasks interleave net m =
      apply_reports (interleave (map (λ n. reports_from_worker n.name net m) m.worker_nodes)) m
