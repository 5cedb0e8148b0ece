-- ===== src/Examples/Commanding.antt =====
-- A command line that talks to a manager about one task.
use task_orchestrator.Prelude.{
  ◌≡◌, refl, ◌⊎◌, inl, inr, false, none, some, [], ◌∷◌, ◌++◌, String, str_eq, str_append,
  if◌then◌else◌, ◌==◌, Bool-cases,
}
use task_orchestrator.Prelude.Int.{pos}
use task_orchestrator.Prelude.Assoc.{String-Eq}
use task_orchestrator.HttpApi.{Response}
use task_orchestrator.Task.{Task, Uuid, scheduled, completed}
use task_orchestrator.Manager.{Manager}
use task_orchestrator.Manager.State.{worker_for_task, retire_task}
use task_orchestrator.Manager.State as ManagerState
use task_orchestrator.Manager.Frames.{pending_events}
use task_orchestrator.Manager.Api as ManagerApi
use task_orchestrator.Cli.{done, failed, task_not_found}
use task_orchestrator.Cli.Decimal.{int_string, decimal}
use task_orchestrator.Cli.Client.{
  Formats, Target, Http, Answer, submitted, submit_task_event, stop_command, tasks_url, not_sent,
}
use task_orchestrator.Cli.Client as Client
use task_orchestrator.Wire.{respond, Manages}
use task_orchestrator.Wire.Commands.{submit_task_event-both, stop_command-both}
use task_orchestrator.Examples.{request}
use task_orchestrator.Examples.Composing.{
  codec, encoders, printed, parsed, manager_parts, manager, busy_manager, event_queue,
}

abbrev pub formats : Formats
formats = record {
  G = String;
  yaml_unmarshal = λ s. some s;
  json_marshal = λ g. some g;
  decode_event = codec.decode_event;
  marshal_indent = codec.encode_event;
  decode_tasks = codec.decode_tasks;
  decode_error = codec.decode_error;
  indent = λ s. some s;
  uuid_string = printed;
  parse_uuid = parsed;
}

abbrev pub local : Target
local = record { host = "localhost"; port = pos 5555 }

abbrev cancelling : String → Manager manager_parts → Response
cancelling id m =
    respond encoders encoders.encode_event (ManagerApi.stop_task_handler parsed 200 9 id m).1

abbrev pub shown : Response → Answer
shown r = record { response = r; status = "" }

abbrev managing : Manager manager_parts → Http
managing m = record {
  post = λ url body.
      Client.answered
        (shown (respond encoders encoders.encode_event (ManagerApi.start_task_handler body m).1));
  get = λ url.
      Client.answered
        (shown (respond encoders encoders.encode_tasks (ManagerApi.get_tasks_handler m)));
  delete = λ url.
      if str_eq url "http://localhost:5555/tasks/7"
      then Client.answered (shown (cancelling "7" m))
      else Client.answered (shown (cancelling "other" m));
}

managing-Manages : (m : Manager manager_parts) → Manages encoders formats 200 9 local m (managing m)
unfolding tasks_url int_string decimal
managing-Manages m = record {
  posted = λ body. (_, refl, refl);
  listed = (_, refl, refl);
  deleted = deleted;
}
  where
    deleted :
        (id : Uuid)
        → (a : Answer) × ((managing m).delete
              (str_append (tasks_url local) (str_append "/" (printed id)))
            ≡ Client.answered a)
          × (a.response ≡ cancelling (printed id) m)
    deleted id = elim (Bool-cases (id == 7)) [
      | inl e ↦ (shown (cancelling "7" m), rw e refl, rw e refl)
      | inr e ↦ (shown (cancelling "other" m), rw e refl, rw e refl)
    ]

submit_task_event-both_example :
    (body : String) × (formats.marshal_indent (request 7 scheduled) ≡ some body)
    × (submit_task_event formats local (request 7 scheduled) false (managing (manager []))
        ≡ done (submitted formats (request 7 scheduled) ∷ []))
    × (pending_events event_queue (ManagerApi.start_task_handler body (manager [])).0
        ≡ pending_events event_queue (manager []) ++ request 7 scheduled ∷ [])
submit_task_event-both_example =
    submit_task_event-both encoders formats 200 9 event_queue local (request 7 scheduled)
      (managing (manager [])) (manager []) ("event", refl, refl) (managing-Manages (manager []))

stop_command-both_example :
    let after = (ManagerApi.stop_task_handler parsed 200 9 "7" busy_manager).0 in
    ((t : Task) × (ManagerState.lookup_task 7 busy_manager ≡ some t)
      × (stop_command formats "7" local (managing busy_manager)
          ≡ done ("task 7 scheduled to stop" ∷ []))
      × (pending_events event_queue after
          ≡ pending_events event_queue busy_manager
            ++ record {
              id = 200;
              state = completed;
              timestamp = 9;
              task = record t { state = completed };
            }
              ∷ []))
    ⊎ ((ManagerState.lookup_task 7 busy_manager ≡ none)
        × (stop_command formats "7" local (managing busy_manager) ≡ failed (task_not_found "7"))
        × (after ≡ busy_manager))
stop_command-both_example =
    stop_command-both encoders formats 200 9 event_queue local 7 (managing busy_manager)
      busy_manager (managing-Manages busy_manager) refl refl
