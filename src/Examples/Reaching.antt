-- ===== src/Examples/Reaching.antt =====
-- The command line reaches the server of a manager on the local host.
use task_orchestrator.Prelude.{
  ◌≡◌, refl, ap, inl, inr, Option, none, some, List, [], ◌∷◌, String, str_eq, str_append,
  if◌then◌else◌, Bool-cases, ◌==◌,
}
use task_orchestrator.Cli.Client.{Exchange, Http, answered, not_sent, tasks_url}
use task_orchestrator.Cli.Decimal.{int_string, decimal}
use task_orchestrator.HttpApi.Router.{Method, get, post, delete, Router}
use task_orchestrator.Manager.{Manager}
use task_orchestrator.Manager.Routes.{Endpoint}
use task_orchestrator.Task.{Uuid}
use task_orchestrator.Wire.{Manages}
use task_orchestrator.Wire.Managed.{answer, Reaches, Reaches-Manages}
use task_orchestrator.Examples.Commanding.{formats, local, shown}
use task_orchestrator.Examples.Composing.{encoders, printed, manager_parts, busy_manager}
use task_orchestrator.Examples.Serving.{plain_router, plain_laws, not_found}

abbrev manager_router : Router Endpoint
manager_router = plain_router Endpoint

-- The paths of the URLs of the manager.
abbrev path_of : String → Option (List String)
path_of url =
    if str_eq url "http://localhost:5555/tasks"
    then some ("tasks" ∷ [])
    else if str_eq url "http://localhost:5555/tasks/7"
    then some ("tasks" ∷ "7" ∷ [])
    else if str_eq url "http://localhost:5555/tasks/other"
    then some ("tasks" ∷ "other" ∷ [])
    else none

abbrev to_manager : Option (List String) → Method → String → Manager manager_parts → Exchange
to_manager none k body m = not_sent
to_manager (some path) k body m =
    answered (shown (answer encoders formats 200 9 not_found manager_router k path body m).1)

abbrev network : Manager manager_parts → Http
network m = record {
  get = λ url. to_manager (path_of url) get "" m;
  post = λ url body. to_manager (path_of url) post body m;
  delete = λ url. to_manager (path_of url) delete "" m;
}

network-Reaches :
    (m : Manager manager_parts)
    → Reaches encoders formats 200 9 not_found manager_router path_of m (network m)
network-Reaches m = record {
  gets = λ url path e. (_, ap (λ at. to_manager at get "" m) e, refl);
  posts = λ url path body e. (_, ap (λ at. to_manager at post body m) e, refl);
  deletes = λ url path e. (_, ap (λ at. to_manager at delete "" m) e, refl);
}

tasks_path : path_of (tasks_url local) ≡ some ("tasks" ∷ [])
unfolding tasks_url int_string decimal
tasks_path = refl

task_path :
    (id : Uuid)
    → path_of (str_append (tasks_url local) (str_append "/" (printed id)))
      ≡ some ("tasks" ∷ printed id ∷ [])
unfolding tasks_url int_string decimal
task_path id = elim (Bool-cases (id == 7)) [ inl e ↦ rw e refl | inr e ↦ rw e refl ]

Reaches-Manages_example : Manages encoders formats 200 9 local busy_manager (network busy_manager)
Reaches-Manages_example =
    Reaches-Manages encoders formats 200 9 not_found manager_router (plain_laws Endpoint) path_of
      local busy_manager (network busy_manager) tasks_path task_path (network-Reaches busy_manager)
