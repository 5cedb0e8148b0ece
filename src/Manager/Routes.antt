-- ===== src/Manager/Routes.antt =====
-- internal/manager/api.go: the routes of the manager's HTTP server, and its start and stop.
use task_orchestrator.Prelude.{
  ◌≡◌, ◌∙◌, Option, none, some, List, [], ◌∷◌, String, str_eq, str_append, if◌then◌else◌,
}
use task_orchestrator.Prelude.Int.{ℤ}
use task_orchestrator.Cli.Decimal.{int_string}
use task_orchestrator.HttpApi.Router.{Method, literal, Found, Router, RouterLaws, Server, Listening}
use task_orchestrator.HttpApi.TaskRoutes.{task_routes, task_endpoint, serve-task_routes}
use task_orchestrator.Manager.{Parts, Manager}

-- The three handlers of api.go.
pub data Endpoint : Type 0 where
  start_task get_tasks stop_task : Endpoint

module _ (r : Router Endpoint) where
  -- The routes that `initRouter` sets up.
  unfoldable pub manager_routes : r.Mux
  manager_routes =
      r.route (literal "tasks" ∷ []) (task_routes start_task get_tasks stop_task r) r.new

  -- `API`, less its logger.
  pub record Api (p : Parts) : Type 0 where
    pub address : String
    pub port : ℤ
    pub manager : Manager p
    pub router : Option r.Mux
    pub server : Option (Server r)

  unfoldable pub new_api : {p : Parts} → String → ℤ → Manager p → Api p
  new_api host port m = record {
    address = host;
    port = port;
    manager = m;
    router = none;
    server = none;
  }

  unfoldable pub init_router : {p : Parts} → Api p → Api p
  unfolding manager_routes
  init_router a = record a {
    router = some manager_routes;
    server = some (record {
      addr = str_append a.address (str_append ":" (int_string a.port));
      handler = manager_routes;
    });
  }

  unfoldable pub stop : {p : Parts} (net : Listening r) → Api p → net.L → net.L
  stop net a l = elim a.server [ none ↦ l | some server ↦ net.shutdown server l ]

  -- The server listens from its start until `done` is closed; `meanwhile` is what happens to the
  -- program until then.
  unfoldable pub start :
      {p : Parts} (net : Listening r)
      → (Api p × net.L → Api p × net.L)
      → Api p
      → net.L
      → Api p × net.L
  unfolding init_router stop
  start net meanwhile a l =
      let ready = init_router a in
      let listening : net.L = elim ready.server [
        | none ↦ l
        | some server ↦ net.listen_and_serve server l
      ] in
      let (a', l') = meanwhile (ready, listening) in (a', stop net a' l')

-- What the manager serves: its tasks.
unfoldable pub endpoint_at : Method → List String → Found Endpoint
endpoint_at k [] = none
endpoint_at k (part ∷ path) =
    if str_eq "tasks" part then task_endpoint start_task get_tasks stop_task k path else none

-- For every method and path, the router of the manager finds what the table says, and no handler
-- where the table has none.
pub serve-manager_routes :
    (r : Router Endpoint) (laws : RouterLaws r) (k : Method) (path : List String)
    → r.serve k path (manager_routes r) ≡ endpoint_at k path
unfolding manager_routes endpoint_at
serve-manager_routes r laws k [] =
    laws.serve-route_above k (literal "tasks") (task_routes start_task get_tasks stop_task r) r.new
    ∙ laws.serve-new k []
serve-manager_routes r laws k (part ∷ path) =
    laws.serve-route_literal k "tasks" (task_routes start_task get_tasks stop_task r) r.new part
      path
    ∙ (rw (
      serve-task_routes start_task get_tasks stop_task r laws k path,
      laws.serve-new k (part ∷ path),
    ))
