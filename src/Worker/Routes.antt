-- ===== src/Worker/Routes.antt =====
-- internal/worker/api.go: the routes of the worker's HTTP server, and its start and stop.
use task_orchestrator.Prelude.{
  ◌≡◌, refl, ◌∙◌, Option, none, some, List, [], ◌∷◌, String, str_eq, str_append, if◌then◌else◌,
}
use task_orchestrator.Prelude.Int.{ℤ}
use task_orchestrator.Cli.Decimal.{int_string}
use task_orchestrator.HttpApi.Router.{
  Method, get, post, delete, literal, Found, Router, RouterLaws, Server, Listening, ListeningLaws,
}
use task_orchestrator.HttpApi.TaskRoutes.{task_routes, task_endpoint, serve-task_routes}
use task_orchestrator.Worker.{Parts, Worker}

-- The four handlers of api.go.
pub data Endpoint : Type 0 where
  start_task get_tasks stop_task get_stats : Endpoint

module _ (r : Router Endpoint) where
  -- The routes that `initRouter` sets up.
  unfoldable pub worker_routes : r.Mux
  worker_routes =
      r.route (literal "stats" ∷ []) (λ sub. r.handle get [] get_stats sub)
        (r.route (literal "tasks" ∷ []) (task_routes start_task get_tasks stop_task r) r.new)

  -- `API`, less its logger.
  pub record Api (p : Parts) : Type 0 where
    pub address : String
    pub port : ℤ
    pub worker : Worker p
    pub router : Option r.Mux
    pub server : Option (Server r)

  unfoldable pub new_api : {p : Parts} → Worker p → String → ℤ → Api p
  new_api w host port = record {
    address = host;
    port = port;
    worker = w;
    router = none;
    server = none;
  }

  unfoldable pub init_router : {p : Parts} → Api p → Api p
  unfolding worker_routes
  init_router a = record a {
    router = some worker_routes;
    server = some (record {
      addr = str_append a.address (str_append ":" (int_string a.port));
      handler = worker_routes;
    });
  }

  unfoldable pub stop : {p : Parts} (net : Listening r) → Api p → net.L → net.L
  stop net a l = elim a.server [ none ↦ l | some server ↦ net.shutdown server l ]

  -- The server listens from its start until `done` is closed; `meanwhile` is what happens until then
  -- to the program and to what it drives.
  unfoldable pub start :
      {p : Parts} {X : Type 0} (net : Listening r)
      → (Api p × net.L × X → Api p × net.L × X)
      → Api p
      → net.L
      → X
      → Api p × net.L × X
  unfolding init_router stop
  start net meanwhile a l x =
      let ready = init_router a in
      let listening : net.L = elim ready.server [
        | none ↦ l
        | some server ↦ net.listen_and_serve server l
      ] in
      let (a', l', x') = meanwhile (ready, listening, x) in (a', stop net a' l', x')

-- What is found below "/stats".
unfoldable pub stats_endpoint : Method → List String → Found Endpoint
stats_endpoint get [] = some (get_stats, [])
stats_endpoint post [] = none
stats_endpoint delete [] = none
stats_endpoint k (part ∷ path) = none

-- What the worker serves: its tasks and its statistics.
unfoldable pub endpoint_at : Method → List String → Found Endpoint
endpoint_at k [] = none
endpoint_at k (part ∷ path) =
    if str_eq "stats" part
    then stats_endpoint k path
    else if str_eq "tasks" part
    then task_endpoint start_task get_tasks stop_task k path
    else none

serve-stats :
    (r : Router Endpoint) (laws : RouterLaws r) (k : Method) (path : List String)
    → r.serve k path (r.handle get [] get_stats r.new) ≡ stats_endpoint k path
unfolding stats_endpoint
serve-stats r laws get [] = laws.serve-handle get get get_stats r.new
serve-stats r laws post [] = laws.serve-handle post get get_stats r.new ∙ laws.serve-new post []
serve-stats r laws delete [] =
    laws.serve-handle delete get get_stats r.new ∙ laws.serve-new delete []
serve-stats r laws k (part ∷ path) =
    laws.serve-handle_below k get get_stats r.new part path ∙ laws.serve-new k (part ∷ path)

-- For every method and path, the router of the worker finds what the table says, and no handler
-- where the table has none.
pub serve-worker_routes :
    (r : Router Endpoint) (laws : RouterLaws r) (k : Method) (path : List String)
    → r.serve k path (worker_routes r) ≡ endpoint_at k path
unfolding worker_routes endpoint_at
serve-worker_routes r laws k [] =
    laws.serve-route_above k (literal "stats") stats tasks
    ∙ laws.serve-route_above k (literal "tasks") (task_routes start_task get_tasks stop_task r)
        r.new
    ∙ laws.serve-new k []
  where
    stats : r.Mux → r.Mux
    stats sub = r.handle get [] get_stats sub

    tasks : r.Mux
    tasks = r.route (literal "tasks" ∷ []) (task_routes start_task get_tasks stop_task r) r.new
serve-worker_routes r laws k (part ∷ path) =
    laws.serve-route_literal k "stats" (λ sub. r.handle get [] get_stats sub)
      (r.route (literal "tasks" ∷ []) (task_routes start_task get_tasks stop_task r) r.new) part
      path
    ∙ (rw (
      laws.serve-route_literal k "tasks" (task_routes start_task get_tasks stop_task r) r.new part
          path,
      serve-task_routes start_task get_tasks stop_task r laws k path,
      serve-stats r laws k path,
      laws.serve-new k (part ∷ path),
    ))

-- Where nothing listened at "host:port", and nothing replaces the server while it runs: once the
-- server of a worker is started, the router of the worker answers there, and when `Start` returns,
-- nothing does.
pub start-serving :
    {p : Parts} {X : Type 0} (r : Router Endpoint) (net : Listening r) (laws : ListeningLaws net)
    (w : Worker p) (host : String) (port : ℤ)
    (meanwhile : Api r p × net.L × X → Api r p × net.L × X) (l : net.L) (x : X)
    → laws.serving (str_append host (str_append ":" (int_string port))) l ≡ none
    → ((a : Api r p) (k : net.L) (y : X) → ((meanwhile (a, k, y)).0).server ≡ a.server)
    → ((a : Api r p) × (k : net.L) × (a.worker ≡ w)
        × (laws.serving (str_append host (str_append ":" (int_string port))) k
            ≡ some (worker_routes r))
        × ((start r net meanwhile (new_api r w host port) l x).0 ≡ (meanwhile (a, k, x)).0))
      × (laws.serving
            (str_append host (str_append ":" (int_string port)))
            (start r net meanwhile (new_api r w host port) l x).1
          ≡ none)
unfolding start stop init_router new_api
start-serving {p} {X} r net laws w host port meanwhile l x free kept =
    let server : Server r = record {
      addr = str_append host (str_append ":" (int_string port));
      handler = worker_routes r;
    } in
    let ready : Api r p = init_router r (new_api r w host port) in
    let listening : net.L = net.listen_and_serve server l in
    let same : ((meanwhile (ready, listening, x)).0).server ≡ some server =
      kept ready listening x in
    (
      (ready, listening, refl, laws.serving-listen_and_serve server l free, refl),
      rw (same, stop) (laws.serving-shutdown server (meanwhile (ready, listening, x)).1),
    )
