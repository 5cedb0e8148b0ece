-- ===== src/Examples/Serving.antt =====
-- A router as chi documents it, and the servers that use it.
use task_orchestrator.Prelude.{
  ◌≡◌, refl, ap, inl, inr, Option, none, some, List, [], ◌∷◌, String, str_eq, str_append,
  str_eq_iff, if◌then◌else◌, Bool-cases, ◌==◌,
}
use task_orchestrator.Errors.{foreign}
use task_orchestrator.Task.{Uuid}
use task_orchestrator.Manager.Pure.{worker_tasks_url}
use task_orchestrator.Manager.{Net, Reply, unreachable, answered}
use task_orchestrator.Worker as Worker
use task_orchestrator.Worker.Routes.{Api, new_api, start, stop, start-serving}
use task_orchestrator.Worker.Routes as WorkerRoutes
use task_orchestrator.Wire.{Serves}
use task_orchestrator.Wire.Routed.{answer, Reaches, Reaches-Serves}
use task_orchestrator.Examples.Composing.{encoders, parsed, printed, worker_parts, worker}
use task_orchestrator.HttpApi.{Response}
use task_orchestrator.HttpApi.Router.{
  Method, get, post, delete, same_method, Part, literal, param, Found, with_param, Router,
  RouterLaws, Listening, ListeningLaws,
}

-- A router that is the function from a request to what is found.
abbrev Served : Type 0 → Type 0
Served H = Method → List String → Found H

abbrev handle_at : {H : Type 0} → Method → List Part → H → Served H → Served H
handle_at j [] h m k [] = if same_method j k then some (h, []) else m k []
handle_at j [] h m k (part ∷ path) = m k (part ∷ path)
handle_at j (at ∷ more) h m k path = m k path

abbrev or_else : {H : Type 0} → Found H → Found H → Found H
or_else none other = other
or_else (some found) other = some found

abbrev route_at : {H : Type 0} → List Part → (Served H → Served H) → Served H → Served H
route_at [] f m k path = m k path
route_at (at ∷ more) f m k [] = m k []
route_at (literal name ∷ more) f m k (part ∷ path) =
    if str_eq name part then f (λ k path. none) k path else m k (part ∷ path)
route_at (param name ∷ more) f m k (part ∷ path) =
    or_else (m k (part ∷ path)) (with_param name part (f (λ k path. none) k path))

abbrev pub plain_router : (H : Type 0) → Router H
plain_router H = record {
  Mux = Served H;
  new = λ k path. none;
  handle = handle_at;
  route = route_at;
  serve = λ k path m. m k path;
}

pub plain_laws : (H : Type 0) → RouterLaws (plain_router H)
plain_laws H = record {
  serve-new = λ k path. refl;
  serve-handle = λ k j h m. refl;
  serve-handle_below = λ k j h m part path. refl;
  serve-route_above = above;
  serve-route_literal = λ k at f m part path. refl;
  serve-route_param = λ k name f m part path e.
      ap (λ found. or_else found (with_param name part (f (λ k path. none) k path))) e;
}
  where
    above :
        (k : Method) (at : Part) (f : Served H → Served H) (m : Served H)
        → route_at (at ∷ []) f m k [] ≡ m k []
    above k (literal name) f m = refl
    above k (param name) f m = refl

abbrev pub worker_router : Router WorkerRoutes.Endpoint
worker_router = plain_router WorkerRoutes.Endpoint

-- What answers at each address.
abbrev pub plain_net : Listening worker_router
plain_net = record {
  L = String → Option worker_router.Mux;
  listen_and_serve = λ s l at. if str_eq s.addr at then some s.handler else l at;
  shutdown = λ s l at. if str_eq s.addr at then none else l at;
}

abbrev pub net_laws : ListeningLaws plain_net
net_laws = record {
  serving = λ at l. l at;
  serving-listen_and_serve = λ s l free. rw ((str_eq_iff s.addr s.addr).1 refl) refl;
  serving-shutdown = λ s l. rw ((str_eq_iff s.addr s.addr).1 refl) refl;
}

abbrev pub silent : plain_net.L
silent at = none

-- The paths of the URLs of the first worker.
abbrev path_of : String → Option (List String)
path_of url =
    if str_eq url "http://first/tasks"
    then some ("tasks" ∷ [])
    else if str_eq url "http://first/tasks/7"
    then some ("tasks" ∷ "7" ∷ [])
    else if str_eq url "http://first/tasks/other"
    then some ("tasks" ∷ "other" ∷ [])
    else none

abbrev pub not_found : Response
not_found = record { status = 404; body = "404 page not found" }

abbrev to_worker : Option (List String) → Method → String → Worker.Worker worker_parts → Reply
to_worker none k body w = unreachable foreign
to_worker (some path) k body w =
    answered (answer encoders (λ s. none) parsed not_found worker_router k path body w).1

abbrev network : Worker.Worker worker_parts → Net
network w = record {
  get = λ url. to_worker (path_of url) get "" w;
  post = λ url body. to_worker (path_of url) post body w;
  delete = λ url. to_worker (path_of url) delete "" w;
}

network-Reaches :
    (w : Worker.Worker worker_parts)
    → Reaches encoders (λ s. none) parsed not_found worker_router path_of w (network w)
network-Reaches w = record {
  gets = λ url path e. ap (λ at. to_worker at get "" w) e;
  posts = λ url path body e. ap (λ at. to_worker at post body w) e;
  deletes = λ url path e. ap (λ at. to_worker at delete "" w) e;
}

tasks_path : path_of (worker_tasks_url "http://first") ≡ some ("tasks" ∷ [])
unfolding worker_tasks_url
tasks_path = refl

task_path :
    (id : Uuid)
    → path_of (str_append (worker_tasks_url "http://first") (str_append "/" (printed id)))
      ≡ some ("tasks" ∷ printed id ∷ [])
unfolding worker_tasks_url
task_path id = elim (Bool-cases (id == 7)) [ inl e ↦ rw e refl | inr e ↦ rw e refl ]

Reaches-Serves_example :
    Serves encoders parsed printed "http://first" (worker []) (network (worker []))
Reaches-Serves_example =
    Reaches-Serves encoders (λ s. none) parsed not_found worker_router
      (plain_laws WorkerRoutes.Endpoint) path_of printed "http://first" (worker [])
      (network (worker [])) tasks_path task_path (network-Reaches (worker []))
