-- ===== src/HttpApi/Router.antt =====
-- The router of go-chi and the server of net/http, which both api.go files use. They are parameters,
-- with what their documentation says. A pattern or a path is the list of its parts between slashes,
-- so that "/" is the empty list.
use task_orchestrator.Prelude.{
  ◌≡◌, Bool, true, false, Option, none, some, List, [], ◌∷◌, String, str_eq, if◌then◌else◌,
}
use task_orchestrator.Prelude.Assoc.{Assoc}

pub data Method : Type 0 where
  get post delete : Method

abbrev pub same_method : Method → Method → Bool
same_method get get = true
same_method post post = true
same_method delete delete = true
same_method _ _ = false

pub data Part : Type 0 where
  literal param : String → Part

-- The parameters of a path, read by `chi.URLParam`, come with the handler.
abbrev pub Found : Type 0 → Type 0
Found H = Option (H × Assoc String String)

abbrev pub with_param : {H : Type 0} → String → String → Found H → Found H
with_param name value none = none
with_param name value (some (h, params)) = some (h, (name, value) ∷ params)

-- `chi.NewRouter`, `Get` and its like, `Route`, and the search for the handler of a request. `none`
-- is 404 or 405.
pub record Router (H : Type 0) : Type 1 where
  pub Mux : Type 0
  pub new : Mux
  pub handle : Method → List Part → H → Mux → Mux
  pub route : List Part → (Mux → Mux) → Mux → Mux
  pub serve : Method → List String → Mux → Found H

-- A handler at "/" takes the requests of its method for nothing further down; `Route` gives
-- everything below its pattern to a router of its own; a parameter stands for any one part that no
-- other route takes.
pub record RouterLaws {H : Type 0} (r : Router H) : Type 0 where
  pub serve-new : (k : Method) (path : List String) → r.serve k path r.new ≡ none
  pub serve-handle :
      (k j : Method) (h : H) (m : r.Mux)
      → r.serve k [] (r.handle j [] h m)
        ≡ (if same_method j k then some (h, []) else r.serve k [] m)
  pub serve-handle_below :
      (k j : Method) (h : H) (m : r.Mux) (part : String) (path : List String)
      → r.serve k (part ∷ path) (r.handle j [] h m) ≡ r.serve k (part ∷ path) m
  pub serve-route_above :
      (k : Method) (at : Part) (f : r.Mux → r.Mux) (m : r.Mux)
      → r.serve k [] (r.route (at ∷ []) f m) ≡ r.serve k [] m
  pub serve-route_literal :
      (k : Method) (at : String) (f : r.Mux → r.Mux) (m : r.Mux) (part : String)
      (path : List String)
      → r.serve k (part ∷ path) (r.route (literal at ∷ []) f m)
        ≡ (if str_eq at part then r.serve k path (f r.new) else r.serve k (part ∷ path) m)
  pub serve-route_param :
      (k : Method) (name : String) (f : r.Mux → r.Mux) (m : r.Mux) (part : String)
      (path : List String)
      → r.serve k (part ∷ path) m ≡ none
      → r.serve k (part ∷ path) (r.route (param name ∷ []) f m)
        ≡ with_param name part (r.serve k path (f r.new))

-- An `http.Server` with its address, and `ListenAndServe` and `Shutdown` on what listens.
pub record Server {H : Type 0} (r : Router H) : Type 0 where
  pub addr : String
  pub handler : r.Mux

pub record Listening {H : Type 0} (r : Router H) : Type 1 where
  pub L : Type 0
  pub listen_and_serve : Server r → L → L
  pub shutdown : Server r → L → L

-- What answers at an address: a server that was started there while nothing else was, and nothing
-- more once the server is shut down.
pub record ListeningLaws {H : Type 0} {r : Router H} (net : Listening r) : Type 0 where
  pub serving : String → net.L → Option r.Mux
  pub serving-listen_and_serve :
      (s : Server r) (l : net.L)
      → serving s.addr l ≡ none
      → serving s.addr (net.listen_and_serve s l) ≡ some s.handler
  pub serving-shutdown : (s : Server r) (l : net.L) → serving s.addr (net.shutdown s l) ≡ none
