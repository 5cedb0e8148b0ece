-- ===== src/Node.antt =====
-- internal/node/node.go: what the manager knows of a worker, and the fetch of its live statistics.
use task_orchestrator.Prelude.{
  Option, none, some, List, [], ◌∷◌, String, str_append, ◌==◌, if◌then◌else◌,
}
use task_orchestrator.Prelude.Int.{ℤ, pos}
use task_orchestrator.Errors.{join, Error, foreign, origin, origin_of, Result, ok, err}
use task_orchestrator.HttpApi.{status_ok, Attempts, http_with_retry, retry_limit, Response}

pub record Node : Type 0 where
  pub name : String
  pub api : String
  pub cores : ℤ
  pub memory : ℤ
  pub memory_allocated : ℤ
  pub disk : ℤ
  pub disk_allocated : ℤ
  pub role : String
  pub task_count : ℤ

abbrev pub zero_node : Node
zero_node = record {
  name = "";
  api = "";
  cores = pos 0;
  memory = pos 0;
  memory_allocated = pos 0;
  disk = pos 0;
  disk_allocated = pos 0;
  role = "";
  task_count = pos 0;
}

unfoldable pub new_node : String → String → String → Node
new_node name addr role = record zero_node { name = name; api = addr; role = role }

unfoldable pub stats_url : Node → String
stats_url n = str_append n.api "/stats"

abbrev get_stats_op : String
get_stats_op = "node.Node.GetStats"

module _ {ℓ} {S : Type ℓ} (decode : String → Option S) where
  -- The part of `GetStats` after the request: a joined error means that no response is read.
  -- With neither response nor error, which a positive retry limit excludes, the code would fault.
  read_stats : Option Response → List Error → Result S
  read_stats resp (e ∷ es) = err (origin_of get_stats_op (join e es))
  read_stats none [] = err foreign
  read_stats (some resp) [] =
      if resp.status == status_ok
      then elim (decode resp.body) [
        | some stats ↦ ok stats
        | none ↦ err (origin_of get_stats_op foreign)
      ]
      else err (origin get_stats_op)

  -- `GetStats`: `get` is the GET of a URL within the timeout, attempt by attempt.
  unfoldable pub get_stats : (String → Attempts Response Error) → Node → Result S
  unfolding read_stats
  get_stats get n =
      let out = http_with_retry (get (stats_url n)) retry_limit in read_stats out.response out.error
