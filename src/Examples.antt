-- ===== src/Examples.antt =====
-- Concrete instances of what the code is built on, and a manager with two workers and one task.
pub mod Retries
pub mod Scheduling
pub mod Managing
pub mod Working
pub mod Checking
pub mod Storing
pub mod StoringLaws
pub mod Starting
pub mod Composing
pub mod Together
pub mod Serving
pub mod Limiting
pub mod Finding
pub mod Reaching
pub mod Commanding
use task_orchestrator.Prelude.{
  ℕ, ◌≡◌, refl, ap, Option, none, some, List, [], ◌∷◌, ◌++◌, String, length, arith, ltb, leb, ◌==◌,
  if◌then◌else◌, ◌+◌, ◌-◌, ◌/◌, ◌^◌, true, false,
}
use task_orchestrator.Prelude.Int.{ℤ, pos, pos_part}
use task_orchestrator.Errors.{foreign}
use task_orchestrator.Float64.{Float64, FloatOrder}
use task_orchestrator.HttpApi.{Response}
use task_orchestrator.Manager.{Codec, Parts, Manager, Net, unreachable, answered}
use task_orchestrator.Node.{Node, new_node}
use task_orchestrator.Queue.{Inner, InnerLaws}
use task_orchestrator.Scheduler.Interface.{round_robin}
use task_orchestrator.Store.InMemory.{in_memory}
use task_orchestrator.Task.{Task, TaskEvent, State, scheduled, running, completed}

-- Scores that are natural numbers.
abbrev pub whole : Float64
whole = record {
  F = ℕ;
  lt = ltb;
  le = leb;
  add = λ a b. a + b;
  sub = λ a b. a - b;
  div = λ a b. a;
  pow = λ a b. b;
  of_int = pos_part;
  of_uint = λ n. n;
  lieb = 1;
}

pub ltb_irrefl : (a : ℕ) → ltb a a ≡ false
ltb_irrefl a = ground arith

pub ltb_trans : (a b c : ℕ) → ltb a b ≡ true → ltb b c ≡ true → ltb a c ≡ true
ltb_trans a b c p q = ground arith

pub geb_trans : (a b c : ℕ) → true ≡ true → ltb a b ≡ false → ltb b c ≡ false → ltb a c ≡ false
geb_trans a b c n p q = ground arith

abbrev pub whole-FloatOrder : FloatOrder whole
whole-FloatOrder = record {
  is_number = λ n. true;
  lt_irrefl = ltb_irrefl;
  lt_trans = ltb_trans;
  ge_trans = geb_trans;
}

-- A queue that is a list, oldest item first.
abbrev pub uncons : {T : Type 0} → List T → Option T × List T
uncons [] = (none, [])
uncons (v ∷ vs) = (some v, vs)

abbrev pub list_queue : (T : Type 0) → Inner T
list_queue T = record {
  Q = List T;
  new = [];
  enqueue = λ v q. q ++ v ∷ [];
  dequeue = uncons;
  len = length;
}

abbrev pub list_queue-InnerLaws : (T : Type 0) → InnerLaws (list_queue T)
list_queue-InnerLaws T = record {
  items = λ q. q;
  items-new = refl;
  items-enqueue = λ v q. refl;
  dequeue-nil = λ q e. ap (λ l. (uncons l).0) e;
  items-dequeue_nil = λ q e. ap (λ l. (uncons l).1) e;
  dequeue-cons = λ q v vs e. ap (λ l. (uncons l).0) e;
  items-dequeue_cons = λ q v vs e. ap (λ l. (uncons l).1) e;
  len-items = λ q. refl;
}

abbrev pub job : ℕ → State → Task
job id s = record {
  name = "job";
  id = id;
  state = s;
  image = "alpine";
  memory = pos 1;
  disk = pos 1;
  exposed_ports = none;
  host_ports = none;
  restart_policy = "";
  start_time = 0;
  finish_time = 0;
  container_id = "";
  health_check = "/health";
  restart_count = pos 0;
}

abbrev pub request : ℕ → State → TaskEvent
request id s = record { id = 100 + id; state = s; timestamp = 0; task = job id s }

-- Every event is encoded as one body, and every body decodes to the task that runs.
abbrev pub codec : Codec
codec = record {
  encode_event = λ te. some "event";
  decode_event = λ body. none;
  encode_task = λ t. some "task";
  decode_task = λ body. some (job 7 running);
  decode_tasks = λ body. none;
  decode_error = λ body. none;
}

abbrev pub parts : Parts
parts = record {
  fl = whole;
  tasks = in_memory Task;
  events = in_memory TaskEvent;
  pending = list_queue TaskEvent;
  scheduler = round_robin whole;
  codec = codec;
  uuid_string = λ id. if id == 7 then "7" else "other";
  parse_url = λ u. none;
}

abbrev pub first_node : Node
first_node = record {
  name = "first";
  api = "http://first";
  cores = pos 0;
  memory = pos 0;
  memory_allocated = pos 0;
  disk = pos 5;
  disk_allocated = pos 0;
  role = "worker";
  task_count = pos 0;
}

abbrev pub second_node : Node
second_node = record first_node { name = "second"; api = "http://second" }

abbrev pub nodes : List Node
nodes = first_node ∷ second_node ∷ []

-- One event is pending, and nothing is stored.
abbrev pub fresh : Manager parts
fresh = record {
  pending = record { inner_queue = request 7 scheduled ∷ request 8 scheduled ∷ [] };
  task_db = record { db = [] };
  event_db = record { db = [] };
  worker_task_map = [];
  task_worker_map = [];
  worker_nodes = nodes;
  scheduler = record { name = "round-robin"; last_worker = pos 0 };
}

-- Task 7 is stored and routed to the first worker.
abbrev pub busy : State → Manager parts
busy s = record fresh {
  task_db = record { db = ("7", job 7 s) ∷ [] };
  worker_task_map = ("first", 7 ∷ []) ∷ [];
  task_worker_map = (7, "first") ∷ [];
}

-- A network on which every request ends alike.
abbrev pub down : Net
down = record {
  get = λ url. unreachable foreign;
  post = λ url body. unreachable foreign;
  delete = λ url. unreachable foreign;
}

abbrev pub reply : ℕ → Response
reply status = record { status = status; body = "" }

abbrev pub up : ℕ → Net
up status = record {
  get = λ url. answered (reply status);
  post = λ url body. answered (reply status);
  delete = λ url. answered (reply status);
}
