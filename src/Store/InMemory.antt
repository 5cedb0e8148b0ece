-- ===== src/Store/InMemory.antt =====
-- internal/store/in_memory.go: a store on a Go map. `List` is the map's values, in an order that
-- the model takes from its entries.
use task_orchestrator.Prelude.{ℕ, Option, none, some, List, [], map, String, length}
use task_orchestrator.Prelude.Assoc.{Assoc, String-Eq, lookup, insert}
use task_orchestrator.Errors.{Error, sentinel, origin_of, not_found, Result, ok, err}
use task_orchestrator.Store.{Store}

pub record InMemory (T : Type 0) : Type 0 where
  pub db : Assoc String T

abbrev in_memory_get_op : String
in_memory_get_op = "store.InMemory.Get"

module _ {T : Type 0} where
  unfoldable pub new_in_memory : InMemory T
  new_in_memory = record { db = [] }

  unfoldable pub close : InMemory T → InMemory T × Option Error
  close i = (i, none)

  unfoldable pub put : String → T → InMemory T → InMemory T × Option Error
  put key value i = (record { db = insert key value i.db }, none)

  unfoldable pub get : String → InMemory T → Result T
  get key i = elim (lookup key i.db) [
    | none ↦ err (origin_of in_memory_get_op (sentinel not_found))
    | some el ↦ ok el
  ]

  unfoldable pub list : InMemory T → Result (List T)
  list i = ok (map (λ e. e.1) i.db)

  unfoldable pub count : InMemory T → Result ℕ
  count i = ok (length i.db)

-- The map as a `Store[T]`.
abbrev pub in_memory : (T : Type 0) → Store T
in_memory T = record {
  S = InMemory T;
  put = put;
  get = get;
  list = list;
  count = count;
  close = close;
}
