-- ===== src/Store.antt =====
-- internal/store/store.go and in_memory.go: the contract of a keyed store, and the store on a map.
pub mod InMemory
pub mod Laws
pub mod Bolt
pub mod Persistent
pub mod Durable
pub mod Opening
pub mod Choice
pub mod Chosen
use task_orchestrator.Prelude.{
  ℕ, ◌≡◌, Bool, true, false, Option, none, some, List, [], ◌∷◌, String, str_eq, ◌⊎◌, if◌then◌else◌,
  In,
}
use task_orchestrator.Prelude.Int.{ℤ}
use task_orchestrator.Errors.{Error, errors_is, not_found, Result, ok, err}

-- The interface `Store[T]`. A call that writes returns the new state and an error or nil.
pub record Store (T : Type 0) : Type 1 where
  pub S : Type 0
  pub put : String → T → S → S × Option Error
  pub get : String → S → Result T
  pub list : S → Result (List T)
  pub count : S → Result ℕ
  pub close : S → S × Option Error

-- The contract that every implementation must honour. `view` is what is stored under a key,
-- and `IsSound` the well-formedness of the representation.
pub record StoreLaws {T : Type 0} (store : Store T) : Type 1 where
  pub view : store.S → String → Option T
  pub IsSound : store.S → Type 0
  pub put-IsSound : (k : String) (v : T) (s : store.S) → IsSound s → IsSound (store.put k v s).0
  pub put_stored :
      (k j : String) (v : T) (s : store.S)
      → (store.put k v s).1 ≡ none
      → view (store.put k v s).0 j ≡ (if str_eq k j then some v else view s j)
  pub put_failed :
      (k j : String) (v : T) (s : store.S) {e : Error}
      → (store.put k v s).1 ≡ some e
      → view (store.put k v s).0 j ≡ view s j
  pub get_found : (k : String) (v : T) (s : store.S) → store.get k s ≡ ok v → view s k ≡ some v
  pub get_missing :
      (k : String) (e : Error) (s : store.S)
      → store.get k s ≡ err e
      → errors_is e not_found ≡ true
      → view s k ≡ none
  pub list_stored :
      (vs : List T) (s : store.S)
      → IsSound s
      → store.list s ≡ ok vs
      → (v : T) → In v vs
      → (k : String) × (view s k ≡ some v)
  pub list_complete :
      (vs : List T) (s : store.S)
      → store.list s ≡ ok vs
      → (k : String) (v : T) → view s k ≡ some v
      → In v vs

-- A store that never fails but for a missing key.
pub record IsReliable {T : Type 0} (store : Store T) : Type 0 where
  pub put_ok : (k : String) (v : T) (s : store.S) → (store.put k v s).1 ≡ none
  pub get_err :
      (k : String) (e : Error) (s : store.S) → store.get k s ≡ err e → errors_is e not_found ≡ true
  pub list_ok : (s : store.S) → (vs : List T) × (store.list s ≡ ok vs)
